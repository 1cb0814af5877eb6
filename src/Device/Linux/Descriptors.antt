-- ===== src/Device/Linux/Descriptors.antt =====
-- Which descriptors the operations of the device leave open.
use net_hive.Prelude.{
  ℕ, ◌≡◌, refl, sym, ap, ◌∙◌, ◌≢◌, Bool, true, false, [], Bytes, Result, ok, err,
}
use net_hive.Prelude.Int.{ℤ}
use native.Mathlib.Decide.{ℕ_discrete}
use net_hive.Device.Linux.{
  Kernel, Tun, Call, and_then, with_socket, get_name_from_sys, get_mtu_from_sys, set_mtu,
  get_if_index, set_up, control_name, close_after, tungetiff, siocgifmtu, siocsifmtu, siocgifindex,
  if_req, mtu_req, cut_name,
}

-- A call that opens one descriptor, which was closed, and touches no other.
abbrev pub Opens : {W : Type 0} → (W → ℕ → Bool) → W → ℕ → W → Type 0
Opens is_open w fd w' =
    (is_open w fd ≡ false)
    × (is_open w' fd ≡ true)
    × ((y : ℕ) → y ≢ fd → is_open w' y ≡ is_open w y)

abbrev pub Same : {W : Type 0} → (W → ℕ → Bool) → W → W → Type 0
Same is_open w w' = (y : ℕ) → is_open w' y ≡ is_open w y

-- What the kernel does to its descriptors.
pub record Descriptors (K : Kernel) : Type 0 where
  pub is_open : K.World → ℕ → Bool
  pub open_tun-ok : (w w' : K.World) (fd : ℕ) → K.open_tun w ≡ (ok fd, w') → Opens is_open w fd w'
  pub open_tun-err : (w w' : K.World) (x : K.Error) → K.open_tun w ≡ (err x, w') → Same is_open w w'
  pub socket-ok : (w w' : K.World) (fd : ℕ) → K.socket w ≡ (ok fd, w') → Opens is_open w fd w'
  pub socket-err : (w w' : K.World) (x : K.Error) → K.socket w ≡ (err x, w') → Same is_open w w'
  pub close_self : (w : K.World) (fd : ℕ) → is_open (K.close w fd) fd ≡ false
  pub close_other : (w : K.World) (fd y : ℕ) → y ≢ fd → is_open (K.close w fd) y ≡ is_open w y
  pub ioctl-Same :
      (w : K.World) (fd : ℕ) (c : Call) (b : Bytes) → Same is_open w (K.ioctl w fd c b).1
  pub set_nonblock-Same : (w : K.World) (fd : ℕ) → Same is_open w (K.set_nonblock w fd).1

module _ (K : Kernel) (F : Descriptors K) where
  open K use {World, Error}
  open F use {is_open}

  -- A descriptor that was opened is closed again.
  pub closes : (w v : World) (fd : ℕ) → Opens is_open w fd v → Same is_open w (K.close v fd)
  closes w v fd (was, now, others) y = elim (ℕ_discrete y fd) [
    | yes same ↦
        ap (is_open (K.close v fd)) same ∙ F.close_self v fd ∙ sym was ∙ ap (is_open w) (sym same)
    | no ne ↦ F.close_other v fd y ne ∙ others y ne
  ]

  pub Opens-Same :
      (w v u : World) (fd : ℕ) → Opens is_open w fd v → Same is_open v u → Opens is_open w fd u
  Opens-Same w v u fd (was, now, others) same = (was, same fd ∙ now, λ y ne. same y ∙ others y ne)

  Same-and_then :
      {A B : Type 0} (w : World) (r : Result Error A × World)
      (f : A → World → Result Error B × World)
      → Same is_open w r.1
      → ((a : A) (v : World) → Same is_open w v → Same is_open w (f a v).1)
      → Same is_open w (and_then K r f).1
  unfolding and_then
  Same-and_then w (err x, v) f h g = h
  Same-and_then w (ok a, v) f h g = g a v h

  socket-Same :
      {A : Type 0} (w : World) (body : ℕ → World → Result Error A × World)
      (r : Result Error ℕ × World)
      → K.socket w ≡ r
      → ((fd : ℕ) (v : World) → Same is_open v (body fd v).1)
      → Same is_open w (and_then K r (λ fd w. close_after K fd (body fd w))).1
  unfolding and_then
  socket-Same w body (err x, v) h keeps = F.socket-err w v x h
  socket-Same w body (ok fd, v) h keeps =
      closes w (body fd v).1 fd
        (Opens-Same w v (body fd v).1 fd (F.socket-ok w v fd h) (keeps fd v))

  -- A call over a socket, which is closed on every path.
  socket_call-Same :
      {A : Type 0} (c : Call) (b : Bytes) (g : Bytes → A) (w : World)
      → Same is_open w
          (with_socket K (λ fd w. and_then K (K.ioctl w fd c b) (λ b w. (ok (g b), w))) w).1
  unfolding with_socket
  socket_call-Same c b g w =
      socket-Same w _ (K.socket w) refl
        (λ fd v. Same-and_then v (K.ioctl v fd c b) _ (F.ioctl-Same v fd c b) (λ a u h. h))

  control_name-Same :
      (w : World) (t : Tun) (r : Result Error Bytes × World)
      → Same is_open w r.1
      → Same is_open w (control_name K t r).1
  control_name-Same w t (ok b, v) h = h
  control_name-Same w t (err x, v) h = h

  Same-trans : {u v w : World} → Same is_open u v → Same is_open v w → Same is_open u w
  Same-trans h g y = g y ∙ h y

  get_name-Same : (t : Tun) (w : World) → Same is_open w (get_name_from_sys K t w).1
  unfolding get_name_from_sys
  get_name-Same t w =
      Same-and_then w (K.syscall_conn w t.tun_file, w) _ (λ y. refl)
        (λ u v h.
          control_name-Same w t (K.ioctl v t.tun_file tungetiff (if_req []))
            (Same-trans h (F.ioctl-Same v t.tun_file tungetiff (if_req []))))

  pub set_up-Same : (d : Tun) (mtu : ℤ) (w : World) → Same is_open w (set_up K d mtu w).1
  unfolding set_up get_if_index set_mtu get_mtu_from_sys
  set_up-Same d mtu w = Same-and_then w _ _ (get_name-Same d w) (λ d v h.
      Same-and_then w _ _ (Same-trans h (socket_call-Same siocgifindex (if_req d.name) _ v))
        (λ index v h.
          Same-and_then w _ _ (Same-trans h (socket_call-Same siocsifmtu (mtu_req mtu d.name) _ v))
            (λ u v h.
              Same-and_then w _ _ (Same-trans h (socket_call-Same siocgifmtu (if_req d.name) _ v))
                (λ m v h. h))))

  ok_step :
      {A B : Type 0} (r : Result Error A × World) (f : A → World → Result Error B × World) (b : B)
      → (and_then K r f).0 ≡ ok b
      → (a : A) × (w : World) × (r.0 ≡ ok a) × ((f a w).0 ≡ ok b)
  unfolding and_then
  ok_step (err x, w) f b h = cc (h)
  ok_step (ok a, w) f b h = (a, w, refl, h)

  get_name-file :
      (t : Tun) (w : World) (d : Tun) → (get_name_from_sys K t w).0 ≡ ok d → d.tun_file ≡ t.tun_file
  unfolding get_name_from_sys
  get_name-file t w d h =
      let (u, v, _, named) = ok_step (K.syscall_conn w t.tun_file, w) _ d h in
      kept t (K.ioctl v t.tun_file tungetiff (if_req [])) d named
    where
      kept :
          (t : Tun) (r : Result Error Bytes × World) (d : Tun)
          → (control_name K t r).0 ≡ ok d
          → d.tun_file ≡ t.tun_file
      kept t (ok b, v) d h =
          let same : record t { name = cut_name b } ≡ d = cc (h) in
          ap (λ (x : Tun). x.tun_file) (sym same)
      kept t (err x, v) d h =
          let same : record t { name = cut_name (if_req []) } ≡ d = cc (h) in
          ap (λ (x : Tun). x.tun_file) (sym same)

  -- The device has the file with which it was made.
  pub set_up-file :
      (t : Tun) (mtu : ℤ) (w : World) (d : Tun)
      → (set_up K t mtu w).0 ≡ ok d
      → d.tun_file ≡ t.tun_file
  unfolding set_up
  set_up-file t mtu w d h =
      let (named, w1, is_named, h1) = ok_step (get_name_from_sys K t w) _ d h in
      let (index, w2, _, h2) = ok_step (get_if_index K named.name w1) _ d h1 in
      let (u, w3, _, h3) = ok_step (set_mtu K named.name mtu w2) _ d h2 in
      let (m, w4, _, h4) = ok_step (get_mtu_from_sys K named.name w3) _ d h3 in
      let same : record named { index = index; mtu = m } ≡ d = cc (h4) in
      ap (λ (x : Tun). x.tun_file) (sym same) ∙ get_name-file t w named is_named
