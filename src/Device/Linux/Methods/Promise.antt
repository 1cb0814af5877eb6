-- ===== src/Device/Linux/Methods/Promise.antt =====
-- The device of Linux keeps the promise of the interface.
use net_hive.Prelude.{
  ℕ, ◌≡◌, refl, sym, ap, ◌∙◌, inl, inr, Bool, true, false, not, ◌&&◌, ◌||◌, [], arith, ltb, Bytes,
  Bool-cases, length, Result, ok, err,
}
use net_hive.Command.{Shell}
use net_hive.Device.Copy.{length-copy}
use net_hive.Device.Lift.{lift, lift-ok}
use net_hive.Device.Contract.{IsDevice}
use net_hive.Prelude.Int.{ℤ}
use net_hive.Device.Linux.{
  Kernel, Tun, and_then, with_socket, change_state, siocsifflags, flags_req, create_tun, tun_name,
  get_name_from_sys, control_name, set_up, cut_name, new_tun, nonblock_or_close, tunsetiff,
  tungetiff, if_req, get_if_index, set_mtu, get_mtu_from_sys,
}
use net_hive.Device.Linux.Methods.{TunFile, read, up, down}
use net_hive.Device.Linux.Methods.Interface.{
  from_file, with_own_name, filled, in_kernel, linux, World, Error,
}

length-filled :
    {E E' : Type 0} (f : E → E') (buff : Bytes) (r : Result E Bytes)
    → length (filled f buff r).1 ≡ length buff
unfolding filled
length-filled f buff (err x) = refl
length-filled f buff (ok bs) = length-copy buff bs

pub with_own_name-ok :
    {E W : Type 0} (r : Result E Tun × W) (n : Bytes) (t : Tun)
    → (with_own_name r).0 ≡ ok (n, t)
    → (r.0 ≡ ok t) × (n ≡ t.name)
unfolding with_own_name
with_own_name-ok (err x, w) n t h = cc (h)
with_own_name-ok {E} (ok u, w) n t h =
    let same : (u.name, u) ≡ (n, t) = cc (h) in
    (
      ap (λ (p : Bytes × Tun). ok p.1) same,
      ap (λ (p : Bytes × Tun). p.0) (sym same) ∙ ap (λ (p : Bytes × Tun). p.1.name) same,
    )

module _ (K : Kernel) where
  and_then-ok :
      {A B : Type 0} (r : Result K.Error A × K.World) (f : A → K.World → Result K.Error B × K.World)
      (b : B)
      → (and_then K r f).0 ≡ ok b
      → (a : A) × (w : K.World) × (r.0 ≡ ok a) × ((f a w).0 ≡ ok b)
  unfolding and_then
  and_then-ok (err x, w) f b h = cc (h)
  and_then-ok (ok a, w) f b h = (a, w, refl, h)

  change_state-changed :
      (s : Bool) (t t' : Tun) (w : K.World) → (change_state K s t w).0 ≡ ok t' → t'.state ≡ s
  unfolding change_state with_socket
  change_state-changed s t t' w h = elim (Bool-cases ((t.state && s) || (not t.state && not s))) [
    | inl same ↦
        let is : t ≡ t' = cc (rw same at h) in
        ap (λ (t : Tun). t.state) (sym is) ∙ both t.state s same
    | inr other ↦
        let (fd, w1, g1, h1) = and_then-ok (K.socket w) _ t' (rw other at h) in
        let (ifr, w2, g2, h2) =
          and_then-ok (K.ioctl w1 fd siocsifflags (flags_req s t.name)) _ t' h1 in
        let is : record t { state = s } ≡ t' = cc (h2) in ap (λ (t : Tun). t.state) (sym is)
  ]
    where
      both : (a b : Bool) → ((a && b) || (not a && not b)) ≡ true → a ≡ b
      both a b h = ground arith

  change_state-same :
      (s : Bool) (t : Tun) (w : K.World) → t.state ≡ s → change_state K s t w ≡ (ok t, w)
  unfolding change_state
  change_state-same s t w h =
      let same : ((t.state && s) || (not t.state && not s)) ≡ true = rw h (both s) in rw same refl
    where
      both : (b : Bool) → ((b && b) || (not b && not b)) ≡ true
      both b = ground arith

  control_name-state :
      (t t' : Tun) (r : Result K.Error Bytes × K.World)
      → (control_name K t r).0 ≡ ok t'
      → t'.state ≡ t.state
  control_name-state t t' (ok ifr, w) h =
      let is : record t { name = cut_name ifr } ≡ t' = cc (h) in ap (λ (t : Tun). t.state) (sym is)
  control_name-state t t' (err x, w) h =
      let is : record t { name = cut_name (if_req []) } ≡ t' = cc (h) in
      ap (λ (t : Tun). t.state) (sym is)

  get_name_from_sys-state :
      (t t' : Tun) (w : K.World) → (get_name_from_sys K t w).0 ≡ ok t' → t'.state ≡ t.state
  unfolding get_name_from_sys
  get_name_from_sys-state t t' w h =
      let (u, w1, g1, h1) = and_then-ok (K.syscall_conn w t.tun_file, w) _ t' h in
      control_name-state t t' (K.ioctl w1 t.tun_file tungetiff (if_req [])) h1

  tun_name-state :
      (now : ℕ) (t t' : Tun) (w : K.World) → (tun_name K now t w).0 ≡ ok t' → t'.state ≡ t.state
  unfolding tun_name
  tun_name-state now t t' w h = elim (Bool-cases (ltb t.cache_time now)) [
    | inl old ↦ get_name_from_sys-state t t' w (rw old at h)
    | inr new ↦ let is : t ≡ t' = cc (rw new at h) in ap (λ (t : Tun). t.state) (sym is)
  ]

  set_up-state :
      (d t : Tun) (mtu : ℤ) (w : K.World) → (set_up K d mtu w).0 ≡ ok t → t.state ≡ d.state
  unfolding set_up
  set_up-state d t mtu w h =
      let (d1, w1, named, h1) = and_then-ok (get_name_from_sys K d w) _ t h in
      let (index, w2, g2, h2) = and_then-ok (get_if_index K d1.name w1) _ t h1 in
      let (u, w3, g3, h3) = and_then-ok (set_mtu K d1.name mtu w2) _ t h2 in
      let (m, w4, g4, h4) = and_then-ok (get_mtu_from_sys K d1.name w3) _ t h3 in
      let is : record d1 { index = index; mtu = m } ≡ t = cc (h4) in
      ap (λ (t : Tun). t.state) (sym is) ∙ get_name_from_sys-state d d1 w named

  create_tun-state :
      (name : Bytes) (mtu : ℤ) (now : ℕ) (t : Tun) (w : K.World)
      → (create_tun K name mtu now w).0 ≡ ok t
      → t.state ≡ false
  unfolding create_tun
  create_tun-state name mtu now t w h =
      let (tfd, w1, g1, h1) = and_then-ok (K.open_tun w) _ t h in
      let (ifreq, w2, g2, h2) = and_then-ok (K.new_ifreq name, w1) _ t h1 in
      let (u, w3, g3, h3) = and_then-ok (K.ioctl w2 tfd tunsetiff ifreq) _ t h2 in
      let (v, w4, g4, h4) = and_then-ok (nonblock_or_close K tfd (K.set_nonblock w3 tfd)) _ t h3 in
      set_up-state (new_tun K now tfd) t mtu w4 h4

module _ (K : Kernel) (F : TunFile) (S : Shell) where
  pub in_kernel-ok :
      {A : Type 0} (w w' : World K F S) (r : Result K.Error A × K.World) (a : A)
      → in_kernel K F S w r ≡ (ok a, w')
      → r.0 ≡ ok a
  unfolding in_kernel
  in_kernel-ok w w' r a h = lift-ok _ _ r a (ap (λ p. p.0) h)

  unchanged :
      (w : World K F S) (t : Tun) (r : Result K.Error Tun × K.World)
      → r ≡ (ok t, w.kernel)
      → in_kernel K F S w r ≡ (ok t, w)
  unfolding in_kernel lift
  unchanged w t r h = rw h refl

  pub linux-IsDevice : IsDevice (linux K F S)
  unfolding up down in_kernel
  linux-IsDevice = record {
    created-state =
        λ name mtu now t w h. create_tun-state K name mtu now t w.kernel (lift-ok _ _ _ t h);
    up-state = λ t t' w w' h. change_state-changed K true t t' w.kernel (in_kernel-ok w w' _ t' h);
    down-state =
        λ t t' w w' h. change_state-changed K false t t' w.kernel (in_kernel-ok w w' _ t' h);
    up_again = λ t w h. unchanged w t _ (change_state-same K true t w.kernel h);
    down_again = λ t w h. unchanged w t _ (change_state-same K false t w.kernel h);
    name-state = λ now t t' w n h.
        tun_name-state K now t t' w.kernel
          (with_own_name-ok (tun_name K now t w.kernel) n t' (lift-ok _ _ _ (n, t') h)).0;
    length-read = λ t buff d r bs h.
        let got = (read F t (length buff) d).0 in
        let is : filled from_file buff got ≡ (r, bs) = cc (h) in
        ap (λ (p : Result (Error K F S) ℕ × Bytes). length p.1) (sym is)
        ∙ length-filled from_file buff got;
  }
