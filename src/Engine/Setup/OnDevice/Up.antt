-- ===== src/Engine/Setup/OnDevice/Up.antt =====
-- The device of an engine that runs.
use net_hive.Prelude.{
  ℕ, ◌≡◌, refl, sym, ap, subst, ◌∙◌, true, false, Option, none, some, List, Bytes, Result, ok, err,
}
use net_hive.Config.{Config}
use net_hive.Device.Contract.{Device, IsDevice}
use net_hive.Engine.{Maps, Engine}
use net_hive.Engine.Setup.{Answers, Goroutine, new_engine, start_services, run}
use net_hive.Engine.Setup.Start.{Distinct, Ready, run-Ready}
use net_hive.Engine.Setup.OnDevice.{
  with_same, and_then, keep, created, named, addressed, put_up, set_up_device, on_device,
}
use net_hive.Engine.Setup.OnDevice.Steps.{then_serve, run-set_up_device}

module _ (D : Device) where
  open D use {Tun, World, Error}

  -- The device `t`, its name `n` and the world `w'` come of the four calls, each on the device and
  -- the world that the last has left; and the device is up.
  pub record IsUp {L : Type 0} (cfg : Config L) (now later : ℕ) (w : World) (n : Bytes) (t : Tun)
      (w' : World) : Type 0 where
    pub new : Tun
    pub known : Tun
    pub w1 : World
    pub w2 : World
    pub w3 : World
    pub makes : D.create cfg.tun_name cfg.mtu now w ≡ (ok new, w1)
    pub names : D.name later new w1 ≡ (ok (n, known), w2)
    pub adds : D.add_address known cfg.local_addr w2 ≡ (none, w3)
    pub switches : D.up known w3 ≡ (ok t, w')
    pub was_down : D.state known ≡ false
    pub is_up : D.state t ≡ true

  and_then-ok :
      {A B : Type 0} (r : Result Error A × World) (f : A → World → Result Error B × World) (b : B)
      (w' : World)
      → and_then r f ≡ (ok b, w')
      → (a : A) × (w : World) × (r ≡ (ok a, w)) × (f a w ≡ (ok b, w'))
  unfolding and_then
  and_then-ok (err x, w) f b w' h = cc (ap (λ p. p.0) h)
  and_then-ok (ok a, w) f b w' h = (a, w, refl, h)

  keep-ok :
      {A : Type 0} (a b : A) (r : Option Error × World) (w' : World)
      → keep a r ≡ (ok b, w')
      → (r ≡ (none, w')) × (a ≡ b)
  unfolding keep
  keep-ok a b (some x, w) w' h = cc (ap (λ p. p.0) h)
  keep-ok a b (none, w) w' h = ((λ i. (none, (h i).1)), cc (ap (λ p. p.0) h))

  with_same-ok :
      (n m : Bytes) (t : Tun) (r : Result Error Tun × World) (w' : World)
      → with_same D n r ≡ (ok (m, t), w')
      → (r ≡ (ok t, w')) × (n ≡ m)
  unfolding with_same
  with_same-ok n m t (err x, w) w' h = cc (ap (λ p. p.0) h)
  with_same-ok n m t (ok u, w) w' h =
      let same : (n, u) ≡ (m, t) = cc (ap (λ p. p.0) h) in
      ((λ i. (ok (same i).1, (h i).1)), ap (λ (p : Bytes × Tun). p.0) same)

  set_up_device-IsUp :
      {L : Type 0} (I : IsDevice D) (cfg : Config L) (now later : ℕ) (w : World) (n : Bytes)
      (t : Tun) (w' : World)
      → set_up_device D cfg now later w ≡ (ok (n, t), w')
      → IsUp cfg now later w n t w'
  unfolding set_up_device created named addressed put_up
  set_up_device-IsUp I cfg now later w n t w' h =
      let ((n3, t3), w3, h3, g3) =
        and_then-ok (addressed D cfg.local_addr (named D later (created D cfg now w))) _ (n, t) w'
          h in
      let ((n2, t2), w2, h2, g2) =
        and_then-ok (named D later (created D cfg now w)) _ (n3, t3) w3 h3 in
      let (t1, w1, h1, g1) = and_then-ok (created D cfg now w) _ (n2, t2) w2 h2 in
      let (adds, same) = keep-ok (n2, t2) (n3, t3) (D.add_address t2 cfg.local_addr w2) w3 g2 in
      let (ups, named) = with_same-ok n3 n t (D.up t3 w3) w' g3 in
      let same2 : (n2, t2) ≡ (n, t3) = same ∙ ap (λ (m : Bytes). (m, t3)) named in
      let names = g1 ∙ ap (λ (p : Bytes × Tun). (ok p, w2)) same2 in
      let was_down =
        I.name-state later t1 t3 w1 n (ap (λ r. r.0) names)
        ∙ I.created-state cfg.tun_name cfg.mtu now t1 w (ap (λ r. r.0) h1) in
      record {
        new = t1;
        known = t3;
        w1 = w1;
        w2 = w2;
        w3 = w3;
        makes = h1;
        names = names;
        adds =
            subst (λ (u : Tun). D.add_address u cfg.local_addr w2 ≡ (none, w3))
              (ap (λ (p : Bytes × Tun). p.1) same) adds;
        switches = ups;
        was_down = was_down;
        is_up = I.up-state t3 t w3 w' ups;
      }

  then_serve-ok :
      {E' A B C : Type 0} (f : Error → E') (next : A → Option (Result E' B))
      (r : Result Error (A × C)) (b : B)
      → then_serve f next r ≡ some (ok b)
      → (a : A) × (c : C) × (r ≡ ok (a, c)) × (next a ≡ some (ok b))
  unfolding then_serve
  then_serve-ok f next (err x) b h = cc (h)
  then_serve-ok f next (ok (a, c)) b h = (a, c, refl, h)

  -- When the method `Run` gets as far as its goroutines on a device that keeps the promise of the
  -- interface, with the engine that the function `Run` makes of a configuration whose peers are
  -- distinct, then the device was made down, with the name and the MTU of the configuration; it has
  -- told its name, been given the local address, and been put up, in this order, each on the world
  -- that the last call has left, without an error; it is up now; the routes were added for the name
  -- that it has told; and the engine is in the start state, with every peer in its route table.
  pub run-IsUp :
      {E R L : Type 0} (T : Maps) (I : IsDevice D) (f : Error → E) (a : Answers E R)
      (cfg : Config L) (now later : ℕ) (w : World) {e : Engine T} {gs : List Goroutine}
      → Distinct cfg.peers_route_table
      → run T (on_device D f cfg now later w a) cfg (new_engine T cfg) ≡ some (ok (e, gs))
      → (n : Bytes) × (t : Tun) × (w' : World) × IsUp cfg now later w n t w'
        × (start_services T a cfg n (new_engine T cfg) ≡ some (ok (e, gs)))
        × Ready T cfg e gs
  run-IsUp T I f a cfg now later w {e} {gs} d h =
      let (n, t, got, serves) =
        then_serve-ok f (λ n. start_services T a cfg n (new_engine T cfg))
          (set_up_device D cfg now later w).0 (e, gs)
          (sym (run-set_up_device D T f a cfg (new_engine T cfg) now later w) ∙ h) in
      let w' = (set_up_device D cfg now later w).1 in
      (
        n,
        t,
        w',
        set_up_device-IsUp I cfg now later w n t w' (λ i. (got i, w')),
        serves,
        run-Ready T (on_device D f cfg now later w a) cfg d h,
      )
