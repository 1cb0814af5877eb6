-- ===== src/Engine/Setup/OnDevice/Steps.antt =====
-- What the method `Run` has done with its device when its goroutines start.
use net_hive.Prelude.{◌≡◌, refl, Option, none, some, Bytes, Result, ok, err, ℕ}
use net_hive.Config.{Config}
use net_hive.Device.Contract.{Device}
use net_hive.Engine.{Maps, Engine}
use net_hive.Engine.Setup.{start_goroutines, run, with_name, Answers, check, start_services}
use net_hive.Engine.Setup.OnDevice.{
  created, named, set_up_device, on_device, with_same, and_then, keep, error_with, first_with,
  addressed, put_up,
}

-- How `Run` goes on after the device is set up.
unfoldable pub then_serve :
    {E E' A B C : Type 0}
    → (E → E')
    → (A → Option (Result E' B))
    → Result E (A × C)
    → Option (Result E' B)
then_serve f next (err x) = some (err (f x))
then_serve f next (ok (a, c)) = next a

module _ (D : Device) (T : Maps) where
  open D use {Tun, World, Error}

  up-serve :
      {E B : Type 0} (f : Error → E) (next : Bytes → Option (Result E B)) (n : Bytes)
      (r : Result Error Tun × World)
      → check (error_with f (with_same D n r).0) (next n) ≡ then_serve f next (with_same D n r).0
  unfolding check error_with with_same then_serve
  up-serve f next n (err x, w) = refl
  up-serve f next n (ok t, w) = refl

  added-serve :
      {E B : Type 0} (f : Error → E) (next : Bytes → Option (Result E B)) (n : Bytes) (t : Tun)
      (r : Option Error × World)
      → check
          (error_with f (keep {A = Bytes × Tun} (n, t) r).0)
          (check (error_with f (put_up D (keep (n, t) r)).0) (next n))
        ≡ then_serve f next (put_up D (keep (n, t) r)).0
  unfolding check error_with put_up keep then_serve and_then
  added-serve f next n t (some x, w) = refl
  added-serve f next n t (none, w) = up-serve f next n (D.up t w)

  named-serve :
      {E R L : Type 0} (f : Error → E) (a : Answers E R) (cfg : Config L) (e : Engine T)
      (r : Result Error (Bytes × Tun) × World)
      → a.add_address cfg.local_addr ≡ error_with f (addressed D cfg.local_addr r).0
      → a.up ≡ error_with f (put_up D (addressed D cfg.local_addr r)).0
      → with_name T a cfg e (first_with f r.0)
        ≡ then_serve f (λ n. start_services T a cfg n e) (put_up D (addressed D cfg.local_addr r)).0
  unfolding with_name first_with addressed put_up and_then then_serve start_services
      start_goroutines
  named-serve f a cfg e (err x, w) add up = refl
  named-serve f a cfg e (ok (n, t), w) add up =
      rw (add, up)
        (added-serve f (λ n. start_services T a cfg n e) n t (D.add_address t cfg.local_addr w))

  created-serve :
      {E R L : Type 0} (f : Error → E) (a : Answers E R) (cfg : Config L) (e : Engine T) (later : ℕ)
      (r : Result Error Tun × World)
      → a.create_tun ≡ error_with f r.0
      → a.name ≡ first_with f (named D later r).0
      → a.add_address cfg.local_addr ≡ error_with f (addressed D cfg.local_addr (named D later r)).0
      → a.up ≡ error_with f (put_up D (addressed D cfg.local_addr (named D later r))).0
      → run T a cfg e
        ≡ then_serve f
            (λ n. start_services T a cfg n e)
            (put_up D (addressed D cfg.local_addr (named D later r))).0
  unfolding run check error_with named addressed put_up and_then then_serve with_name start_services
      start_goroutines
  created-serve f a cfg e later (err x, w) tun name add up = rw tun refl
  created-serve f a cfg e later (ok t, w) tun name add up =
      rw (tun, name) (named-serve f a cfg e (D.name later t w) add up)

  -- The method `Run`, with the answers of a device, sets the device up, call after call on the
  -- world that the last has left, and returns the first error of that; or it goes on to its
  -- services with the name that the device has given.
  pub run-set_up_device :
      {E R L : Type 0} (f : Error → E) (a : Answers E R) (cfg : Config L) (e : Engine T)
      (now later : ℕ) (w : World)
      → run T (on_device D f cfg now later w a) cfg e
        ≡ then_serve f (λ n. start_services T a cfg n e) (set_up_device D cfg now later w).0
  unfolding on_device set_up_device start_services start_goroutines
  run-set_up_device f a cfg e now later w =
      created-serve f (on_device D f cfg now later w a) cfg e later (created D cfg now w) refl refl
        refl refl
