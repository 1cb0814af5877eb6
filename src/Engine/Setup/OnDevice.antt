-- ===== src/Engine/Setup/OnDevice.antt =====
-- core/engine/engine.go: the method `Run` on a `Device` (core/device/device.go), each call of which
-- finds the world as the one before it has left it.
pub mod Steps
pub mod Up
pub mod OnLinux
use net_hive.Prelude.{ℕ, Option, none, some, Bytes, Result, ok, err}
use net_hive.Netip.{Prefix}
use net_hive.Config.{Config}
use net_hive.Device.Contract.{Device}
use net_hive.Engine.Setup.{Answers}

-- `if err != nil { return err }` after a call that also gives a value.
unfoldable pub and_then :
    {E A B W : Type 0} → Result E A × W → (A → W → Result E B × W) → Result E B × W
and_then (err x, w) f = (err x, w)
and_then (ok a, w) f = f a w

-- The same after a call that gives only an error.
unfoldable pub keep : {E A W : Type 0} → A → Option E × W → Result E A × W
keep a (none, w) = (ok a, w)
keep a (some x, w) = (err x, w)

unfoldable pub error_with : {E E' A : Type 0} → (E → E') → Result E A → Option E'
error_with f (ok a) = none
error_with f (err x) = some (f x)

unfoldable pub first_with : {E E' A B : Type 0} → (E → E') → Result E (A × B) → Result E' A
first_with f (ok (a, b)) = ok a
first_with f (err x) = err (f x)

module _ (D : Device) where
  open D use {Tun, World, Error}

  -- `CreateTUN`, `Name`, `AddAddress` and `Up` of the method `Run`, each with those before it. The
  -- clock is `now` at the first and `later` at the second.
  unfoldable pub created : {L : Type 0} → Config L → ℕ → World → Result Error Tun × World
  created cfg now w = D.create cfg.tun_name cfg.mtu now w

  unfoldable pub named : ℕ → Result Error Tun × World → Result Error (Bytes × Tun) × World
  named later r = and_then r (λ t w. D.name later t w)

  unfoldable pub addressed :
      Prefix → Result Error (Bytes × Tun) × World → Result Error (Bytes × Tun) × World
  addressed addr r = and_then r (λ (n, t) w. keep (n, t) (D.add_address t addr w))

  unfoldable pub with_same : Bytes → Result Error Tun × World → Result Error (Bytes × Tun) × World
  with_same n (ok t, w) = (ok (n, t), w)
  with_same n (err x, w) = (err x, w)

  unfoldable pub put_up : Result Error (Bytes × Tun) × World → Result Error (Bytes × Tun) × World
  put_up r = and_then r (λ (n, t) w. with_same n (D.up t w))

  unfoldable pub set_up_device :
      {L : Type 0} → Config L → (now later : ℕ) → World → Result Error (Bytes × Tun) × World
  set_up_device cfg now later w =
      put_up (addressed cfg.local_addr (named later (created cfg now w)))

  -- The answers of the device to the method `Run`. Go's errors are one type; `f` takes those of the
  -- device into it.
  unfoldable pub on_device :
      {E R L : Type 0}
      → (Error → E)
      → Config L
      → (now later : ℕ) → World
      → Answers E R
      → Answers E R
  on_device f cfg now later w a = record a {
    create_tun = error_with f (created cfg now w).0;
    name = first_with f (named later (created cfg now w)).0;
    add_address = λ addr. error_with f (addressed addr (named later (created cfg now w))).0;
    up = error_with f (set_up_device cfg now later w).0;
  }
