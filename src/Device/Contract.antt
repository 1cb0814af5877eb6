-- ===== src/Device/Contract.antt =====
-- core/device/device.go: the interface `Device`, and what its methods promise.
use net_hive.Prelude.{ℕ, ◌≡◌, Bool, true, false, Option, some, Bytes, length, Result, ok}
use net_hive.Prelude.Int.{ℤ}
use net_hive.Netip.{Prefix}

-- The methods of a device, and the `CreateTUN` that makes it. A method is a step on the data of the
-- device and on the world outside; `read` and `write` take what the driver answers as long as the
-- call goes on, and their `none` is a call that still waits. The clock is an argument.
pub record Device : Type 1 where
  pub Tun : Type 0
  pub World : Type 0
  pub Driver : Type 0
  pub Error : Type 0
  pub create : Bytes → ℤ → ℕ → World → Result Error Tun × World
  -- The size and the bytes of the buffer, and the size.
  pub read : Tun → Bytes → Driver → Option (Result Error ℕ × Bytes)
  pub write : Tun → Bytes → Driver → Option (Result Error ℕ)
  pub close : Tun → World → Option Error × World
  pub mtu : ℕ → Tun → World → Result Error ℤ × World
  pub name : ℕ → Tun → World → Result Error (Bytes × Tun) × World
  pub add_address : Tun → Prefix → World → Option Error × World
  pub flush_address : Tun → World → Option Error × World
  pub up : Tun → World → Result Error Tun × World
  pub down : Tun → World → Result Error Tun × World
  pub state : Tun → Bool

-- A new device is down. It is up after `Up` and down after `Down`, if they succeed; either does
-- nothing, and succeeds, where the device is so already. `Name` does not switch it. `Read` fills
-- the buffer that it is given and no more.
pub record IsDevice (D : Device) : Type 0 where
  pub created-state :
      (name : Bytes) (mtu : ℤ) (now : ℕ) (t : D.Tun) (w : D.World)
      → (D.create name mtu now w).0 ≡ ok t
      → D.state t ≡ false
  pub up-state : (t t' : D.Tun) (w w' : D.World) → D.up t w ≡ (ok t', w') → D.state t' ≡ true
  pub down-state : (t t' : D.Tun) (w w' : D.World) → D.down t w ≡ (ok t', w') → D.state t' ≡ false
  pub up_again : (t : D.Tun) (w : D.World) → D.state t ≡ true → D.up t w ≡ (ok t, w)
  pub down_again : (t : D.Tun) (w : D.World) → D.state t ≡ false → D.down t w ≡ (ok t, w)
  pub name-state :
      (now : ℕ) (t t' : D.Tun) (w : D.World) (n : Bytes)
      → (D.name now t w).0 ≡ ok (n, t')
      → D.state t' ≡ D.state t
  pub length-read :
      (t : D.Tun) (buff : Bytes) (d : D.Driver) (r : Result D.Error ℕ) (bs : Bytes)
      → D.read t buff d ≡ some (r, bs)
      → length bs ≡ length buff
