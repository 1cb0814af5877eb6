-- ===== src/Device/Windows/Methods.antt =====
-- The methods of the device of Windows that hand on to the adapter and its interface.
pub mod Interface
use net_hive.Prelude.{ℕ, Bool, Option, none, some, Bytes, Result, ok, err}
use net_hive.Prelude.Int.{ℤ}
use net_hive.Netip.{Prefix}
use net_hive.Win.{IpHelper, MibUnicastIpAddressRow, add_ip_address}
use net_hive.Win
use net_hive.Device.Contract.{Device, IsDevice}
use net_hive.Device.Windows.{Wintun, Tun, up, down}

-- `errors.Wrap`, which is `nil` for `nil`.
pub data Wrapped (E : Type 0) : Type 0 where
  error_add_address error_flush_address : E → Wrapped E

-- The error of a result.
abbrev wrap : {E A : Type 0} → (E → Wrapped E) → Result E A → Option (Wrapped E)
wrap f (err x) = some (f x)
wrap f (ok a) = none

module _ {Adapter Session : Type 0} (H : IpHelper) (luid : Adapter → ℕ) where
  -- `AddAddress` and `FlushAddress`, for the interface with the adapter's LUID.
  unfoldable pub add_address :
      Tun Adapter Session → Prefix → H.World → Option (Wrapped H.Error) × H.World
  add_address t addr w =
      let (r, w') = add_ip_address H (luid t.adapter) addr w in (wrap error_add_address r, w')

  unfoldable pub flush_address : Tun Adapter Session → H.World → Option (Wrapped H.Error) × H.World
  flush_address t w =
      let (r, w') = Win.flush_address H (luid t.adapter) w in (wrap error_flush_address r, w')

-- `MTU`, `Name` and `State`
abbrev pub mtu : {Adapter Session : Type 0} → Tun Adapter Session → ℤ
mtu t = t.mtu

abbrev pub name : {Adapter Session : Type 0} → Tun Adapter Session → Bytes
name t = t.name

abbrev pub state : {Adapter Session : Type 0} → Tun Adapter Session → Bool
state t = t.state

module _ (W : Wintun) where
  -- `Close`
  unfoldable pub close : Tun W.Adapter W.Session → W.World → Option W.Error × W.World
  close t w = W.close w t.adapter
