-- ===== src/Device/Linux/Methods.antt =====
-- The methods of the device of Linux that hand on to the file, the shell and `changeState`.
pub mod Interface
pub mod Promise
use net_hive.Prelude.{ℕ, Bool, true, false, Option, Bytes, Result}
use net_hive.Netip.{Prefix}
use net_hive.Command.{Shell, ip4_add_addr, ip4_flush_addr}
use net_hive.Device.Linux.{Kernel, Tun, change_state}

-- An `os.File`: what a `Read` of so many bytes gives, how many a `Write` takes, and `Close`.
pub record TunFile : Type 1 where
  pub World : Type 0
  pub Error : Type 0
  pub read_file : ℕ → ℕ → World → Result Error Bytes × World
  pub write_file : ℕ → Bytes → World → Result Error ℕ × World
  pub close_file : ℕ → World → Option Error × World

-- `Read` into a buffer of `size` bytes, `Write` and `Close`.
unfoldable pub read : (F : TunFile) → Tun → ℕ → F.World → Result F.Error Bytes × F.World
read F t size = F.read_file t.tun_file size

unfoldable pub write : (F : TunFile) → Tun → Bytes → F.World → Result F.Error ℕ × F.World
write F t buff = F.write_file t.tun_file buff

unfoldable pub close : (F : TunFile) → Tun → F.World → Option F.Error × F.World
close F t = F.close_file t.tun_file

-- `AddAddress` and `FlushAddress`
unfoldable pub add_address : (S : Shell) → Tun → Prefix → S.World → Option S.Error × S.World
add_address S t addr = ip4_add_addr S addr t.name

unfoldable pub flush_address : (S : Shell) → Tun → S.World → Option S.Error × S.World
flush_address S t = ip4_flush_addr S t.name

module _ (K : Kernel) where
  -- `Up`, `Down` and `State`
  unfoldable pub up : Tun → K.World → Result K.Error Tun × K.World
  up t w = change_state K true t w

  unfoldable pub down : Tun → K.World → Result K.Error Tun × K.World
  down t w = change_state K false t w

abbrev pub state : Tun → Bool
state t = t.state
