-- ===== src/Device/Windows.antt =====
-- core/device/tun_windows.go: the TUN device of Windows, on a session of Wintun whose answers are
-- arguments.
pub mod Loops
pub mod Methods
mod Tests
use net_hive.Prelude.Int.{ℤ, pos, negsuc}
use net_hive.Device.Copy.{copy}
use net_hive.Prelude.{
  ℕ, Bool, true, false, Option, none, some, List, [], ◌∷◌, ◌==◌, if◌then◌else◌, Bytes, length,
  Result, ok, err,
}

-- The errors of Windows that the loops tell apart; any other has a number.
pub data WinError : Type 0 where
  no_more_files invalid_data handle_eof buffer_overflow : WinError
  errno : ℕ → WinError

pub data IoError : Type 0 where
  ring_corrupt closed : IoError
  read_failed write_failed : WinError → IoError

-- `Read`, at the answers of `ReceivePacket` one after another: the size or the error, and the bytes
-- of the buffer. `none`: it still waits for a packet.
unfoldable pub tun_read : Bytes → List (Result WinError Bytes) → Option (Result IoError ℕ × Bytes)
tun_read buff [] = none
tun_read buff (ok packet ∷ rest) = some (ok (length packet), copy buff packet)
tun_read buff (err no_more_files ∷ rest) = tun_read buff rest
tun_read buff (err invalid_data ∷ rest) = some (err ring_corrupt, buff)
tun_read buff (err handle_eof ∷ rest) = some (err (read_failed handle_eof), buff)
tun_read buff (err buffer_overflow ∷ rest) = some (err (read_failed buffer_overflow), buff)
tun_read buff (err (errno n) ∷ rest) = some (err (read_failed (errno n)), buff)

-- `Write`, at the answers of `AllocateSendPacket`, which gives the bytes of a packet of that size:
-- the size or the error, and the packet that is sent.
unfoldable pub tun_write :
    Bytes → List (Result WinError Bytes) → Option (Result IoError ℕ × Option Bytes)
tun_write buff [] = none
tun_write buff (ok packet ∷ rest) = some (ok (length buff), some (copy packet buff))
tun_write buff (err handle_eof ∷ rest) = some (err closed, none)
tun_write buff (err buffer_overflow ∷ rest) = tun_write buff rest
tun_write buff (err no_more_files ∷ rest) = some (err (write_failed no_more_files), none)
tun_write buff (err invalid_data ∷ rest) = some (err (write_failed invalid_data), none)
tun_write buff (err (errno n) ∷ rest) = some (err (write_failed (errno n)), none)

-- `tun`, with its adapter and its session.
pub record Tun (Adapter Session : Type 0) : Type 0 where
  pub adapter : Adapter
  pub session : Session
  pub name : Bytes
  pub mtu : ℤ
  pub state : Bool

-- Wintun: its calls may fail.
pub record Wintun : Type 1 where
  pub World : Type 0
  pub Error : Type 0
  pub Adapter : Type 0
  pub Session : Type 0
  pub create_adapter : World → Bytes → Result Error Adapter × World
  pub start_session : World → Adapter → Result Error Session × World
  pub close : World → Adapter → Option Error × World

-- `if mtu <= 0`
unfoldable pub mtu_or_default : ℤ → ℤ
mtu_or_default (pos n) = if n == 0 then pos 1420 else pos n
mtu_or_default (negsuc n) = pos 1420

module _ (W : Wintun) where
  open W use {World, Error, Adapter, Session}

  unfoldable pub session_started :
      Adapter
      → Bytes
      → ℤ
      → Result Error Session × World
      → Result Error (Tun Adapter Session) × World
  session_started a name mtu (err x, w) = (err x, (W.close w a).1)
  session_started a name mtu (ok s, w) = (
    ok (record { adapter = a; session = s; name = name; mtu = mtu_or_default mtu; state = false }),
    w,
  )

  unfoldable pub adapter_created :
      Bytes → ℤ → Result Error Adapter × World → Result Error (Tun Adapter Session) × World
  adapter_created name mtu (err x, w) = (err x, w)
  adapter_created name mtu (ok a, w) = session_started a name mtu (W.start_session w a)

  unfoldable pub create_tun : Bytes → ℤ → World → Result Error (Tun Adapter Session) × World
  create_tun name mtu w = adapter_created name mtu (W.create_adapter w name)

  -- `Up` and `Down`
  abbrev pub up : Tun Adapter Session → Tun Adapter Session
  up t = record t { state = true }

  abbrev pub down : Tun Adapter Session → Tun Adapter Session
  down t = record t { state = false }
