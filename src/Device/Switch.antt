-- ===== src/Device/Switch.antt =====
-- Both devices keep the promise of the interface.
use net_hive.Prelude.{ℕ}
use net_hive.Command.{Shell}
use net_hive.Win.{IpHelper}
use net_hive.Device.Contract.{IsDevice}
use net_hive.Device.Linux.{Kernel}
use net_hive.Device.Linux.Methods.{TunFile}
use net_hive.Device.Linux.Methods.Interface.{linux}
use net_hive.Device.Linux.Methods.Promise.{linux-IsDevice}
use net_hive.Device.Windows.{Wintun}
use net_hive.Device.Windows.Methods.Interface.{windows, windows-IsDevice}

-- The devices of Linux and of Windows, over any kernel, file, shell, Wintun and IP helper, keep the
-- promise of the interface: a device that `CreateTUN` has made is down; a successful `Up` leaves
-- `State` true and a successful `Down` leaves it false; `Up` on a device that is up, and `Down` on
-- one that is down, succeed without a change of the device or the world; a successful `Name` leaves
-- `State` as it was; and `Read` leaves its buffer as long as before.
pub devices-IsDevice :
    (K : Kernel) (F : TunFile) (S : Shell) (W : Wintun) (H : IpHelper) (luid : W.Adapter → ℕ)
    → IsDevice (linux K F S) × IsDevice (windows W H luid)
devices-IsDevice K F S W H luid = (linux-IsDevice K F S, windows-IsDevice W H luid)
