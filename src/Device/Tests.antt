-- ===== src/Device/Tests.antt =====
-- Both devices on the samples of what is outside.
use net_hive.Device.Contract.{IsDevice}
use net_hive.Device.Linux.Methods.Interface.{linux}
use net_hive.Device.Windows.Methods.Interface.{windows}
use net_hive.Device.Sample.{kernel, file, shell, wintun, ip_helper}
use net_hive.Device.Switch.{devices-IsDevice}

devices-IsDevice_example :
    IsDevice (linux kernel file shell) × IsDevice (windows wintun ip_helper (λ a. a))
devices-IsDevice_example = devices-IsDevice kernel file shell wintun ip_helper (λ a. a)
