-- ===== src/Device.antt =====
-- core/device: the TUN device.
pub mod Copy
pub mod Lift
pub mod Contract
pub mod Linux
pub mod Windows
pub mod Switch
pub mod Sample
mod Tests
