-- ===== src/Battery.antt =====
-- The battery module: battery/device/battery.c and batterylib.c.
pub mod Status
pub mod Library
pub mod Emulator
pub mod Fake
pub mod Sessions
pub mod Percent
pub mod Watch
pub mod Unsupported
pub mod Paths
mod Examples
