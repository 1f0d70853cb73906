-- ===== src/Charger.antt =====
-- The charger module: the methods of chargerlib.c, and charger/device/charger.c behind them.
pub mod Events
pub mod Device
pub mod Library
pub mod Flags
pub mod Notify
pub mod Polling
pub mod Query
pub mod Emulator
pub mod Emulation
pub mod Paths
mod Examples
