-- ===== src/Keys.antt =====
-- keys.c of the emulator: raw input events become key events, one for each call.
pub mod Lookup
pub mod Device
pub mod Pending
pub mod Stream
pub mod Module
mod Examples
