-- ===== src/Touchpanel.antt =====
-- touchpanel.c of the emulator: raw input events drive the gesture state machine, and the events
-- that it emits are handed to the client as touch events.
pub mod Items
pub mod Source
pub mod Device
pub mod Start
pub mod Descriptors
pub mod Decode
pub mod RoundTrip
pub mod Validity
pub mod Safety
pub mod Limits
pub mod Syn
pub mod Click
pub mod Vbox
pub mod Memory
mod Examples
