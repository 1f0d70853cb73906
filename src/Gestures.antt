-- ===== src/Gestures.antt =====
-- touchpanel_gestures.c and touchpanel_common.c: the fingers on the touch panel, their coordinate
-- histories, and the input events that a call of the state machine emits.
pub mod Types
pub mod CoordBuf
pub mod Finger
pub mod Machine
pub mod Examples
