-- ===== src/System.antt =====
-- rtc.c and system.c: the alarm of the real-time clock.
pub mod Rtc
pub mod Alarm
pub mod Device
pub mod Methods
pub mod Forgotten
pub mod Watching
pub mod Watch
pub mod Blame
mod Examples
