-- ===== src/Display.antt =====
-- generic/display: the metrics of the display.
pub mod Device
pub mod Metrics
mod Examples
