-- ===== src/Tracker.antt =====
-- nodes/SodaqOneDevice/SodaqOneDevice.ino: the sketch of the monitoring node, by its parts.
pub mod Hex
pub mod Schedule
pub mod Transmit
pub mod SendBuffer
pub mod Loop
pub mod Powerloss
pub mod Readings
pub mod Messages
pub mod Sending
pub mod InitLora
pub mod NavPvt
pub mod Acquire
pub mod GpsActive
