-- ===== src/Wan.antt =====
-- The node of nodes/SodaqWAN: its alive timer, movement, readings, messages and main loop.
pub mod Alive
pub mod Movement
pub mod Hal
pub mod Readings
pub mod Act
