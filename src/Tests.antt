-- ===== src/Tests.antt =====
-- Examples: each theorem at a concrete input, and tests of the definitions.
mod Encoder
mod Data
mod Messages
mod Keys
mod Search
mod Wan
mod Records
mod Settings
mod Menu
mod Air
mod Ends
mod Receiver
mod Device
mod Inputs
mod Rounds
mod Dates
