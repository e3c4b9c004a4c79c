-- ===== src/Tests.antt =====
-- Runs of the model on concrete inputs, and the theorems applied to them.
pub mod Samples
pub mod Board
pub mod Devices
pub mod Texts
pub mod Alarms
pub mod Controllers
pub mod Services
pub mod Rounds
pub mod Threads
pub mod Pins
