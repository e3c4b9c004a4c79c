-- ===== src/BaseStation.antt =====
-- The base station daemon, base_station/src: the state and the methods of `BaseStation`
-- (base_station.cpp), a module for each group of methods, and the proofs about them.
pub mod State
pub mod Validity
pub mod Persist
pub mod Commands
pub mod Messages
pub mod Connections
pub mod Modem
pub mod Checks
pub mod Page
pub mod Process
