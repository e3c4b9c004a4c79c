-- ===== src/Firmware/Commissioned.antt =====
-- heater_firmware/commissioned.cpp: the controller asks the base station for the state of its
-- heater and drives the pins.
pub mod Device
pub mod Talk
pub mod Loop
pub mod Drive
pub mod Failures
pub mod Errors
pub mod Page
pub mod Index
pub mod Network
