-- ===== src/Firmware.antt =====
-- The heater controller: heater_firmware/.
pub mod Settings
pub mod Webpages
pub mod Uncommissioned
pub mod Commissioned
pub mod Boot
