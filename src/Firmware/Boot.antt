-- ===== src/Firmware/Boot.antt =====
-- heater_firmware/heater_firmware.ino: the mode is chosen by the settings that are found.
pub mod Modes
use iot_heater.Prelude.{ℕ, Bool, true, false, if◌then◌else◌}
use iot_heater.Firmware.Settings.{Platform, Settings, settings_load}
use iot_heater.Firmware.Commissioned.Device.{ErrorQueue}
use iot_heater.Firmware.Commissioned.Loop.{Ending, setup_commissioned}

module _ (p : Platform) (eq : ErrorQueue) where
  -- What `setup` enters: the web form, or the control loop behind its own setup.
  pub data Mode : Type 0 where
    uncommissioned : p.Memory → Mode
    commissioned : Ending p eq → Mode

  -- The mode for what `settings_load` gives.
  unfoldable pub enter : ℕ → Settings → Bool → p.Memory → Mode
  unfolding setup_commissioned
  enter random s valid m =
      if valid then commissioned (setup_commissioned p eq random s m) else uncommissioned m

  -- `setup`, after a restart.
  unfoldable pub setup : ℕ → p.Memory → Mode
  unfolding settings_load enter
  setup random m = let (s, valid, m') = settings_load p m in enter random s valid m'
