-- ===== src/BaseStation/Process.antt =====
-- `process` of base_station.cpp: one round of the main loop, which calls the methods in order.
pub mod Invariant
pub mod Reach
pub mod Frame
pub mod Rounds
pub mod Closed
use iot_heater.Prelude.{ℕ, Bool, List, ◌++◌, Option}
use iot_heater.BaseStation.State.{Station, Effect, Outcome}
use iot_heater.BaseStation.Commands.Execute.{Probes, Probe}
use iot_heater.BaseStation.Commands.Queue.{parse_commands}
use iot_heater.BaseStation.Connections.{Ready, handle_connections, check_stale_connections}
use iot_heater.BaseStation.Modem.{ModemStatus}
use iot_heater.BaseStation.Checks.{
  check_wifi, check_3g, check_sms_daemon, send_boot_msg, cleanup_sms_files, check_lost_devices,
}

-- What one round meets: the readable descriptors, the timers that have fired, and what the
-- system answers.
pub record Round : Type 0 where
  pub ready : List Ready
  pub probe : Probes
  pub steady_now : ℕ
  pub time_now : ℕ
  pub stale_fired : Bool
  pub wifi_fired : Bool
  pub wifi_flags : Option Bool
  pub lost_fired : Bool
  pub module_fired : Bool
  pub module_present : Bool
  pub modem_status : ModemStatus
  pub daemon_fired : Bool
  pub daemon_running : Bool
  pub boot_fired : Bool
  pub cleanup_fired : Bool

-- One method after another, their effects in order.
infixl 5 ◌>>=◌
abbrev pub ◌>>=◌ : Outcome → (Station → Outcome) → Outcome
◌>>=◌ m f = let (st, e) = m in let (st', e') = f st in (st', e ++ e')

unfoldable pub process : Round → Station → Outcome
process r st = do
  st ← handle_connections r.ready st
  st ← parse_commands r.probe st
  st ← check_stale_connections r.stale_fired r.steady_now st
  st ← check_wifi r.wifi_fired r.wifi_flags st
  st ← check_lost_devices r.lost_fired r.time_now st
  st ← check_3g r.module_fired r.module_present r.modem_status st
  st ← check_sms_daemon r.daemon_fired r.daemon_running st
  st ← send_boot_msg r.boot_fired st
  cleanup_sms_files r.cleanup_fired st
