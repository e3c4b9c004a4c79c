-- ===== src/Tests/Alarms.antt =====
-- The counters of the periodic checks.
use iot_heater.Prelude.{true, [], ◌≡◌, refl, arith, if◌then◌else◌, ltb}
use iot_heater.Wire.{defrost}
use iot_heater.BaseStation.Modem.{registered}
use iot_heater.BaseStation.Messages.{wanted_state}
use iot_heater.BaseStation.Checks.{
  on_daemon, sms_if_phone, module_recovered_text, wifi_lost_text, wifi_error_threshold,
  module_3g_error_threshold,
}
use iot_heater.BaseStation.Checks.Fallback.{
  without_module, module_fallback, without_daemon, daemon_false_alarm, without_wifi, wifi_alarm,
}
use iot_heater.Tests.Samples.{station, kitchen}

module_fallback_example :
    wanted_state kitchen (without_module registered 7 station)
    ≡ (if ltb 7 module_3g_error_threshold then wanted_state kitchen station else defrost)
module_fallback_example = module_fallback registered 7 kitchen station refl (omega arith)

daemon_false_alarm_example :
    (wanted_state kitchen (without_daemon 1 station) ≡ wanted_state kitchen station)
    × ((on_daemon true (without_daemon 1 station)).1
        ≡ sms_if_phone station.emergency_phone module_recovered_text)
daemon_false_alarm_example = daemon_false_alarm 1 kitchen station refl (omega arith) (omega arith)

wifi_alarm_example : (without_wifi 20 station).1 ≡ (
    if ltb 20 wifi_error_threshold then [] else sms_if_phone station.emergency_phone wifi_lost_text)
wifi_alarm_example = wifi_alarm 20 station refl (omega arith)
