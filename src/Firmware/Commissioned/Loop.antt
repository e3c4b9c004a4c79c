-- ===== src/Firmware/Commissioned/Loop.antt =====
-- `setup_commissioned` and `loop_commissioned`.
use iot_heater.Prelude.{
  ℕ, ◌+◌, ◌-◌, ◌*◌, ◌^◌, ◌%◌, ◌/◌, true, false, not, ◌&&◌, [], if◌then◌else◌, leb, ◌==◌,
}
use iot_heater.Text.{Bytes}
use iot_heater.Wire.{defrost, state_byte}
use iot_heater.Firmware.Settings.{Platform, Settings, settings_check, settings_erase}
use iot_heater.Firmware.Commissioned.Device.{
  Device, ErrorQueue, apply_heater_state, disconnected_from_wifi, disconnected_from_base_station,
}
use iot_heater.Firmware.Commissioned.Talk.{Turn, request_state}

abbrev pub default_heater_state : ℕ
default_heater_state = state_byte defrost

abbrev pub request_state_failure_threshold : ℕ
request_state_failure_threshold = 15

-- `millis() - start`, on 32 bits.
abbrev pub elapsed : ℕ → ℕ → ℕ
elapsed now start = (now + 2 ^ 32 - start) % 2 ^ 32

-- The period of the ticker in milliseconds: a minute and a jitter.
unfoldable pub request_period : {Q : Type 0} → Device Q → ℕ
request_period d = 60 * 1000 + 50 * (d.msg_counter / 2 ^ 32 % 16)

module _ (p : Platform) (eq : ErrorQueue) where
  -- Where a pass ends: at its end, with the bytes sent, or in `ESP.restart`.
  pub data Ending : Type 0 where
    running : Device eq.Queue → Bytes → Ending
    restarting : p.Memory → Ending

  -- The static variables at the start, the pins driven.
  unfoldable pub start : ℕ → Settings → Device eq.Queue
  unfolding apply_heater_state
  start random s = apply_heater_state (record {
    settings = s;
    heater_state = default_heater_state;
    positive = 0;
    negative = 0;
    led1 = 1;
    led_state = disconnected_from_wifi;
    led_counter = 0;
    request_event = false;
    failure_count = 0;
    failures_since_boot = 0;
    msg_counter = random % 2 ^ 28 * 2 ^ 32;
    last_state_timestamp = 0;
    errors = eq.empty;
    button_pressed = false;
    button_pressed_start = 0;
  })

  -- `setup_commissioned`, with the drawn number and the settings loaded.
  unfoldable pub setup_commissioned : ℕ → Settings → p.Memory → Ending
  unfolding start settings_check settings_erase
  setup_commissioned random s m =
      if settings_check s then running (start random s) [] else restarting (settings_erase p m).1

  -- The request, when one is due.
  unfoldable pub request_if_due : Turn → Device eq.Queue → Device eq.Queue × Bytes
  unfolding request_state
  request_if_due t d =
      if t.online && d.request_event
      then request_state eq t (record d { request_event = false })
      else (d, [])

  -- The last test of the loop: too many failures one after the other.
  unfoldable pub check_failures : Device eq.Queue → Device eq.Queue
  unfolding apply_heater_state
  check_failures d =
      if d.failure_count == request_state_failure_threshold
      then record (apply_heater_state (record d { heater_state = default_heater_state })) {
        led_state = disconnected_from_base_station;
      }
      else d

  -- The loop behind the button.
  unfoldable pub serve_base_station : Turn → Device eq.Queue → Device eq.Queue × Bytes
  unfolding request_if_due check_failures
  serve_base_station t d = let (d', sent) = request_if_due t d in (check_failures d', sent)

  -- The pass goes on behind the button.
  unfoldable pub continue : Turn → Device eq.Queue → Ending
  unfolding serve_base_station
  continue t d = let (d', sent) = serve_base_station t d in running d' sent

  -- `loop_commissioned`. The blinking before the restart is left out.
  unfoldable pub loop_commissioned : Turn → Device eq.Queue → p.Memory → Ending
  unfolding continue settings_erase
  loop_commissioned t d m =
      if t.button == 0
      then (if not d.button_pressed
          then continue t (record d { button_pressed = true; button_pressed_start = t.now })
          else if leb 10_000 (elapsed t.now d.button_pressed_start)
          then restarting (settings_erase p m).1
          else continue t d)
      else continue t (record d { button_pressed = false })
