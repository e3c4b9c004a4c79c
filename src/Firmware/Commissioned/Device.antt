-- ===== src/Firmware/Commissioned/Device.antt =====
-- The static variables of commissioned.cpp and the functions that change a few of them.
use iot_heater.Prelude.{
  ℕ, ◌+◌, ◌-◌, ◌^◌, ◌%◌, ◌<◌, Bool, true, List, [], ◌∷◌, ◌++◌, ◌≡◌, if◌then◌else◌, leb, ◌==◌,
  length, drop,
}
use iot_heater.Wire.{defrost, eco, comfort, state_byte}
use iot_heater.Firmware.Settings.{Settings}

pub data LedState : Type 0 where
  disconnected_from_wifi disconnected_from_base_station connected_to_base_station : LedState

pub data ErrorCode : Type 0 where
  cannot_connect_to_base_station : ErrorCode
  reply_timeout : ErrorCode
  message_protocol_not_supported : ErrorCode
  invalid_message_type : ErrorCode
  invalid_heater_state : ErrorCode
  message_read_failure : ErrorCode
  request_write_failure : ErrorCode

pub record ErrorRecord : Type 0 where
  pub code : ErrorCode
  pub timestamp : ℕ

abbrev pub max_error_recorded : ℕ
max_error_recorded = 5

-- `cppQueue last_errors(sizeof(struct ErrorRecord), MAX_ERROR_RECORDED, FIFO)`: what the library
-- documents of a first-in-first-out queue of five records.
pub record ErrorQueue : Type 1 where
  pub Queue : Type 0
  pub empty : Queue
  pub is_full : Queue → Bool
  pub push : ErrorRecord → Queue → Queue
  pub drop_oldest : Queue → Queue
  pub contents : Queue → List ErrorRecord
  pub contents-empty : contents empty ≡ []
  pub is_full-length : (q : Queue) → is_full q ≡ leb 5 (length (contents q))
  pub contents-push :
      (r : ErrorRecord) (q : Queue)
      → length (contents q) < 5
      → contents (push r q) ≡ contents q ++ (r ∷ [])
  pub contents-drop_oldest : (q : Queue) → contents (drop_oldest q) ≡ drop 1 (contents q)

-- The static variables; `positive`, `negative` and `led1` are the levels of the output pins, and
-- `request_event` is the bit `SEND_HEATER_STATE_REQ_EV` of `events`, the only one in use.
pub record Device (Q : Type 0) : Type 0 where
  pub settings : Settings
  pub heater_state : ℕ
  pub positive : ℕ
  pub negative : ℕ
  pub led1 : ℕ
  pub led_state : LedState
  pub led_counter : ℕ
  pub request_event : Bool
  pub failure_count : ℕ
  pub failures_since_boot : ℕ
  pub msg_counter : ℕ
  pub last_state_timestamp : ℕ
  pub errors : Q
  pub button_pressed : Bool
  pub button_pressed_start : ℕ

-- `update_leds`, with the level of the button pin. The counter is an `int` that wraps after
-- decades; it is not wrapped here.
unfoldable pub update_leds : {Q : Type 0} → ℕ → Device Q → Device Q
update_leds button d = elim d.led_state [
  | disconnected_from_wifi ↦ record d { led1 = 1 - d.led1; led_counter = 1 }
  | disconnected_from_base_station ↦
      if leb 6 d.led_counter
      then record d { led1 = 1; led_counter = 1 }
      else record d { led1 = 0; led_counter = d.led_counter + 1 }
  | connected_to_base_station ↦ record d { led1 = 1 - button; led_counter = d.led_counter + 1 }
]

-- `wifi_connected`, `wifi_disconnected` and `send_heater_state_req_callback`.
unfoldable pub wifi_connected : {Q : Type 0} → Device Q → Device Q
wifi_connected d = record d { request_event = true; led_state = disconnected_from_base_station }

unfoldable pub wifi_disconnected : {Q : Type 0} → Device Q → Device Q
wifi_disconnected d = record d { led_state = disconnected_from_wifi }

unfoldable pub send_heater_state_req_callback : {Q : Type 0} → Device Q → Device Q
send_heater_state_req_callback d = record d { request_event = true }

-- `apply_heater_state`, `heater_state` being set already: the levels of the two pins.
unfoldable pub pin_levels : ℕ → ℕ × ℕ
pin_levels s =
    if s == state_byte defrost
    then (0, 1)
    else if s == state_byte eco
    then (1, 1)
    else if s == state_byte comfort
    then (0, 0)
    else (1, 0)

unfoldable pub apply_heater_state : {Q : Type 0} → Device Q → Device Q
unfolding pin_levels
apply_heater_state d = record d {
  positive = (pin_levels d.heater_state).0;
  negative = (pin_levels d.heater_state).1;
}

-- `record_error` at time `now`.
unfoldable pub record_error : (eq : ErrorQueue) → ErrorCode → ℕ → Device eq.Queue → Device eq.Queue
record_error eq code now d =
    let q = if eq.is_full d.errors then eq.drop_oldest d.errors else d.errors in
    record d { errors = eq.push (record { code = code; timestamp = now }) q }

-- What every failure of a request does.
unfoldable pub fail : (eq : ErrorQueue) → ErrorCode → ℕ → Device eq.Queue → Device eq.Queue
unfolding record_error
fail eq code now d = record_error eq code now (record d {
  failure_count = (d.failure_count + 1) % 2 ^ 32;
  failures_since_boot = (d.failures_since_boot + 1) % 2 ^ 32;
})
