-- ===== src/BaseStation/State.antt =====
-- The members of `BaseStation` (base_station.hpp), `Heater` (heater.hpp, heater.cpp), and what the
-- methods do to the world: a method returns the new members and its effects in order. Timers and
-- mutexes are not members here: that a timer has fired is an argument of the method that polls it,
-- and a method runs whole. Lines that only go to the log are left out.
use iot_heater.Prelude.{ℕ, Bool, false, List, []}
use iot_heater.OrdMap.{Map}
use iot_heater.Text.{Bytes, codes}
use iot_heater.Wire.{HeaterState, off, defrost, eco, comfort}

pub record Heater : Type 0 where
  pub name : Bytes
  pub ip_addr : Bytes
  pub last_request_timestamp : ℕ
  pub state : HeaterState

-- The constructor of `Heater`.
unfoldable pub new_heater : Bytes → Bytes → Heater
new_heater name ip_addr = record {
  name = name;
  ip_addr = ip_addr;
  last_request_timestamp = 0;
  state = defrost;
}

-- `Heater::update`, at time `now`.
unfoldable pub update : ℕ → HeaterState → Heater → Heater
update now new_state h = record h { last_request_timestamp = now; state = new_state }

pub record DeviceConnection : Type 0 where
  pub fd : ℕ
  pub last_seen : ℕ

pub record Station : Type 0 where
  pub connections : List DeviceConnection
  pub commands : List (Bytes × Bytes)
  pub heater_default_state : HeaterState
  pub heater_state : Map Bytes HeaterState
  pub locked : Bool
  pub phone_whitelist : Map Bytes (Unit {0})
  pub emergency_phone : Bytes
  pub wifi_error_counter : ℕ
  pub message_counter : ℕ
  pub heater_counter : Map ℕ ℕ
  pub heaters : Map ℕ Heater
  pub module_error_counter : ℕ
  pub daemon_error_counter : ℕ

-- What a method asks of the system. `send_sms` is a call of `SMSSender::sendSMS`, whose result no
-- caller reads; `save_file` opens the state file and writes the text, if it can be opened;
-- `out_of_bounds` is an access outside an array, whose meaning C++ leaves undefined; `stall` is a
-- call that does not return yet, and what the model has after it waits for that.
pub data Effect : Type 0 where
  send_sms : Bytes → Bytes → Effect
  save_file : Bytes → Effect
  write_fd : ℕ → Bytes → Effect
  close_fd : ℕ → Effect
  cleanup_sms : Effect
  reboot : Effect
  out_of_bounds : Effect
  stall : Effect

abbrev pub Outcome : Type 0
Outcome = Station × List Effect

-- The member initialisers of the constructor, before `loadState`; the message counter is the drawn
-- word, shifted to the upper half.
unfoldable pub initial : Station
initial = record {
  connections = [];
  commands = [];
  heater_default_state = defrost;
  heater_state = [];
  locked = false;
  phone_whitelist = [];
  emergency_phone = [];
  wifi_error_counter = 0;
  message_counter = 0;
  heater_counter = [];
  heaters = [];
  module_error_counter = 0;
  daemon_error_counter = 0;
}

-- The words by which messages name a state.
abbrev pub state_label : HeaterState → Bytes
state_label off = codes "OFF"
state_label defrost = codes "DEFROST"
state_label eco = codes "ECO"
state_label comfort = codes "COMFORT/ON"
