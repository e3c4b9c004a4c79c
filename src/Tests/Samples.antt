-- ===== src/Tests/Samples.antt =====
-- Concrete stations, messages and devices for the tests.
use iot_heater.Prelude.{false, [], ◌∷◌, none, some, true, replicate}
use iot_heater.Text.{Bytes, codes}
use iot_heater.Wire.{off, eco, comfort, Mac, Header}
use iot_heater.BaseStation.State.{Station}
use iot_heater.BaseStation.Messages.{Arrival}
use iot_heater.BaseStation.Commands.Execute.{Probes, Probe}
use iot_heater.BaseStation.Modem.{registered}
use iot_heater.BaseStation.Process.{Round}

abbrev pub phone : Bytes
phone = codes "3310203040506"

abbrev pub stranger : Bytes
stranger = codes "4410203040506"

abbrev pub device_mac : Mac
device_mac = record { b0 = 0x5c; b1 = 0xcf; b2 = 0x7f; b3 = 1; b4 = 2; b5 = 3 }

abbrev pub kitchen : Bytes
kitchen = codes "KITCHEN"

-- A station with two heaters by name, a white list and an emergency number.
abbrev pub station : Station
station = record {
  connections =
      record { fd = 7; last_seen = 0 } ∷ record { fd = 9; last_seen = 900_000_000_000 } ∷ [];
  commands = [];
  heater_default_state = eco;
  heater_state = (codes "BATH", comfort) ∷ (kitchen, off) ∷ [];
  locked = false;
  phone_whitelist = (phone, tt) ∷ [];
  emergency_phone = phone;
  wifi_error_counter = 0;
  message_counter = 5;
  heater_counter = [];
  heaters = [];
  module_error_counter = 0;
  daemon_error_counter = 0;
}

abbrev pub probe : Probe
probe = record {
  version_str = codes "1.0.0";
  uptime_str = codes "1h0m0s";
  state_file_lines = [];
  curl = none;
  iwconfig = none;
  journal = none;
}

-- Every message meets the same.
abbrev pub probes : Probes
probes n = probe

abbrev pub arrival : Arrival
arrival = record {
  steady_now = 1000;
  time_now = 2000;
  peer_ip = codes "192.168.1.20";
  own_mac = none;
  write_returns = replicate 64 1;
}

abbrev pub request : Header
request = record { version = 1; msg_type = 1; mac = device_mac; counter = 7 }

-- A round in which all timers fire and nothing works.
abbrev pub quiet_round : Round
quiet_round = record {
  ready = [];
  probe = probes;
  steady_now = 1_000_000_000_000;
  time_now = 500_000;
  stale_fired = true;
  wifi_fired = true;
  wifi_flags = some false;
  lost_fired = true;
  module_fired = true;
  module_present = false;
  modem_status = registered;
  daemon_fired = true;
  daemon_running = false;
  boot_fired = true;
  cleanup_fired = true;
}
