-- ===== src/Tests/Controllers.antt =====
-- The controller of a heater, from its web form to the state of its pins.
use iot_heater.Prelude.{
  inr, inl, length, ℕ, ◌+◌, ◌%◌, ◌^◌, true, false, List, [], ◌∷◌, ◌++◌, some, none, ◌≡◌, refl,
  arith, All, All-replicate, map, replicate, ◌<◌, if◌then◌else◌, ltb, negsuc,
}
use iot_heater.Text.{Bytes, codes, to_upper, is_alnum, all_bytes}
use iot_heater.Text.Laws.{all_bytes-All}
use iot_heater.Wire.{state_byte, le_bytes}
use iot_heater.BaseStation.State.{write_fd}
use iot_heater.BaseStation.Commands.Execute.{concat}
use iot_heater.BaseStation.Messages.{wanted_state, reply_message, parse_message}
use iot_heater.BaseStation.Messages.Answers.{warnings}
use iot_heater.Firmware.Settings.{created, settings_create, settings_load, settings_get_name, c_str}
use iot_heater.Firmware.Settings.Storage.{settings_load-create}
use iot_heater.Firmware.Uncommissioned.{
  Setup, Form, Pass, check_params, register, accept, loop_uncommissioned,
}
use iot_heater.Firmware.Commissioned.Device.{
  Device, apply_heater_state, ErrorRecord, reply_timeout, request_write_failure,
}
use iot_heater.Firmware.Commissioned.Talk.{Turn, try_connect, request_state}
use iot_heater.Firmware.Commissioned.Loop.{
  running, start, loop_commissioned, default_heater_state, request_state_failure_threshold,
}
use iot_heater.Firmware.Commissioned.Drive.{EndsDriven, loop-IsDriven}
use iot_heater.Firmware.Commissioned.Failures.{IsSilent, passes, silence}
use iot_heater.Firmware.Commissioned.Index
use iot_heater.Firmware.Commissioned.Index.{Visit}
use iot_heater.Firmware.Commissioned.Network.{station_of, base_station_host, network-created}
use iot_heater.Firmware.Boot.{commissioned, setup}
use iot_heater.Firmware.Boot.Modes.{setup-commissioning}
use iot_heater.Firmware.Uncommissioned
use iot_heater.Exchange.Request.{request_header}
use iot_heater.Exchange.{IsServed, exchange}
use iot_heater.Tests.Board.{board, blank, list_queue}
use iot_heater.Tests.Samples.{station, arrival, device_mac}

abbrev pub ssid : Bytes
ssid = codes "home"

abbrev pub password : Bytes
password = codes "secret"

abbrev pub address : Bytes
address = codes "10.0.0.2"

abbrev pub lamp : Bytes
lamp = codes "kitchen"

settings_load-create_example :
    ((settings_load board
        (board.restart (settings_create board lamp ssid password address blank).1)).0
      ≡ (settings_create board lamp ssid password address blank).0)
    × ((settings_load board
          (board.restart (settings_create board lamp ssid password address blank).1)).1
        ≡ true)
settings_load-create_example =
    settings_load-create board lamp ssid password address blank (ground arith) (ground arith)
      (ground arith) (ground arith)

abbrev form : Form
form = record {
  name = some lamp;
  ssid = some ssid;
  password = some password;
  basestation = some address;
}

abbrev idle : Setup
idle = record {
  button_pressed = false;
  button_pressed_start = 0;
  joining = false;
  joining_start = 0;
  params = record { device_name = []; wifi_ssid = []; wifi_password = []; basestation_addr = [] };
  led = 1;
  blink = 0;
}

abbrev joining : Setup
joining = record idle {
  joining = true;
  params = record {
    device_name = lamp;
    wifi_ssid = ssid;
    wifi_password = password;
    basestation_addr = address;
  };
}

abbrev pass : Pass
pass = record { stations = 1; button = 1; now = 500; joined = true }

setup-commissioning_example :
    (m' : board.Memory) × (loop_uncommissioned board pass joining blank
      ≡ Uncommissioned.restarting m')
    × (d : Device list_queue.Queue) × (setup board list_queue 9 (board.restart m')
        ≡ commissioned (running d []))
    × (c_str (settings_get_name d.settings) ≡ lamp)
unfolding check_params all_bytes is_alnum
setup-commissioning_example =
    setup-commissioning board list_queue 9 pass joining blank refl refl (λ e. ground arith) refl
      (ground arith) (ground arith) (ground arith)

abbrev pub controller : Device list_queue.Queue
controller = start board list_queue 9 (created board lamp ssid password address)

abbrev pub turn : Turn
turn = record {
  button = 1;
  now = 700;
  epoch = 800;
  online = true;
  mac = device_mac;
  connects = false ∷ true ∷ [];
  writes = replicate 64 1;
  in_time = true;
  reads = reply_message none 5 (wanted_state (map to_upper lamp) station) ∷ [];
}

loop-IsDriven_example :
    EndsDriven board list_queue (loop_commissioned board list_queue turn controller blank)
unfolding start apply_heater_state
loop-IsDriven_example =
    loop-IsDriven board list_queue turn controller blank (omega arith, refl, refl)

abbrev lost_turn : Turn
lost_turn = record turn { in_time = false }

lost_turn-IsSilent : IsSilent lost_turn
unfolding try_connect
lost_turn-IsSilent = record { online = refl; no_answer = inr (inl refl) }

abbrev worn : Device list_queue.Queue
worn = record controller { heater_state = 2; failure_count = 13 }

silence_example :
    (passes board list_queue (lost_turn ∷ lost_turn ∷ []) worn).heater_state
    ≡ (if ltb 15 request_state_failure_threshold then 2 else default_heater_state)
silence_example =
    silence board list_queue (lost_turn ∷ lost_turn ∷ []) worn
      (lost_turn-IsSilent, (lost_turn-IsSilent, tt)) (omega arith) (omega arith)

abbrev recent : List ErrorRecord
recent =
    record { code = reply_timeout; timestamp = 10 }
    ∷ record { code = request_write_failure; timestamp = 20 }
    ∷ replicate 3 (record { code = reply_timeout; timestamp = 30 })

turn-IsServed :
    IsServed turn arrival (reply_message none 5 (wanted_state (map to_upper lamp) station))
unfolding try_connect reply_message le_bytes concat
turn-IsServed = record {
  connects = refl;
  writes_some = All-replicate (λ (r : ℕ). 0 < r) 64 1 (omega arith);
  writes_enough = omega arith;
  answers_some = All-replicate (λ (r : ℕ). 0 < r) 64 1 (omega arith);
  answers_enough = omega arith;
  in_time = refl;
  reads_some = ((λ e. ground arith), tt);
  reads_reply = refl;
}

pub lamp-alnum : All (λ c. is_alnum c ≡ true) lamp
unfolding all_bytes is_alnum
lamp-alnum = all_bytes-All is_alnum lamp refl

exchange_example :
    let state = wanted_state (map to_upper lamp) station in
    let (d', sent) = request_state list_queue turn controller in
    ((parse_message arrival 7 sent station).1
      ≡ warnings station (request_header turn controller) (map to_upper lamp)
        ++ (write_fd 7 (reply_message none 5 state) ∷ []))
    × (d'.heater_state ≡ state_byte state)
    × (d'.failure_count ≡ 0)
    × (d'.msg_counter ≡ (controller.msg_counter + 1) % 2 ^ 64)
unfolding start apply_heater_state
exchange_example =
    exchange board list_queue arrival 7 turn controller station lamp ssid password address refl
      lamp-alnum (omega arith) (omega arith) turn-IsServed

abbrev held_controller : Device list_queue.Queue
held_controller = record controller { button_pressed = true; button_pressed_start = 100 }

abbrev held_turn : Turn
held_turn = record turn { button = 0; now = 20_000 }

abbrev visit : Visit
visit = record {
  chip_id = 0xabcd;
  fw_version = codes "1.0.0";
  mac = device_mac;
  uptime = codes "1 day, 2 hours";
  rssi = negsuc 70;
}

index_page-fits_example : length (Index.index_page visit controller recent) < 2048
unfolding start apply_heater_state created
index_page-fits_example =
    Index.index_page-fits visit controller recent (omega arith) (ground arith) refl refl
      (omega arith) (omega arith) (omega arith) (omega arith)

network-created_example :
    let m' = (settings_create board lamp ssid password address blank).1 in
    let s = (settings_load board (board.restart m')).0 in
    (station_of s ≡ record { hostname = codes "heater-" ++ lamp; ssid = ssid; password = password })
    × (base_station_host s ≡ address)
unfolding check_params all_bytes is_alnum
network-created_example =
    network-created board joining.params blank refl (ground arith) (ground arith) (ground arith)
