-- ===== src/Tests/Pins.antt =====
-- An order by text message, and the controller that obeys it.
use iot_heater.Prelude.{
  ℕ, true, [], ◌∷◌, ◌++◌, none, ◌≡◌, refl, arith, All-replicate, map, ◌<◌, append-nil,
}
use iot_heater.Text.{Bytes, codes, is_digit, check_heater_name, to_upper, is_alnum, all_bytes}
use iot_heater.Wire.{HeaterState, eco, state_byte}
use iot_heater.BaseStation.State.{Station, write_fd}
use iot_heater.BaseStation.Messages.{reply_message, parse_message}
use iot_heater.BaseStation.Messages.Answers.{warnings}
use iot_heater.BaseStation.Commands.Classify.{normalise}
use iot_heater.BaseStation.Commands.Execute.{concat}
use iot_heater.BaseStation.Commands.Grammar.{eco_word, suffix_state}
use iot_heater.BaseStation.Commands.Queue.{handle_sms_command, is_refused}
use iot_heater.BaseStation.Process.{Round, process}
use iot_heater.Sms.Receiver.{join_lines}
use iot_heater.Services.Watcher.{changed, run}
use iot_heater.Firmware.Commissioned.Device.{Device, apply_heater_state}
use iot_heater.Firmware.Commissioned.Drive.{positive_half, negative_half}
use iot_heater.Firmware.Commissioned.Talk
use iot_heater.Firmware.Commissioned.Talk.{try_connect}
use iot_heater.Firmware.Commissioned.Loop.{running, start, loop_commissioned}
use iot_heater.Exchange.{IsServed}
use iot_heater.Exchange.Request.{request_header}
use iot_heater.Exchange.Orders.{unless_tripped}
use iot_heater.Exchange.Pins.{text_message-pins}
use iot_heater.Tests.Board.{board, blank, list_queue}
use iot_heater.Tests.Samples.{station, arrival, phone, quiet_round}
use iot_heater.Tests.Controllers.{ssid, password, address, lamp, controller, turn, lamp-alnum}
use iot_heater.Tests.Threads.{sms_name, one_file}

-- A round that finds the modem and the daemon.
abbrev working_round : Round
working_round = record quiet_round { module_present = true; daemon_running = true }

-- The station that was told `heater kitchen eco`, and what a round makes of it.
abbrev told : Station
told = (run handle_sms_command true true (changed sms_name [] one_file ∷ []) station).state

abbrev obeying : Station
obeying = (process working_round told).0

abbrev ordered : HeaterState
ordered = unless_tripped working_round station (suffix_state eco_word)

ordered-eco : ordered ≡ eco
ordered-eco = refl

abbrev reply : Bytes
reply = reply_message none obeying.message_counter ordered

abbrev due : Device list_queue.Queue
due = record controller { request_event = true }

abbrev eco_turn : Talk.Turn
eco_turn = record turn { reads = reply ∷ [] }

eco_turn-IsServed : IsServed eco_turn arrival reply
unfolding try_connect reply_message concat
eco_turn-IsServed = record {
  connects = refl;
  writes_some = All-replicate (λ (r : ℕ). 0 < r) 64 1 (omega arith);
  writes_enough = omega arith;
  answers_some = All-replicate (λ (r : ℕ). 0 < r) 64 1 (omega arith);
  answers_enough = omega arith;
  in_time = refl;
  reads_some = ((λ e. ground arith), tt);
  reads_reply = append-nil reply;
}

text_message-pins_example :
    (d' : Device list_queue.Queue) × (sent : Bytes) × (loop_commissioned board list_queue eco_turn
        due blank
      ≡ running d' sent)
    × ((parse_message arrival 7 sent obeying).1
        ≡ warnings obeying (request_header eco_turn due) (map to_upper lamp)
          ++ (write_fd 7 reply ∷ []))
    × (d'.heater_state ≡ state_byte ordered)
    × (d'.positive ≡ positive_half (state_byte ordered))
    × (d'.negative ≡ negative_half (state_byte ordered))
unfolding is_digit check_heater_name to_upper is_alnum all_bytes normalise is_refused join_lines
    start apply_heater_state
text_message-pins_example =
    text_message-pins board list_queue working_round phone sms_name (codes "Modem: GSM1" ∷ [])
      (codes "heater kitchen" ∷ codes " eco" ∷ []) [] one_file eco_word lamp ssid password address
      arrival 7 eco_turn due blank station (ground arith) (ground arith, tt) ((λ e. cc), tt)
      (ground arith) refl refl refl (record { checked = refl; capitals = refl }) refl refl
      lamp-alnum (omega arith) (omega arith) (omega arith, refl, refl) refl refl refl
      eco_turn-IsServed
