-- ===== src/Tests/Rounds.antt =====
-- Rounds of the main loop, the orders of devices and the replies in pieces.
use iot_heater.Prelude.{
  true, [], ◌∷◌, ◌++◌, some, ◌≡◌, arith, map, replicate, length, ◌≤◌, List, All,
}
use iot_heater.Text.{Bytes, codes}
use iot_heater.Wire.{header_bytes, mac_value, parse_header}
use iot_heater.BaseStation.State.{Station, send_sms}
use iot_heater.BaseStation.Messages.{parse_message}
use iot_heater.BaseStation.Messages.Order.{parse_message_comm}
use iot_heater.BaseStation.Commands.Execute.{concat, read_limited, log_messages}
use iot_heater.BaseStation.Commands.LogText.{IsPiece, log_messages-pieces}
use iot_heater.BaseStation.Commands.Orders.{wishes}
use iot_heater.BaseStation.Process.{process}
use iot_heater.BaseStation.Process.Rounds.{round_wishes, process-refines}
use iot_heater.Tests.Samples.{station, phone, stranger, arrival, request, kitchen, quiet_round}

-- Three messages, the second from outside the white list.
abbrev pub waiting : Station
waiting = record station {
  locked = true;
  commands =
      (phone, codes "ALL ON") ∷ (stranger, codes "ALL OFF") ∷ (phone, codes "UNLOCK 1234") ∷ [];
}

process-refines_example : wishes (process quiet_round waiting).0 ≡ round_wishes quiet_round waiting
process-refines_example = process-refines quiet_round waiting

abbrev first_message : Bytes
first_message = header_bytes request ++ (kitchen ++ 0 ∷ [])

abbrev second_message : Bytes
second_message =
    header_bytes
      (record request { mac = record { b0 = 0x5c; b1 = 0xcf; b2 = 0x7f; b3 = 1; b4 = 2; b5 = 4 } })
    ++ (codes "bath" ++ 0 ∷ [])

parse_message_comm_example :
    (parse_message arrival 7 first_message (parse_message arrival 9 second_message station).0).0
    ≡ (parse_message arrival 9 second_message (parse_message arrival 7 first_message station).0).0
unfolding parse_header mac_value
parse_message_comm_example =
    parse_message_comm arrival arrival 7 9 first_message second_message station (λ e. ground arith)
      (λ e. ground arith)

abbrev journal : List Bytes
journal = replicate 900 b'a' ∷ replicate 700 b'b' ∷ replicate 700 b'c' ∷ []

log_messages-pieces_example :
    (texts : List Bytes) × (log_messages phone (some journal) ≡ map (send_sms phone) texts)
    × (concat texts ≡ read_limited [] journal)
    × All IsPiece texts
    × (length texts ≤ 4)
unfolding read_limited
log_messages-pieces_example =
    log_messages-pieces phone journal (λ e. cc) (omega arith, (omega arith, (omega arith, tt)))
