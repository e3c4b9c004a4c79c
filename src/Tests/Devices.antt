-- ===== src/Tests/Devices.antt =====
-- Devices and their requests.
use iot_heater.Prelude.{
  ◌-◌, ◌*◌, ◌≤◌, ◌<◌, ◌⊎◌, leb, ltb, none, ℕ, ◌+◌, ◌^◌, true, false, List, [], ◌∷◌, ◌++◌, some,
  none, ◌≡◌, refl, arith, All, replicate, map, take, inl, ◌*◌,
}
use iot_heater.OrdMap.{find}
use iot_heater.OrdMap.Keys.{mac_order, str_order}
use iot_heater.Text.{Bytes, codes, is_alnum, all_bytes, to_upper}
use iot_heater.Text.Laws.{all_bytes-All}
use iot_heater.Wire.{off, header_bytes, mac_value}
use iot_heater.BaseStation.State.{Station, Heater, write_fd, out_of_bounds, update, new_heater}
use iot_heater.BaseStation.Messages.{
  reply_message, write_loop, parse_message, has_rebooted, wanted_state,
}
use iot_heater.BaseStation.Messages.Requests.{unterminated_name, IsRequest}
use iot_heater.BaseStation.Messages.Answers.{
  warnings, request_answered, no_false_reboot, reboot_noticed,
}
use iot_heater.BaseStation.Commands.Execute.{concat}
use iot_heater.BaseStation.Connections.{bytes, complete, read_loop, check_stale_connections}
use iot_heater.BaseStation.Connections.Stale.{
  keep, close_all, check_stale-keep, read_loop_fragments,
}
use iot_heater.BaseStation.Checks.Lost.{check_lost-day}
use iot_heater.BaseStation.Checks.{check_lost_devices, device_name, sms_if_phone}
use iot_heater.Tests.Samples.{station, arrival, request, device_mac, kitchen}

request-IsRequest : IsRequest request
request-IsRequest = record { version_1 = refl; type_1 = refl; counter_lt = omega arith }

kitchen-alnum : All (λ c. is_alnum c ≡ true) kitchen
unfolding all_bytes is_alnum
kitchen-alnum = all_bytes-All is_alnum kitchen refl

request_answered_example :
    let o = parse_message arrival 7 (header_bytes request ++ (kitchen ++ 0 ∷ [])) station in
    let state = wanted_state (map to_upper kitchen) station in
    (o.1
      ≡ warnings station request (map to_upper kitchen)
        ++ (write_fd 7 (write_loop (reply_message none 5 state) (replicate 64 1)) ∷ []))
    × (find (mac_value request.mac) o.0.heaters
        ≡ some (update 2000 state (new_heater (map to_upper kitchen) (codes "192.168.1.20"))))
    × (find (mac_value request.mac) o.0.heater_counter ≡ some 7)
request_answered_example =
    request_answered arrival 7 request kitchen [] 0 station request-IsRequest kitchen-alnum
      (inl refl)

unterminated_name_example :
    (parse_message arrival 7 (header_bytes request ++ kitchen) station).1 ≡ out_of_bounds ∷ []
unterminated_name_example =
    unterminated_name arrival 7 request kitchen station request-IsRequest (ground arith)

-- A station that has heard of the device before.
abbrev heard : ℕ → Station
heard counter = record station { heater_counter = (mac_value device_mac, counter) ∷ [] }

no_false_reboot_example : has_rebooted (heard 5) request ≡ false
unfolding find mac_value
no_false_reboot_example =
    no_false_reboot (heard 5) request 5 2 refl refl (omega arith) (omega arith)

reboot_noticed_example :
    has_rebooted (heard (3 * 2 ^ 32 + 4)) (record request { counter = 9 * 2 ^ 32 + 1 }) ≡ true
unfolding find mac_value
reboot_noticed_example =
    reboot_noticed (heard (3 * 2 ^ 32 + 4)) (record request { counter = 9 * 2 ^ 32 + 1 }) 3 9 4 1
      refl refl (omega arith) (omega arith) (λ e. ground arith) (omega arith) (omega arith)

check_stale-keep_example : check_stale_connections true 1_000_000_000_000 station ≡ (
  record station {
    connections =
        keep
          (λ c. ltb (1_000_000_000_000 - c.last_seen) (11 * 60 * 1_000_000_000))
          station.connections;
  },
  close_all (
      keep
        (λ c. leb (11 * 60 * 1_000_000_000) (1_000_000_000_000 - c.last_seen))
        station.connections),
)
check_stale-keep_example = check_stale-keep 1_000_000_000_000 station

abbrev halves : List Bytes
halves = replicate 40 1 ∷ replicate 30 2 ∷ []

read_loop_fragments_example : read_loop (map bytes halves) [] ≡ complete (take 64 (concat halves))
unfolding concat
read_loop_fragments_example = read_loop_fragments halves (omega arith)

abbrev silent_heater : Heater
silent_heater = record { name = []; ip_addr = []; last_request_timestamp = 100; state = off }

abbrev with_heater : Station
with_heater = record station { heaters = (mac_value device_mac, silent_heater) ∷ [] }

check_lost-day_example :
    let o = check_lost_devices true 90_000 with_heater in
    ((90_000 < 100 + 24 * 60 * 60) × (find (mac_value device_mac) o.0.heaters ≡ some silent_heater))
    ⊎ ((100 + 24 * 60 * 60 ≤ 90_000)
        × (find (mac_value device_mac) o.0.heaters ≡ none)
        × (front : Bytes) × (back : Bytes) × (o.1
            ≡ sms_if_phone station.emergency_phone
                (front ++ (device_name (mac_value device_mac) [] ++ back))))
unfolding find mac_value
check_lost-day_example =
    check_lost-day 90_000 (mac_value device_mac) silent_heater with_heater (tt, tt) refl
