-- ===== src/Tests/Threads.antt =====
-- The threads, the timers and the command line.
use iot_heater.Prelude.{
  ℕ, true, false, List, [], ◌∷◌, ◌++◌, Option, some, none, ◌≡◌, refl, arith, length, ◌+◌, ◌*◌, ◌/◌,
  ◌<◌, if◌then◌else◌, drop, ltb, replicate, refl,
}
use iot_heater.OrdMap.Keys.{str_order}
use iot_heater.Text.{Bytes, codes}
use iot_heater.BaseStation.Connections.{handle_new_device, bytes, end, destroy}
use iot_heater.BaseStation.Persist.{construct}
use iot_heater.BaseStation.Process.{Round}
use iot_heater.Wire.{header_bytes}
use iot_heater.Text.Lines.{Free}
use iot_heater.BaseStation.Page.{Machine, device_text, build_webpage}
use iot_heater.BaseStation.Page.Markup.{count_tags}
use iot_heater.Sms.Receiver.Incoming.{sms_file}
use iot_heater.Services.Listener
use iot_heater.Services.Listener.{Sockets, client, timeout, cleared}
use iot_heater.Services.Listener.Clients.{accepted, run-connections}
use iot_heater.Services.WebServer
use iot_heater.Services.Watcher
use iot_heater.Services.Watcher.{changed, incoming_dir}
use iot_heater.Services.Options.{parse_args}
use iot_heater.Services.Options.Ports.{port_args, last_or, parse_args-ports}
use iot_heater.Services.Timing
use iot_heater.Services.Timing.{
  Timer, Spec, nanoseconds, wait_ms, total, timer_period, wait_ms-ends,
}
use iot_heater.Services.Launch.{
  Host, Program, running, start_program, main_loop, Event, round, connection, message,
}
use iot_heater.Services.Launch.Running.{IsUp, running_program}
use iot_heater.Services.Launch.Served.{served_page-tags}
use iot_heater.Services.Launch.Closed.{handed_over, main_loop-destroy}
use iot_heater.BaseStation.Connections.Balance.{closes, listed}
use iot_heater.Services.Launch.Queue.{arrivals, main_loop-serves}
use iot_heater.Tests.Samples.{station, phone, kitchen, quiet_round, request, arrival}
use iot_heater.Tests.Rounds.{waiting}
use iot_heater.Tests.Services.{port}

run-connections_example :
    let served =
      Listener.run (some handle_new_device) (timeout ∷ client 11 5 ∷ cleared ∷ []) [] station in
    (served.state ≡ record station {
      connections = station.connections ++ accepted (timeout ∷ client 11 5 ∷ cleared ∷ []);
    })
    × (served.closed ≡ [])
run-connections_example = run-connections (timeout ∷ client 11 5 ∷ cleared ∷ []) [] station

abbrev pub sms_name : Bytes
sms_name = codes "GSM1.a"

-- A directory that holds one message.
abbrev pub one_file : Bytes → Option Bytes
one_file path =
    some (sms_file phone (codes "Modem: GSM1" ∷ []) (codes "heater kitchen" ∷ codes " eco" ∷ []))

parse_args-ports_example :
    parse_args 32322 (port_args (8000 ∷ 9000 ∷ []) ++ codes "-v" ∷ [])
    ≡ parse_args (last_or 32322 (8000 ∷ 9000 ∷ [])) (codes "-v" ∷ [])
parse_args-ports_example =
    parse_args-ports 32322 (8000 ∷ 9000 ∷ []) (codes "-v" ∷ []) (omega arith, (omega arith, tt))

abbrev minute : Timer
minute = record { fd = some 4; setting = some (Timing.spec_of 60_500 true) }

timer_period_example :
    (s : Spec) × (minute.setting ≡ some s)
    × (nanoseconds s.value_sec s.value_nsec ≡ 60_500 * 1_000_000)
    × (s.value_nsec < 1_000_000_000)
    × (nanoseconds s.interval_sec s.interval_nsec ≡ (if true then 60_500 * 1_000_000 else 0))
    × (s.interval_nsec < 1_000_000_000)
unfolding Timing.start Timing.created
timer_period_example = timer_period (some 4) 60_500 true Timing.created minute refl

-- The first two calls are interrupted half way.
abbrev half_way : ℕ → ℕ → Option ℕ
half_way call req = if ltb call 2 then (if ltb 0 req then some (req / 2) else none) else none

half_way-less : (call req rem : ℕ) → half_way call req ≡ some rem → rem < req
half_way-less call req rem e = ground arith

wait_ms-ends_example :
    (slept : List ℕ) × (wait_ms half_way 50 ≡ some slept) × (total slept ≡ 50 * 1_000_000)
wait_ms-ends_example = wait_ms-ends half_way 50 half_way-less

abbrev sockets : Sockets
sockets = record {
  socket = some 3;
  bind_works = true;
  listen_works = λ o. elim o [ none ↦ false | some n ↦ true ];
}

abbrev host : Host
host = record { state_file = none; word = 9; sockets = sockets; daemon = some 1 }

abbrev program : Program
program = record {
  base_station = (construct none 9).0;
  device_server = record { running = true; has_thread = true; fd = some 3; open_sockets = 3 ∷ [] };
  sms_receiver = record { running = true; has_thread = true };
  web_server = record { daemon = some 1; stopped = [] };
}

host-starts : start_program host ≡ running program
unfolding start_program Listener.created Watcher.created WebServer.created Listener.start
    Watcher.start WebServer.start
host-starts = refl

running_program_example : IsUp host program
running_program_example = running_program host program refl host-starts

abbrev day : List Event
day =
    connection 11 5
    ∷ message phone (codes "all on")
    ∷ round quiet_round
    ∷ message phone (codes "ping")
    ∷ round quiet_round
    ∷ round quiet_round
    ∷ []

main_loop-serves_example : (k : ℕ) × ((main_loop day waiting).0.commands ≡ drop k (arrivals day))
main_loop-serves_example = main_loop-serves day waiting (omega arith)

abbrev machine : Machine
machine = record {
  version_str = codes "base_station-1.2";
  uptime = some 100_000;
  machine_info = none;
  socket_opens = true;
  own_address = some (codes "192.168.1.2");
  usb2 = true;
  usb3 = true;
  port = port;
  processes = none;
  time_text = λ t. codes "2024-01-01";
}

abbrev visited : Round
visited = record quiet_round {
  ready =
      record {
        fd = 11;
        reads = bytes (header_bytes request ++ (kitchen ++ 0 ∷ replicate 40 0)) ∷ [];
        arrival = arrival;
      }
      ∷ [];
}

served_page-tags_example :
    let st = (main_loop (connection 11 5 ∷ round visited ∷ []) program.base_station).0 in
    count_tags (build_webpage machine st)
    ≡ 31 + count_tags (device_text machine) + 14 * length st.heaters
served_page-tags_example =
    served_page-tags host program (connection 11 5 ∷ round visited ∷ []) machine refl host-starts
      (tt, ((ground arith, tt), tt)) dates
  where
    dates : (t : ℕ) → Free b'<' (machine.time_text t)
    dates t = ground arith

-- A device connects, its stream ends in a round, and another one connects.
abbrev visits : List Event
visits =
    connection 11 5
    ∷ round (record quiet_round {
      ready = record { fd = 11; reads = end ∷ []; arrival = arrival } ∷ [];
    })
    ∷ connection 12 9
    ∷ []

main_loop-destroy_example :
    let (st', e) = main_loop visits station in
    closes 11 (e ++ destroy st') ≡ handed_over 11 visits + listed 11 station.connections
main_loop-destroy_example = main_loop-destroy 11 visits station
