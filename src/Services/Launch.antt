-- ===== src/Services/Launch.antt =====
-- `main` of base_station/src/main.cpp: the parts are created and started one after the other, and
-- the main loop runs for ever, with the two threads that call into the base station.
pub mod Running
pub mod Served
pub mod Closed
pub mod Queue
use iot_heater.Prelude.{
  ℕ, Bool, true, false, List, [], ◌∷◌, ◌++◌, Option, none, some, if◌then◌else◌,
}
use iot_heater.Text.{Bytes}
use iot_heater.BaseStation.State.{Station, Outcome}
use iot_heater.BaseStation.Persist.{construct}
use iot_heater.BaseStation.Commands.Queue.{handle_sms_command, then_run}
use iot_heater.BaseStation.Connections.{handle_new_device}
use iot_heater.BaseStation.Process.{Round, process}
use iot_heater.Services.Listener
use iot_heater.Services.Watcher
use iot_heater.Services.WebServer
use iot_heater.Services.Options.{Request, launch, parse_args, default_device_server_port}

-- What the system gives at a start: the state file, the random word, the calls of the servers.
pub record Host : Type 0 where
  pub state_file : Option Bytes
  pub word : ℕ
  pub sockets : Listener.Sockets
  pub daemon : Option ℕ

pub record Program : Type 0 where
  pub base_station : Station
  pub device_server : Listener.Server
  pub sms_receiver : Watcher.Receiver
  pub web_server : WebServer.Server

-- An exception of one of the servers is not caught: the program ends.
pub data Started : Type 0 where
  running : Program → Started
  no_device_server no_web_server : Started

unfoldable pub start_web : Option ℕ → Program → Started
start_web daemon p =
    let (server, result) = WebServer.start daemon p.web_server in
    elim result [
      | WebServer.started ↦ running (record p { web_server = server })
      | _ ↦ no_web_server
    ]

unfoldable pub start_device_server : Host → Program → Started
unfolding start_web
start_device_server h p =
    let (server, result) = Listener.start h.sockets p.device_server in
    elim result [
      | Listener.started ↦
          start_web h.daemon
            (record p { device_server = server; sms_receiver = Watcher.start p.sms_receiver })
      | _ ↦ no_device_server
    ]

-- From the constructors to the start of the main loop.
unfoldable pub start_program : Host → Started
unfolding start_device_server
start_program h = start_device_server h (record {
  base_station = (construct h.state_file h.word).0;
  device_server = Listener.created;
  sms_receiver = Watcher.created;
  web_server = WebServer.created;
})

-- What happens to the base station while the program runs: a round of the main loop, a connection
-- that the thread of the device server hands over, a text message that the thread of the receiver
-- hands over.
pub data Event : Type 0 where
  round : Round → Event
  connection : ℕ → ℕ → Event
  message : Bytes → Bytes → Event

unfoldable pub handle : Event → Station → Outcome
handle (round r) st = process r st
handle (connection fd now) st = (handle_new_device fd now st, [])
handle (message from content) st = (handle_sms_command from content st, [])

-- `while (true) { base_station.process(); wait_ms(50); }`, between the calls of the threads.
unfoldable pub main_loop : List Event → Station → Outcome
unfolding handle
main_loop [] st = (st, [])
main_loop (e ∷ es) st = let (st', out) = handle e st in then_run out (main_loop es st')
