-- ===== src/Services/Launch/Running.antt =====
-- What runs once `main` has come to its loop.
use iot_heater.Prelude.{
  ℕ, true, false, List, [], ◌∷◌, Option, none, some, ◌≡◌, refl, ap, arith, subst, sym, Option-cases,
  inl, inr,
}
use iot_heater.BaseStation.State.{Station}
use iot_heater.BaseStation.Validity.{IsValid}
use iot_heater.BaseStation.Persist.{construct}
use iot_heater.BaseStation.Process.Reach.{IsReachable, Step, started, stepped, IsReachable-IsValid}
use iot_heater.Services.Listener
use iot_heater.Services.Watcher
use iot_heater.Services.WebServer
use iot_heater.Services.Launch.{
  Host, Program, running, start_program, start_device_server, start_web, Event, round, connection,
  message, handle, main_loop,
}

handle-Step : (e : Event) (st : Station) → Step st (handle e st).0
unfolding handle
handle-Step (round r) st = Step.round r
handle-Step (connection fd now) st = Step.connection fd now
handle-Step (message from content) st = Step.message from content

main_loop-IsReachable :
    (es : List Event) (st : Station) → IsReachable st → IsReachable (main_loop es st).0
unfolding main_loop
main_loop-IsReachable [] st r = r
main_loop-IsReachable (e ∷ es) st r =
    main_loop-IsReachable es (handle e st).0 (stepped r (handle-Step e st))

-- What a start leaves: the server of controllers listens, the receiver runs, the daemon serves.
abbrev pub IsUp : Host → Program → Type 0
IsUp h p =
    (n : ℕ) × (d : ℕ) × (p.device_server.fd ≡ some n)
    × (p.device_server.running ≡ true)
    × (h.sockets.listen_works (some n) ≡ true)
    × (p.sms_receiver.running ≡ true)
    × (p.web_server.daemon ≡ some d)
    × (h.daemon ≡ some d)
    × (p.base_station ≡ (construct h.state_file h.word).0)

start_web-running :
    (daemon : Option ℕ) (p q : Program)
    → p.web_server ≡ WebServer.created
    → start_web daemon p ≡ running q
    → (d : ℕ) × (daemon ≡ some d)
      × (q ≡ record p { web_server = record { daemon = some d; stopped = [] } })
unfolding start_web WebServer.start WebServer.created
start_web-running none p q w e = absurd (ground arith)
start_web-running (some d) p q w e = (d, refl, ground arith)

-- The program as it stands behind the start of the receiver.
abbrev started_servers : Host → ℕ → Program
started_servers h n = record {
  base_station = (construct h.state_file h.word).0;
  device_server = record { running = true; has_thread = true; fd = some n; open_sockets = n ∷ [] };
  sms_receiver = record { running = true; has_thread = true };
  web_server = record { daemon = none; stopped = [] };
}

start_program-listening :
    (h : Host) (p : Program)
    → h.sockets.listen_works none ≡ false
    → start_program h ≡ running p
    → (n : ℕ) × (h.sockets.listen_works (some n) ≡ true)
      × (start_web h.daemon (started_servers h n) ≡ running p)
unfolding start_program start_device_server Listener.start Listener.listen_and_spawn
    Listener.created Watcher.start Watcher.created WebServer.created Listener.drop_socket
start_program-listening h p r e = elim (Option-cases h.sockets.socket) [
  | inl none_left ↦ absurd (ground arith)
  | inr (n, got) ↦ (n, ground arith, ground arith)
]

-- If `main` comes to its loop, then the device server listens on a descriptor on which `listen` has
-- succeeded, the thread of the receiver runs, the web server has its daemon, and the base station is
-- the one that its constructor makes of the state file. This takes `listen` on -1 to fail.
pub running_program :
    (h : Host) (p : Program)
    → h.sockets.listen_works none ≡ false
    → start_program h ≡ running p
    → IsUp h p
unfolding start_program
running_program h p r e =
    let (n, works, web) = start_program-listening h p r e in
    let (d, served, same) =
      start_web-running h.daemon (started_servers h n) p (unfold WebServer.created in refl) web in
    (
      n,
      d,
      ap (λ (q : Program). q.device_server.fd) same,
      ap (λ (q : Program). q.device_server.running) same,
      works,
      ap (λ (q : Program). q.sms_receiver.running) same,
      ap (λ (q : Program). q.web_server.daemon) same,
      served,
      ap (λ (q : Program). q.base_station) same,
    )

-- While the program runs, the settings of the base station are well formed, if `listen` on -1 fails.
pub main_loop-IsValid :
    (h : Host) (es : List Event) (p : Program)
    → h.sockets.listen_works none ≡ false
    → start_program h ≡ running p
    → IsValid (main_loop es p.base_station).0
main_loop-IsValid h es p r e =
    let up = running_program h p r e in
    IsReachable-IsValid (
      main_loop-IsReachable es p.base_station
        (subst IsReachable (sym up.8) (started h.state_file h.word)))
