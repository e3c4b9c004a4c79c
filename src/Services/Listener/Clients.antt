-- ===== src/Services/Listener/Clients.antt =====
-- The life of the device server, and what becomes of its clients.
use iot_heater.Prelude.{
  ℕ, true, false, List, [], ◌∷◌, ◌++◌, none, some, ◌≡◌, refl, ◌∙◌, arith, append-nil, append_assoc,
  All, length, suc, ◌+◌, ◌&&◌, if◌then◌else◌, ◌≢◌,
}
use iot_heater.BaseStation.State.{Station, DeviceConnection}
use iot_heater.BaseStation.Connections.{handle_new_device}
use iot_heater.Services.Listener.{
  Server, created, Sockets, start, stop, Turn, cleared, poll_failed, timeout, other_event,
  accept_failed, client, run, listen_and_spawn, drop_socket, close_socket, without,
}

-- The flag, the thread and the socket agree.
pub record IsCoherent (s : Server) : Type 0 where
  pub thread : s.has_thread ≡ s.running
  pub listening : s.running ≡ true → s.fd ≢ none

-- What a caller may do with the object, but for its destruction.
pub data Call : Type 0 where
  start_call : Sockets → Call
  stop_call : Call

abbrev pub perform : Call → Server → Server
perform (start_call c) s = (start c s).0
perform stop_call s = stop s

abbrev pub perform_all : List Call → Server → Server
perform_all [] s = s
perform_all (c ∷ cs) s = perform_all cs (perform c s)

-- `listen` fails on -1.
abbrev pub Refuses : Call → Type 0
Refuses (start_call c) = c.listen_works none ≡ false
Refuses stop_call = Unit {0}

start-IsCoherent :
    (c : Sockets) (s : Server)
    → c.listen_works none ≡ false
    → IsCoherent s
    → IsCoherent (start c s).0
unfolding start listen_and_spawn drop_socket close_socket
start-IsCoherent c s r v = ground (arith, v.thread, v.listening)

stop-IsCoherent : (s : Server) → IsCoherent s → IsCoherent (stop s)
unfolding stop
stop-IsCoherent s v = ground (arith, v.thread, v.listening)

perform_all-keeps :
    (cs : List Call) (s : Server) → All Refuses cs → IsCoherent s → IsCoherent (perform_all cs s)
perform_all-keeps [] s r v = v
perform_all-keeps (start_call c ∷ cs) s r v =
    perform_all-keeps cs (start c s).0 r.1 (start-IsCoherent c s r.0 v)
perform_all-keeps (stop_call ∷ cs) s r v = perform_all-keeps cs (stop s) r.1 (stop-IsCoherent s v)

-- After any calls of `start` and `stop`, the flag and the thread agree, and a running server has a
-- descriptor, if `listen` on -1 fails.
pub perform_all-IsCoherent : (cs : List Call) → All Refuses cs → IsCoherent (perform_all cs created)
unfolding created
perform_all-IsCoherent cs r =
    perform_all-keeps cs created r (record { thread = refl; listening = λ e. cc })

-- A stopped server that gets a socket is running after `start` exactly if `bind` and `listen` have
-- succeeded on it, and has closed the socket if not, if `listen` on -1 fails.
pub start-outcome :
    (c : Sockets) (s : Server) (n : ℕ)
    → s.running ≡ false
    → c.socket ≡ some n
    → c.listen_works none ≡ false
    → ((start c s).0.running ≡ (c.bind_works && c.listen_works (some n)))
      × ((start c s).0.open_sockets ≡ (
          if c.bind_works && c.listen_works (some n)
          then n ∷ s.open_sockets
          else without n s.open_sockets))
unfolding start listen_and_spawn drop_socket close_socket without
start-outcome c s n idle e r = ground (arith, idle, e, r)

-- Calls that let a server listen.
abbrev pub Works : Sockets → Type 0
Works c = (n : ℕ) × (c.socket ≡ some n) × (c.bind_works ≡ true) × (c.listen_works (some n) ≡ true)

-- `start` and `stop`, time and again.
abbrev pub cycles : List Sockets → Server → Server
cycles [] s = s
cycles (c ∷ cs) s = cycles cs (stop (start c s).0)

cycle-leaks :
    (c : Sockets) (s : Server)
    → Works c
    → s.running ≡ false
    → ((stop (start c s).0).running ≡ false)
      × (length (stop (start c s).0).open_sockets ≡ suc (length s.open_sockets))
unfolding start listen_and_spawn stop
cycle-leaks c s (n, e, b, l) idle = ground (arith, idle, e, b, l)

cycles-leak :
    (cs : List Sockets) (s : Server)
    → All Works cs
    → s.running ≡ false
    → length (cycles cs s).open_sockets ≡ length s.open_sockets + length cs
cycles-leak [] s w idle = omega arith
cycles-leak (c ∷ cs) s w idle =
    let (idle', grown) = cycle-leaks c s w.0 idle in
    cycles-leak cs (stop (start c s).0) w.1 idle' ∙ omega (arith, grown)

-- Each `start` that works, followed by a `stop`, leaves one more socket open.
pub restarts_leak :
    (cs : List Sockets) → All Works cs → length (cycles cs created).open_sockets ≡ length cs
unfolding created
restarts_leak cs w = cycles-leak cs created w refl ∙ omega arith

-- The connections that the turns bring, in order: up to the first turn that finds the flag
-- cleared or an error of `poll`.
abbrev pub accepted : List Turn → List DeviceConnection
accepted [] = []
accepted (cleared ∷ ts) = []
accepted (poll_failed ∷ ts) = []
accepted (timeout ∷ ts) = accepted ts
accepted (other_event ∷ ts) = accepted ts
accepted (accept_failed ∷ ts) = accepted ts
accepted (client fd now ∷ ts) = record { fd = fd; last_seen = now } ∷ accepted ts

-- The thread of the device server hands each client that it accepts to the base station, in order,
-- with the time of its arrival, and closes none, until the turn that finds the flag cleared or an
-- error of `poll`; nothing else of the base station changes.
pub run-connections :
    (ts : List Turn) (closed : List ℕ) (st : Station)
    → ((run (some handle_new_device) ts closed st).state
        ≡ record st { connections = st.connections ++ accepted ts })
      × ((run (some handle_new_device) ts closed st).closed ≡ closed)
unfolding run handle_new_device
run-connections [] closed st = (rw (append-nil st.connections) refl, refl)
run-connections (cleared ∷ ts) closed st = (rw (append-nil st.connections) refl, refl)
run-connections (poll_failed ∷ ts) closed st = (rw (append-nil st.connections) refl, refl)
run-connections (timeout ∷ ts) closed st = run-connections ts closed st
run-connections (other_event ∷ ts) closed st = run-connections ts closed st
run-connections (accept_failed ∷ ts) closed st = run-connections ts closed st
run-connections (client fd now ∷ ts) closed st =
    let (state, same) = run-connections ts closed (handle_new_device fd now st) in
    (state ∙ rw append_assoc refl, same)
