-- ===== src/Services/Listener.antt =====
-- `DeviceServer` of base_station/src/device_server.cpp: the socket on which controllers connect, and
-- the loop of its thread. Its descriptors are numbers; `none` is the -1 of `m_fd`.
pub mod Clients
use iot_heater.Prelude.{
  ℕ, Bool, true, false, List, [], ◌∷◌, ◌++◌, Option, none, some, if◌then◌else◌, ◌==◌,
}

-- The members, and the sockets of the server that the process holds open.
pub record Server : Type 0 where
  pub running : Bool
  pub has_thread : Bool
  pub fd : Option ℕ
  pub open_sockets : List ℕ

-- The constructor.
unfoldable pub created : Server
created = record { running = false; has_thread = false; fd = none; open_sockets = [] }

-- What `socket`, `bind` and `listen` give; `listen` is called on whatever `m_fd` holds.
pub record Sockets : Type 0 where
  pub socket : Option ℕ
  pub bind_works : Bool
  pub listen_works : Option ℕ → Bool

-- How a call of `start` ends.
pub data StartResult : Type 0 where
  already_running started no_socket not_listening : StartResult

unfoldable pub without : ℕ → List ℕ → List ℕ
without n [] = []
without n (x ∷ xs) = let rest = without n xs in if x == n then rest else x ∷ rest

-- `close(m_fd)`; a close of -1 does nothing.
unfoldable pub close_socket : Server → Server
unfolding without
close_socket s = elim s.fd [
  | none ↦ s
  | some n ↦ record s { open_sockets = without n s.open_sockets }
]

-- `close(m_fd); m_fd = -1;`
unfoldable pub drop_socket : Server → Server
unfolding close_socket
drop_socket s = record (close_socket s) { fd = none }

-- From `listen` on: a failure throws.
unfoldable pub listen_and_spawn : Sockets → Server → Server × StartResult
unfolding drop_socket
listen_and_spawn c s =
    if c.listen_works s.fd
    then (record s { running = true; has_thread = true }, started)
    else (drop_socket s, not_listening)

-- `start`. A `bind` that fails closes the socket, but does not end the call.
unfoldable pub start : Sockets → Server → Server × StartResult
unfolding listen_and_spawn drop_socket
start c s = if s.running then (s, already_running) else elim c.socket [
  | none ↦ (record s { fd = none }, no_socket)
  | some n ↦
      let opened = record s { fd = some n; open_sockets = n ∷ s.open_sockets } in
      listen_and_spawn c (if c.bind_works then opened else drop_socket opened)
]

-- `stop`: the thread sees the flag and is joined. The socket stays open.
unfoldable pub stop : Server → Server
stop s = if s.running then record s { running = false; has_thread = false } else s

-- The destructor. With a thread it joins without clearing the flag that ends it: `none` is a call
-- that does not return.
unfoldable pub destroy : Server → Option Server
unfolding close_socket
destroy s = if s.running then none else some (close_socket s)

-- A turn of the loop: its test finds the flag cleared, or `poll` fails, times out or reports
-- something else than a client, or `accept` fails, or gives a descriptor, at some time.
pub data Turn : Type 0 where
  cleared poll_failed timeout other_event accept_failed : Turn
  client : ℕ → ℕ → Turn

-- The loop has ended by its test, by an exception, or goes on.
pub data Ending : Type 0 where
  stopped threw waiting : Ending

pub record Served (S : Type 0) : Type 0 where
  pub state : S
  pub closed : List ℕ
  pub ending : Ending

-- `run`: the callback, if there is one, takes the descriptor; it changes the state `S` of whoever
-- set it. Without a callback the descriptor is closed.
unfoldable pub run : {S : Type 0} → Option (ℕ → ℕ → S → S) → List Turn → List ℕ → S → Served S
run callback [] closed s = record { state = s; closed = closed; ending = waiting }
run callback (cleared ∷ ts) closed s = record { state = s; closed = closed; ending = stopped }
run callback (poll_failed ∷ ts) closed s = record { state = s; closed = closed; ending = threw }
run callback (timeout ∷ ts) closed s = run callback ts closed s
run callback (other_event ∷ ts) closed s = run callback ts closed s
run callback (accept_failed ∷ ts) closed s = run callback ts closed s
run none (client fd now ∷ ts) closed s = run none ts (closed ++ fd ∷ []) s
run (some f) (client fd now ∷ ts) closed s = run (some f) ts closed (f fd now s)
