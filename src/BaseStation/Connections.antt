-- ===== src/BaseStation/Connections.antt =====
-- `handleNewDevice`, `handleConnections`, `checkStaleConnections` and the destructor of
-- base_station.cpp.
pub mod Stale
pub mod Balance
use iot_heater.Prelude.{
  ℕ, zero, suc, ◌+◌, ◌-◌, ◌/◌, Bool, true, false, List, [], ◌∷◌, ◌++◌, Option, none, some, ltb,
  ◌==◌, if◌then◌else◌, length, take, map,
}
use iot_heater.Text.{Bytes}
use iot_heater.Wire.{message_size}
use iot_heater.BaseStation.State.{Station, DeviceConnection, Effect, close_fd, stall, Outcome}
use iot_heater.BaseStation.Messages.{Arrival, parse_message}

-- `handleNewDevice`, called by the thread of the device server.
unfoldable pub handle_new_device : ℕ → ℕ → Station → Station
handle_new_device fd now st = record st {
  connections = st.connections ++ (record { fd = fd; last_seen = now } ∷ []);
}

-- What a call of `read` gives: bytes, an error, or the end of the stream.
pub data ReadResult : Type 0 where
  bytes : Bytes → ReadResult
  error : ReadResult
  end : ReadResult

-- How the loop that reads a message ends. `blocked` is a `read` that has not returned yet.
pub data ReadOutcome : Type 0 where
  complete : Bytes → ReadOutcome
  failed closed blocked : ReadOutcome

-- `while (bytes_read < sizeof(data))`. A `read` takes at most the room that is left, and one byte
-- at least.
unfoldable pub read_loop : List ReadResult → Bytes → ReadOutcome
read_loop [] message = if ltb (length message) message_size then blocked else complete message
read_loop (bytes b ∷ rs) message =
    let more = read_loop rs (message ++ take (message_size - length message) b) in
    if ltb (length message) message_size then more else complete message
read_loop (error ∷ rs) message =
    if ltb (length message) message_size then failed else complete message
read_loop (end ∷ rs) message =
    if ltb (length message) message_size then closed else complete message

unfoldable pub has_fd : ℕ → List DeviceConnection → Bool
has_fd fd [] = false
has_fd fd (c ∷ cs) = if c.fd == fd then true else has_fd fd cs

-- `m_connections.erase(itor)` at the first connection with the descriptor.
unfoldable pub remove_fd : ℕ → List DeviceConnection → List DeviceConnection
remove_fd fd [] = []
remove_fd fd (c ∷ cs) = if c.fd == fd then cs else c ∷ remove_fd fd cs

-- A descriptor that `poll` reports readable, with what its reads give.
pub record Ready : Type 0 where
  pub fd : ℕ
  pub reads : List ReadResult
  pub arrival : Arrival

-- What becomes of a message that was read, or not.
unfoldable pub serve : Ready → ReadOutcome → Station → Outcome
unfolding parse_message remove_fd
serve r (complete message) st = parse_message r.arrival r.fd message st
serve r closed st = (record st { connections = remove_fd r.fd st.connections }, close_fd r.fd ∷ [])
serve r failed st = (st, [])
serve r blocked st = (st, stall ∷ [])

unfoldable pub serve_all : List Ready → Station → Outcome
unfolding has_fd read_loop serve
serve_all [] st = (st, [])
serve_all (r ∷ rs) st =
    let found = serve r (read_loop r.reads []) st in
    let (st', e) = if has_fd r.fd st.connections then found else (st, []) in
    let (st'', e') = serve_all rs st' in (st'', e ++ e')

-- `handleConnections`, on the descriptors that `poll` reports readable, in the order of the list.
-- With no connection it returns at once.
unfoldable pub handle_connections : List Ready → Station → Outcome
unfolding serve_all
handle_connections ready st = elim st.connections [ [] ↦ (st, []) | c ∷ cs ↦ serve_all ready st ]

-- `duration_cast<minutes>(now - last_seen) > minutes(10)`, on nanoseconds.
unfoldable pub is_stale : ℕ → DeviceConnection → Bool
is_stale now c = ltb 10 ((now - c.last_seen) / 60_000_000_000)

unfoldable pub drop_stale : ℕ → List DeviceConnection → List DeviceConnection × List Effect
unfolding is_stale
drop_stale now [] = ([], [])
drop_stale now (c ∷ cs) =
    let (kept, e) = drop_stale now cs in
    if is_stale now c then (kept, close_fd c.fd ∷ e) else (c ∷ kept, e)

-- `checkStaleConnections`; the flag is that the timer has fired.
unfoldable pub check_stale_connections : Bool → ℕ → Station → Outcome
unfolding drop_stale
check_stale_connections fired now st =
    let (kept, e) = drop_stale now st.connections in
    if fired then (record st { connections = kept }, e) else (st, [])

-- The destructor.
unfoldable pub destroy : Station → List Effect
destroy st = map (λ (c : DeviceConnection). close_fd c.fd) st.connections
