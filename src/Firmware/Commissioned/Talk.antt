-- ===== src/Firmware/Commissioned/Talk.antt =====
-- The request for the heater's state and what becomes of the reply, in `loop_commissioned`.
use iot_heater.Prelude.{
  ℕ, zero, suc, ◌+◌, ◌-◌, ◌^◌, ◌%◌, Bool, true, false, not, List, [], ◌∷◌, ◌++◌, if◌then◌else◌, ltb,
  leb, ◌==◌, length, take, drop, replicate,
}
use iot_heater.Text.{Bytes}
use iot_heater.Wire.{
  Mac, message_size, req_heater_state, heater_state_reply, overwrite, header_bytes, parse_header,
  byte_at,
}
use iot_heater.Firmware.Settings.{settings_get_name}
use iot_heater.Firmware.Commissioned.Device.{
  Device, ErrorCode, cannot_connect_to_base_station, reply_timeout, message_protocol_not_supported,
  invalid_message_type, invalid_heater_state, message_read_failure, request_write_failure,
  ErrorQueue, fail, apply_heater_state, connected_to_base_station,
}

-- What one pass of the loop meets: the level of the button, the clocks in milliseconds and in
-- seconds, the network, and what the calls on the client return. `in_time` is that 64 bytes were
-- there within a second.
pub record Turn : Type 0 where
  pub button : ℕ
  pub now : ℕ
  pub epoch : ℕ
  pub online : Bool
  pub mac : Mac
  pub connects : List Bool
  pub writes : List ℕ
  pub in_time : Bool
  pub reads : List Bytes

-- The loop over the attempts to connect; a call that gives nothing has failed.
unfoldable pub try_connect : ℕ → List Bool → Bool
try_connect zero results = false
try_connect (suc n) [] = false
try_connect (suc n) (r ∷ rs) = let again = try_connect n rs in if r then true else again

-- The write loop: the bytes sent, and whether they are the whole message.
unfoldable pub send_loop : Bytes → List ℕ → Bytes × Bool
send_loop [] rets = ([], true)
send_loop (c ∷ left) [] = ([], false)
send_loop (c ∷ left) (ret ∷ rets) =
    let (sent, whole) = send_loop (drop ret (c ∷ left)) rets in
    if ret == 0 then ([], false) else (take ret (c ∷ left) ++ sent, whole)

-- The read loop; a call that gives no byte ends it.
unfoldable pub receive_loop : List Bytes → Bytes → Bytes
receive_loop [] message = message
receive_loop (b ∷ bs) message =
    let got = take (message_size - length message) b in
    let more = receive_loop bs (message ++ got) in
    if ltb (length message) message_size
    then (if length got == 0 then message else more)
    else message

-- The request.
unfoldable pub request_message : {Q : Type 0} → Turn → Device Q → Bytes
request_message t d =
    overwrite
      (overwrite (replicate message_size 0xFF) 0 (
        header_bytes (record {
          version = 1;
          msg_type = req_heater_state;
          mac = t.mac;
          counter = d.msg_counter;
        })))
      16 (settings_get_name d.settings)

-- How a request ends: with an error, or with the state that the base station sent.
pub data Verdict : Type 0 where
  fails : ErrorCode → Verdict
  wants : ℕ → Verdict

-- The checks on what was read.
unfoldable pub judge : Bytes → Verdict
unfolding parse_header
judge b =
    let h = parse_header b in
    let s = byte_at b 16 in
    if ltb (length b) message_size
    then fails message_read_failure
    else if not (h.version == 1)
    then fails message_protocol_not_supported
    else if h.msg_type == req_heater_state
    then fails invalid_message_type
    else if not (h.msg_type == heater_state_reply)
    then fails invalid_message_type
    else if leb s 3
    then wants s
    else fails invalid_heater_state

-- From the connection to the reply: the bytes sent, and how it ends.
unfoldable pub talk : {Q : Type 0} → Turn → Device Q → Bytes × Verdict
unfolding send_loop request_message judge receive_loop
talk t d =
    let (sent, whole) = send_loop (request_message t d) t.writes in
    (
      sent,
      if not whole
          then fails request_write_failure
          else if not t.in_time
          then fails reply_timeout
          else judge (receive_loop t.reads []),
    )

-- What the end does to the controller.
unfoldable pub conclude : (eq : ErrorQueue) → Turn → Verdict → Device eq.Queue → Device eq.Queue
unfolding fail apply_heater_state
conclude eq t (fails code) d = fail eq code t.epoch d
conclude eq t (wants s) d =
    let d' = record d {
      led_state = connected_to_base_station;
      last_state_timestamp = t.epoch;
      failure_count = 0;
    } in
    if d.heater_state == s then d' else apply_heater_state (record d' { heater_state = s })

-- A request, its event cleared already: `CONNECTION_MAX_ATTEMPT` is 3. Where no connection is made,
-- the source also calls `sprintf` on a literal and logs an array that was never written: undefined,
-- and taken here to do nothing.
unfoldable pub request_state : (eq : ErrorQueue) → Turn → Device eq.Queue → Device eq.Queue × Bytes
unfolding try_connect talk conclude
request_state eq t d =
    let (sent, verdict) = talk t d in
    if try_connect 3 t.connects
    then (conclude eq t verdict (record d { msg_counter = (d.msg_counter + 1) % 2 ^ 64 }), sent)
    else (conclude eq t (fails cannot_connect_to_base_station) d, [])
