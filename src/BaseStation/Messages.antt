-- ===== src/BaseStation/Messages.antt =====
-- `parseMessage` and `sendHeaterState` of base_station.cpp, and the two scans of a MAC address.
pub mod Reply
pub mod Requests
pub mod Answers
pub mod Order
use iot_heater.Prelude.{
  ℕ, zero, suc, ◌+◌, ◌-◌, ◌%◌, ◌/◌, ◌^◌, Bool, true, false, not, ◌&&◌, ◌||◌, List, [], ◌∷◌, ◌++◌,
  Option, none, some, ltb, ◌==◌, if◌then◌else◌, replicate, take, drop, length,
}
use iot_heater.OrdMap.{Map, find, insert}
use iot_heater.OrdMap.Keys.{str_order, mac_order}
use iot_heater.Text.{Bytes, codes, to_upper, check_heater_name, size_sub, hex_byte}
use iot_heater.Wire.{
  HeaterState, Mac, Header, message_size, req_heater_state, heater_state_reply, state_byte,
  overwrite, header_bytes, parse_header, mac_value,
}
use iot_heater.BaseStation.State.{
  Station, DeviceConnection, Effect, send_sms, write_fd, out_of_bounds, Outcome, new_heater, update,
}

-- What the environment gives while a message is handled: the two clocks, the address of the peer,
-- the MAC address of the own interface if it can be read, and what the calls of `write` return.
pub record Arrival : Type 0 where
  pub steady_now : ℕ
  pub time_now : ℕ
  pub peer_ip : Bytes
  pub own_mac : Option Mac
  pub write_returns : List ℕ

-- `while (data[i] != 0xFF && data[i] != '\0') name += toupper(data[i++])`. The loop has no bound:
-- `none` is a read behind the message.
unfoldable pub scan_name : Bytes → Option Bytes
unfolding to_upper
scan_name [] = none
scan_name (c ∷ s) =
    if c == 0xFF || c == 0
    then some []
    else elim (scan_name s) [ none ↦ none | some name ↦ some (to_upper c ∷ name) ]

-- A name that is not alphanumeric counts as no name.
abbrev pub checked_name : Bytes → Bytes
checked_name name = if check_heater_name name then name else []

-- `llabs(a - b)`, on the difference modulo 2 ^ 64 read as a signed number.
unfoldable pub counter_distance : ℕ → ℕ → ℕ
counter_distance a b = let d = size_sub a b in if ltb d (2 ^ 63) then d else 2 ^ 64 - d

-- The test on the last counter of the device.
unfoldable pub has_rebooted : Station → Header → Bool
unfolding counter_distance mac_value find
has_rebooted st h = elim (find (mac_value h.mac) st.heater_counter) [
  | none ↦ false
  | some old ↦ ltb 100 (counter_distance h.counter old)
]

-- `macToStr`.
unfoldable pub mac_str : Mac → Bytes
unfolding hex_byte
mac_str m =
    hex_byte m.b0
    ++ (b':'
        ∷ (hex_byte m.b1
            ++ (b':'
                ∷ (hex_byte m.b2
                    ++ (b':'
                        ∷ (hex_byte m.b3 ++ (b':' ∷ (hex_byte m.b4 ++ (b':' ∷ hex_byte m.b5)))))))))

unfoldable pub reboot_text : Bytes → Mac → Bytes
unfolding mac_str
reboot_text name m =
    codes "Warning!\nDevice "
    ++ (elim name [ [] ↦ [] | c ∷ s ↦ c ∷ (s ++ codes " MAC=") ]
        ++ (mac_str m ++ codes " rebooted."))

-- The state for a name: its own, and else the default.
unfoldable pub wanted_state : Bytes → Station → HeaterState
unfolding find
wanted_state [] st = st.heater_default_state
wanted_state (c ∷ s) st = elim (find (c ∷ s) st.heater_state) [
  | none ↦ st.heater_default_state
  | some state ↦ state
]

-- The write loop: each call takes at most what is left, and one that takes nothing ends it.
unfoldable pub write_loop : Bytes → List ℕ → Bytes
write_loop data_left [] = []
write_loop data_left (ret ∷ rets) =
    let sent = take ret data_left in
    let rest = sent ++ write_loop (drop ret data_left) rets in if ret == 0 then [] else rest

abbrev zero_mac : Mac
zero_mac = record { b0 = 0; b1 = 0; b2 = 0; b3 = 0; b4 = 0; b5 = 0 }

-- The header and the message that `sendHeaterState` builds.
abbrev pub reply_header : Option Mac → ℕ → Header
reply_header own counter = record {
  version = 1;
  msg_type = heater_state_reply;
  mac = elim own [ none ↦ zero_mac | some m ↦ m ];
  counter = counter;
}

unfoldable pub reply_message : Option Mac → ℕ → HeaterState → Bytes
reply_message own counter state =
    overwrite (overwrite (replicate message_size 0xFF) 0 (header_bytes (reply_header own counter)))
      16 (state_byte state ∷ [])

unfoldable pub send_heater_state : Arrival → ℕ → HeaterState → Station → Outcome
unfolding reply_message write_loop
send_heater_state a fd state st = (
  record st { message_counter = (st.message_counter + 1) % 2 ^ 64 },
  write_fd fd (write_loop (reply_message a.own_mac st.message_counter state) a.write_returns) ∷ [],
)

-- `conn.last_seen = now`, on the first connection with the descriptor.
unfoldable pub touch : ℕ → ℕ → List DeviceConnection → List DeviceConnection
touch fd now [] = []
touch fd now (c ∷ cs) =
    if c.fd == fd then record c { last_seen = now } ∷ cs else c ∷ touch fd now cs

-- The branch for `REQ_HEATER_STATE`, behind the scan of the name.
unfoldable pub answer_request : Arrival → ℕ → Header → Bytes → Station → Outcome
unfolding has_rebooted reboot_text wanted_state send_heater_state touch insert mac_value
answer_request a fd h name st =
    let warnings =
      if has_rebooted st h then send_sms st.emergency_phone (reboot_text name h.mac) ∷ [] else [] in
    let state = wanted_state name st in
    let key = mac_value h.mac in
    let (st', sent) = send_heater_state a fd state (record st {
      connections = touch fd a.steady_now st.connections;
      heater_counter = insert key h.counter st.heater_counter;
      heaters = insert key (update a.time_now state (new_heater name a.peer_ip)) st.heaters;
    }) in
    (st', warnings ++ sent)

-- `parseMessage` behind the parse of the header: `payload` is where `data` points by then. A
-- message of another version or type changes nothing.
unfoldable pub on_header : Arrival → ℕ → Header → Bytes → Station → Outcome
unfolding scan_name check_heater_name answer_request
on_header a fd h payload st =
    if not (h.version == 1)
    then (st, [])
    else if h.msg_type == req_heater_state
    then elim (scan_name payload) [
      | none ↦ (st, out_of_bounds ∷ [])
      | some name ↦ answer_request a fd h (checked_name name) st
    ]
    else (st, [])

-- `parseMessage`.
unfoldable pub parse_message : Arrival → ℕ → Bytes → Station → Outcome
unfolding parse_header on_header
parse_message a fd message st = on_header a fd (parse_header message) (drop 16 message) st
