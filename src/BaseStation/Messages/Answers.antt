-- ===== src/BaseStation/Messages/Answers.antt =====
-- What a request leaves behind and what it is answered; how reboots are told.
use iot_heater.Prelude.{
  ℕ, ◌+◌, ◌*◌, ◌^◌, ◌≤◌, ◌<◌, true, false, [], ◌∷◌, ◌++◌, ◌≡◌, ◌≢◌, refl, arith, map, some, List,
  if◌then◌else◌,
}
use iot_heater.OrdMap.{find}
use iot_heater.OrdMap.Laws.{find-insert}
use iot_heater.OrdMap.Keys.{mac_order}
use iot_heater.Text.{Bytes, to_upper}
use iot_heater.Wire.{Header, header_bytes, mac_value}
use iot_heater.BaseStation.State.{Station, Effect, send_sms, write_fd, new_heater, update}
use iot_heater.BaseStation.Messages.{
  Arrival, counter_distance, has_rebooted, reboot_text, wanted_state, reply_message, write_loop,
  send_heater_state, answer_request, on_header, parse_message,
}
use iot_heater.BaseStation.Messages.Requests.{IsRequest, Alnum, IsEnd, parse_message-request}

-- The warning that goes out before the answer, if the device seems to have rebooted.
abbrev pub warnings : Station → Header → Bytes → List Effect
warnings st h name =
    if has_rebooted st h then send_sms st.emergency_phone (reboot_text name h.mac) ∷ [] else []

-- A request of version 1 with a name of letters and digits, closed by a zero byte or 0xFF, is
-- answered once: the effects are the warning of a reboot, if one shows, and what the calls of
-- `write` take of the reply with the state wanted for the name in capitals. The device is then
-- listed under its address with that name, the peer's address, the time and that state, and its
-- counter is the one of the request.
pub request_answered :
    (a : Arrival) (fd : ℕ) (h : Header) (name rest : Bytes) (e : ℕ) (st : Station)
    → IsRequest h
    → Alnum name
    → IsEnd e
    → let o = parse_message a fd (header_bytes h ++ (name ++ e ∷ rest)) st in
      let state = wanted_state (map to_upper name) st in
      (o.1
        ≡ warnings st h (map to_upper name)
          ++ (write_fd fd
                (write_loop (reply_message a.own_mac st.message_counter state) a.write_returns)
              ∷ []))
      × (find (mac_value h.mac) o.0.heaters
          ≡ some (update a.time_now state (new_heater (map to_upper name) a.peer_ip)))
      × (find (mac_value h.mac) o.0.heater_counter ≡ some h.counter)
request_answered a fd h name rest e st r al stop =
    rw (parse_message-request a fd h name rest e st r al stop) (
      unfold answer_request send_heater_state in
      (
        refl,
        ground (
          arith,
          find-insert (mac_value h.mac) (mac_value h.mac)
              (update a.time_now (wanted_state (map to_upper name) st)
                (new_heater (map to_upper name) a.peer_ip))
              st.heaters,
          mac_order.lt_irrefl (mac_value h.mac),
        ),
        ground (
          arith,
          find-insert (mac_value h.mac) (mac_value h.mac) h.counter st.heater_counter,
          mac_order.lt_irrefl (mac_value h.mac),
        ),
      ))

-- A device whose counter has gone up by at most 100 since its last request, below 2 ^ 64, is not
-- taken to have rebooted.
pub no_false_reboot :
    (st : Station) (h : Header) (old k : ℕ)
    → find (mac_value h.mac) st.heater_counter ≡ some old
    → h.counter ≡ old + k
    → k ≤ 100
    → h.counter < 2 ^ 64
    → has_rebooted st h ≡ false
unfolding has_rebooted
no_false_reboot st h old k found e small lt =
    rw (found, has_rebooted) (unfold counter_distance in ground arith)

-- A device that has drawn another upper word of 28 bits for its counter is taken to have rebooted,
-- as long as it has sent fewer than 2 ^ 31 messages since each start.
pub reboot_noticed :
    (st : Station) (h : Header) (old_word word sent i : ℕ)
    → find (mac_value h.mac) st.heater_counter ≡ some (old_word * 2 ^ 32 + sent)
    → h.counter ≡ word * 2 ^ 32 + i
    → old_word < 2 ^ 28
    → word < 2 ^ 28
    → word ≢ old_word
    → sent < 2 ^ 31
    → i < 2 ^ 31
    → has_rebooted st h ≡ true
unfolding has_rebooted
reboot_noticed st h old_word word sent i found e a b ne c d =
    rw (found, has_rebooted) (unfold counter_distance in rw e (ground arith))

-- The members that text messages set.
abbrev pub SameSettings : Station → Station → Type 0
SameSettings st st' =
    (st'.heater_default_state ≡ st.heater_default_state)
    × (st'.heater_state ≡ st.heater_state)
    × (st'.locked ≡ st.locked)
    × (st'.phone_whitelist ≡ st.phone_whitelist)
    × (st'.emergency_phone ≡ st.emergency_phone)
    × (st'.commands ≡ st.commands)

-- Whatever bytes a device sends, `parseMessage` leaves the default state, the states by name, the
-- lock, the white list, the emergency number and the queue of text messages as they were.
pub parse_message-SameSettings :
    (a : Arrival) (fd : ℕ) (message : Bytes) (st : Station)
    → SameSettings st (parse_message a fd message st).0
unfolding parse_message on_header answer_request send_heater_state
parse_message-SameSettings a fd message st = ground arith
