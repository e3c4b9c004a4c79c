-- ===== src/Exchange.antt =====
-- The controller and the base station together: a request of heater_firmware/commissioned.cpp, as
-- `parseMessage` of base_station.cpp answers it.
pub mod Transfer
pub mod Request
pub mod Orders
pub mod Pins
use iot_heater.Prelude.{
  ℕ, ◌+◌, ◌-◌, ◌^◌, ◌%◌, ◌≤◌, ◌<◌, true, false, List, [], ◌∷◌, ◌++◌, ◌≡◌, ◌≢◌, refl, ap, sym, ◌∙◌,
  arith, All, map, length, length-append, length-drop, take, drop, take-all, take-append-drop,
  append_assoc, append-nil, replicate, ltb, ◌==◌, inl,
}
use iot_heater.Text.{Bytes, to_upper}
use iot_heater.Wire.{
  HeaterState, off, defrost, eco, comfort, Header, message_size, req_heater_state, overwrite,
  header_bytes, parse_header, byte_at, state_byte, le_bytes,
}
use iot_heater.BaseStation.State.{Station, write_fd}
use iot_heater.BaseStation.Commands.Execute.{concat}
use iot_heater.BaseStation.Messages.{
  Arrival, wanted_state, reply_message, write_loop, parse_message,
}
use iot_heater.BaseStation.Messages.Reply.{write_loop-whole}
use iot_heater.BaseStation.Messages.Requests.{IsRequest, Alnum}
use iot_heater.BaseStation.Messages.Answers.{warnings, request_answered}
use iot_heater.Firmware.Settings.{Platform, created, settings_get_name}
use iot_heater.Firmware.Settings.Check.{char_array-shape}
use iot_heater.Firmware.Commissioned.Device.{Device, ErrorQueue, apply_heater_state}
use iot_heater.Firmware.Commissioned.Talk.{
  Turn, Verdict, wants, try_connect, send_loop, receive_loop, request_message, judge, talk,
  conclude, request_state,
}
use iot_heater.Exchange.Transfer.{send_loop-whole, receive_loop-concat, judge-reply_message}
use iot_heater.Exchange.Request.{request_header, named_request}

-- Nothing is lost on the way to the base station and back: a connection is made, each `write`
-- takes a byte at least, the reply is there in time and is read in pieces that are not empty.
pub record IsServed (t : Turn) (a : Arrival) (reply : Bytes) : Type 0 where
  pub connects : try_connect 3 t.connects ≡ true
  pub writes_some : All (λ r. 0 < r) t.writes
  pub writes_enough : message_size ≤ length t.writes
  pub answers_some : All (λ r. 0 < r) a.write_returns
  pub answers_enough : message_size ≤ length a.write_returns
  pub in_time : t.in_time ≡ true
  pub reads_some : All (λ b. b ≢ []) t.reads
  pub reads_reply : concat t.reads ≡ reply

-- The controller's side.
talk-served :
    (eq : ErrorQueue) (t : Turn) (d : Device eq.Queue) (a : Arrival) (counter : ℕ) (s : HeaterState)
    → IsServed t a (reply_message a.own_mac counter s)
    → length (request_message t d) ≡ message_size
    → talk t d ≡ (request_message t d, wants (state_byte s))
unfolding talk
talk-served eq t d a counter s g size =
    let sent =
      send_loop-whole (request_message t d) t.writes g.writes_some
        (omega (arith, size, g.writes_enough)) in
    let reply_size : length (reply_message a.own_mac counter s) ≡ 64 =
      unfold reply_message le_bytes in refl in
    let got =
      receive_loop-concat t.reads [] g.reads_some
        (omega (arith, ap length g.reads_reply, reply_size)) in
    rw (sent, g.in_time, got, g.reads_reply, judge-reply_message a counter s) refl

request_state-served :
    (eq : ErrorQueue) (t : Turn) (d : Device eq.Queue) (a : Arrival) (counter : ℕ) (s : HeaterState)
    → IsServed t a (reply_message a.own_mac counter s)
    → length (request_message t d) ≡ message_size
    → request_state eq t d ≡ (
      conclude eq t
          (wants (state_byte s))
          (record d { msg_counter = (d.msg_counter + 1) % 2 ^ 64 }),
      request_message t d,
    )
unfolding request_state
request_state-served eq t d a counter s g size =
    let counted : Device eq.Queue = record d { msg_counter = (d.msg_counter + 1) % 2 ^ 64 } in
    rw g.connects (
      ap (λ (r : Bytes × Verdict). (conclude eq t r.1 counted, r.0))
        (talk-served eq t d a counter s g size))

conclude-wants :
    (eq : ErrorQueue) (t : Turn) (s : ℕ) (d : Device eq.Queue)
    → let d' = conclude eq t (wants s) d in
      (d'.heater_state ≡ s) × (d'.failure_count ≡ 0) × (d'.msg_counter ≡ d.msg_counter)
unfolding conclude apply_heater_state
conclude-wants eq t s d = ground arith

-- A controller that was set up under a name of at most 31 letters and digits, with a counter
-- below 2 ^ 64, sends its request over a connection that loses nothing: `parseMessage` answers with
-- the state wanted for the name in capitals, behind the warning of a reboot if one shows; on
-- reading that answer, in whatever pieces, the controller takes on that state, clears its count of
-- failures and has moved its counter on by one.
pub exchange :
    (p : Platform) (eq : ErrorQueue) (a : Arrival) (fd : ℕ) (t : Turn) (d : Device eq.Queue)
    (st : Station) (name ssid password addr : Bytes)
    → d.settings ≡ created p name ssid password addr
    → Alnum name
    → length name < 32
    → d.msg_counter < 2 ^ 64
    → IsServed t a
        (reply_message a.own_mac st.message_counter (wanted_state (map to_upper name) st))
    → let state = wanted_state (map to_upper name) st in
      let (d', sent) = request_state eq t d in
      ((parse_message a fd sent st).1
        ≡ warnings st (request_header t d) (map to_upper name)
          ++ (write_fd fd (reply_message a.own_mac st.message_counter state) ∷ []))
      × (d'.heater_state ≡ state_byte state)
      × (d'.failure_count ≡ 0)
      × (d'.msg_counter ≡ (d.msg_counter + 1) % 2 ^ 64)
exchange p eq a fd t d st name ssid password addr named al short lt g =
    let state : HeaterState = wanted_state (map to_upper name) st in
    let (rest, shape, size) = named_request p t d name ssid password addr named short in
    let h : Header = request_header t d in
    let req : IsRequest h = record { version_1 = refl; type_1 = refl; counter_lt = lt } in
    let reply : Bytes = reply_message a.own_mac st.message_counter state in
    let reply_size : length reply ≡ 64 = unfold reply_message le_bytes in refl in
    let whole : write_loop reply a.write_returns ≡ reply =
      write_loop-whole reply a.write_returns g.answers_some
        (omega (arith, reply_size, g.answers_enough)) in
    let answered : (parse_message a fd (request_message t d) st).1
        ≡ warnings st h (map to_upper name) ++ (write_fd fd reply ∷ []) =
      ap (λ (b : Bytes). (parse_message a fd b st).1) shape
      ∙ (request_answered a fd h name rest 0 st req al (inl refl)).0
      ∙ ap (λ (b : Bytes). warnings st h (map to_upper name) ++ (write_fd fd b ∷ [])) whole in
    let r = request_state-served eq t d a st.message_counter state g size in
    let counted : Device eq.Queue = record d { msg_counter = (d.msg_counter + 1) % 2 ^ 64 } in
    let (e1, e2, e3) = conclude-wants eq t (state_byte state) counted in
    (
      ap (λ (x : Device eq.Queue × Bytes). (parse_message a fd x.1 st).1) r ∙ answered,
      ap (λ (x : Device eq.Queue × Bytes). x.0.heater_state) r ∙ e1,
      ap (λ (x : Device eq.Queue × Bytes). x.0.failure_count) r ∙ e2,
      ap (λ (x : Device eq.Queue × Bytes). x.0.msg_counter) r ∙ e3,
    )
