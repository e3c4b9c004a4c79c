-- ===== src/Exchange/Pins.antt =====
-- A pass of `loop_commissioned` on a message of sms_receiver.cpp: from the text to the output pins.
use iot_heater.Prelude.{
  ℕ, ◌<◌, true, false, List, [], ◌∷◌, ◌++◌, Option, some, ◌≡◌, ◌≢◌, refl, ap, sym, ◌∙◌, subst, All,
  map, length, if◌then◌else◌, ◌==◌, ◌^◌,
}
use iot_heater.OrdMap.{same}
use iot_heater.OrdMap.Keys.{str_order}
use iot_heater.Text.{Bytes, to_upper}
use iot_heater.Text.Lines.{Free}
use iot_heater.Wire.{HeaterState, state_byte}
use iot_heater.Sms.Receiver.{join_lines}
use iot_heater.Sms.Receiver.Incoming.{sms_file, Digits}
use iot_heater.BaseStation.State.{Station, write_fd}
use iot_heater.BaseStation.Validity.{IsName}
use iot_heater.BaseStation.Messages.{Arrival, wanted_state, reply_message, parse_message}
use iot_heater.BaseStation.Messages.Requests.{Alnum}
use iot_heater.BaseStation.Messages.Answers.{warnings}
use iot_heater.BaseStation.Commands.Classify.{normalise}
use iot_heater.BaseStation.Commands.Queue.{is_refused, handle_sms_command}
use iot_heater.BaseStation.Commands.Grammar.{Suffix, suffix_state, heater_text}
use iot_heater.BaseStation.Process.{Round, process}
use iot_heater.Services.Watcher.{changed, incoming_dir, run}
use iot_heater.Services.Watcher.Delivery.{message_file-queued}
use iot_heater.Firmware.Settings.{Platform, created}
use iot_heater.Firmware.Commissioned.Device.{Device, ErrorQueue}
use iot_heater.Firmware.Commissioned.Talk.{Turn, request_state}
use iot_heater.Firmware.Commissioned.Loop.{running, loop_commissioned}
use iot_heater.Firmware.Commissioned.Drive.{
  IsDriven, positive_half, negative_half, EndsDriven, loop-IsDriven,
}
use iot_heater.Exchange.{IsServed, exchange}
use iot_heater.Exchange.Request.{request_header}
use iot_heater.Exchange.Orders.{unless_tripped, process-order}

module _ (p : Platform) (eq : ErrorQueue) where
  -- The controller as it comes to the request: the button is up, the event is cleared.
  abbrev pub requesting : Device eq.Queue → Device eq.Queue
  requesting d = record d { button_pressed = false; request_event = false }

  -- A pass with the button up, a network and a request due, if it is answered with a state.
  loop-request :
      (t : Turn) (d : Device eq.Queue) (m : p.Memory)
      → (t.button == 0) ≡ false
      → t.online ≡ true
      → d.request_event ≡ true
      → (request_state eq t (requesting d)).0.failure_count ≡ 0
      → loop_commissioned p eq t d m
        ≡ running (request_state eq t (requesting d)).0 (request_state eq t (requesting d)).1
  unfolding loop_commissioned
  loop-request t d m up online due fine = rw (up, online, due, fine) refl

ordered_itself : (key : Bytes) (s t : HeaterState) → (if same key key then s else t) ≡ s
ordered_itself key s t = rw (str_order.lt_irrefl key) refl

-- An order by text message, from the file to the pins. The file that the receiver is told of names a
-- sender of digits and comes, behind its header, to `HEATER <name> <state>` with the name, in
-- capitals, of a controller that was set up under at most 31 letters and digits; no message waits,
-- and the sender is not refused. Then a round of the main loop, whatever else it meets, has
-- `parseMessage` answer the next request of the controller with the state ordered, or with DEFROST
-- if a check counts its sixth failure in this round; and the pass of the controller that makes this
-- request, with the button up, its pins at its state, its counter below 2 ^ 64 and a connection that
-- loses nothing, ends with the state of the answer and its two pins at the levels of that state: the
-- positive one is up for OFF and ECO, the negative one for DEFROST and ECO.
pub text_message-pins :
    (p : Platform) (eq : ErrorQueue) (r : Round) (from file : Bytes)
    (header text others : List Bytes) (files : Bytes → Option Bytes) (w : Suffix)
    (name ssid password addr : Bytes) (a : Arrival) (fd : ℕ) (t : Turn) (d : Device eq.Queue)
    (m : p.Memory) (st : Station)
    → Digits from
    → All (Free b'\n') header
    → All (λ l. l ≢ []) header
    → All (Free b'\n') text
    → files (incoming_dir ++ file) ≡ some (sms_file from header text)
    → st.commands ≡ []
    → is_refused from st ≡ false
    → IsName (map to_upper name)
    → normalise (join_lines text) ≡ heater_text (map to_upper name) w
    → d.settings ≡ created p name ssid password addr
    → Alnum name
    → length name < 32
    → d.msg_counter < 2 ^ 64
    → IsDriven d
    → (t.button == 0) ≡ false
    → t.online ≡ true
    → d.request_event ≡ true
    → let told = (run handle_sms_command true true (changed file others files ∷ []) st).state in
      let st' = (process r told).0 in
      let state = unless_tripped r st (suffix_state w) in
      IsServed t a (reply_message a.own_mac st'.message_counter state)
      → (d' : Device eq.Queue) × (sent : Bytes) × (loop_commissioned p eq t d m ≡ running d' sent)
        × ((parse_message a fd sent st').1
            ≡ warnings st' (request_header t d) (map to_upper name)
              ++ (write_fd fd (reply_message a.own_mac st'.message_counter state) ∷ []))
        × (d'.heater_state ≡ state_byte state)
        × (d'.positive ≡ positive_half (state_byte state))
        × (d'.negative ≡ negative_half (state_byte state))
unfolding is_refused
text_message-pins p eq r from file header text others files w name ssid password addr a fd t d m st
      digits f1 f2 f3 found empty trusted key order named al short lt driven up online due g =
    let k : Bytes = map to_upper name in
    let told : Station =
      (run handle_sms_command true true (changed file others files ∷ []) st).state in
    let queued : Station = record st { commands = (from, join_lines text) ∷ [] } in
    let st' : Station = (process r told).0 in
    let state : HeaterState = unless_tripped r st (suffix_state w) in
    let arrived : told ≡ queued =
      message_file-queued from file header text others files st digits f1 f2 f3 found empty in
    let wanted : wanted_state k st' ≡ state =
      ap (λ (s : Station). wanted_state k (process r s).0) arrived
      ∙ process-order r from (join_lines text) k k w queued refl trusted key order
      ∙ ap (unless_tripped r st) (ordered_itself k (suffix_state w) (wanted_state k queued)) in
    let d0 : Device eq.Queue = requesting p eq d in
    let served : IsServed t a (reply_message a.own_mac st'.message_counter (wanted_state k st')) =
      subst (λ (s : HeaterState). IsServed t a (reply_message a.own_mac st'.message_counter s))
        (sym wanted) g in
    let (answer, taken, fine, counted) =
      exchange p eq a fd t d0 st' name ssid password addr named al short lt served in
    let d' : Device eq.Queue = (request_state eq t d0).0 in
    let sent : Bytes = (request_state eq t d0).1 in
    let passed : loop_commissioned p eq t d m ≡ running d' sent =
      loop-request p eq t d m up online due fine in
    let (bound, positive, negative) : IsDriven d' =
      unfold EndsDriven in subst (EndsDriven p eq) passed (loop-IsDriven p eq t d m driven) in
    let took : d'.heater_state ≡ state_byte state = taken ∙ ap state_byte wanted in
    (
      d',
      sent,
      passed,
      answer
          ∙ ap
              (λ (s : HeaterState).
                warnings st' (request_header t d) k
                ++ (write_fd fd (reply_message a.own_mac st'.message_counter s) ∷ []))
              wanted,
      took,
      positive ∙ ap positive_half took,
      negative ∙ ap negative_half took,
    )
