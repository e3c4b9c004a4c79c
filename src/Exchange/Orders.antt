-- ===== src/Exchange/Orders.antt =====
-- From a text message to the output pins: sms_receiver.cpp, `BaseStation::process` and
-- `loop_commissioned` together.
use iot_heater.Prelude.{false, List, [], ◌∷◌, ◌≡◌, refl, ap, ◌∙◌, if◌then◌else◌, if_intro}
use iot_heater.OrdMap.{same}
use iot_heater.OrdMap.Keys.{str_order}
use iot_heater.Text.{Bytes}
use iot_heater.Wire.{HeaterState, defrost}
use iot_heater.BaseStation.State.{Station, Outcome, DeviceConnection}
use iot_heater.BaseStation.Validity.{IsName}
use iot_heater.BaseStation.Messages.{wanted_state}
use iot_heater.BaseStation.Messages.Answers.{SameSettings}
use iot_heater.BaseStation.Commands.Classify.{normalise}
use iot_heater.BaseStation.Commands.Queue.{is_refused}
use iot_heater.BaseStation.Commands.Grammar.{
  Suffix, suffix_state, heater_text, classify-heater_text,
}
use iot_heater.BaseStation.Commands.Orders.{
  Wishes, Order, one, apply_order, apply_orders, order_of, obeyed, wishes,
}
use iot_heater.BaseStation.Connections.{
  Ready, read_loop, serve, serve_all, has_fd, handle_connections,
}
use iot_heater.BaseStation.Checks.{module_3g_error_threshold, daemon_error_threshold}
use iot_heater.BaseStation.Process.{Round, process}
use iot_heater.BaseStation.Process.Invariant.{serve-SameSettings}
use iot_heater.BaseStation.Process.Rounds.{trips, process-refines}

-- What the check of the sender reads is the same before and after the devices are served.
SameSettings-is_refused :
    (from : Bytes) (st st' : Station)
    → SameSettings st st'
    → is_refused from st' ≡ is_refused from st
unfolding is_refused
SameSettings-is_refused from st st' (d, s, l, w, e, q) = rw (l, w) refl

serve_all-is_refused :
    (from : Bytes) (rs : List Ready) (st : Station)
    → is_refused from (serve_all rs st).0 ≡ is_refused from st
unfolding serve_all
serve_all-is_refused from [] st = refl
serve_all-is_refused from (r ∷ rs) st =
    let found = serve r (read_loop r.reads []) st in
    let next : Station = (if has_fd r.fd st.connections then found else (st, [])).0 in
    let first : is_refused from next ≡ is_refused from st =
      if_intro (λ (o : Outcome). is_refused from o.0 ≡ is_refused from st)
        (has_fd r.fd st.connections)
        (λ _.
          SameSettings-is_refused from st found.0 (serve-SameSettings r (read_loop r.reads []) st))
        (λ _. refl) in
    serve_all-is_refused from rs next ∙ first

handle_connections-is_refused :
    (from : Bytes) (rs : List Ready) (st : Station)
    → is_refused from (handle_connections rs st).0 ≡ is_refused from st
unfolding handle_connections
handle_connections-is_refused from rs st = go st.connections
  where
    go :
        (cs : List DeviceConnection)
        → is_refused from (elim cs as (λ _. Outcome) [ [] ↦ (st, []) | c ∷ cs ↦ serve_all rs st ]).0
          ≡ is_refused from st
    go [] = refl
    go (c ∷ cs) = serve_all-is_refused from rs st

-- The state ordered, unless a check counts its sixth failure in the round.
abbrev pub unless_tripped : Round → Station → HeaterState → HeaterState
unless_tripped r st s =
    if trips r.daemon_fired r.daemon_running st.daemon_error_counter daemon_error_threshold
    then defrost
    else (if trips r.module_fired r.module_present st.module_error_counter module_3g_error_threshold
        then defrost
        else s)

order_of-heater_text :
    (content name : Bytes) (w : Suffix)
    → IsName name
    → normalise content ≡ heater_text name w
    → order_of content ≡ one name (suffix_state w)
order_of-heater_text content name w n e = rw (e, classify-heater_text name w, n.checked) refl

-- A round in which one message waits, an order for one name from a sender who is not refused.
pub process-order :
    (r : Round) (from content name other : Bytes) (w : Suffix) (st : Station)
    → st.commands ≡ (from, content) ∷ []
    → is_refused from st ≡ false
    → IsName name
    → normalise content ≡ heater_text name w
    → wanted_state other (process r st).0
      ≡ unless_tripped r st (if same other name then suffix_state w else wanted_state other st)
process-order r from content name other w st q nr n e =
    let a : Station = (handle_connections r.ready st).0 in
    let fine : is_refused from a ≡ false = handle_connections-is_refused from r.ready st ∙ nr in
    let taken : obeyed r.probe st.commands a ≡ content ∷ [] =
      ap (λ (l : List (Bytes × Bytes)). obeyed r.probe l a) q ∙ rw fine refl in
    ap (λ (v : Wishes). v other) (process-refines r st)
    ∙ ap (λ (l : List Bytes). unless_tripped r st (apply_orders l (wishes st) other)) taken
    ∙ ap (λ (o : Order). unless_tripped r st (apply_order o (wishes st) other))
        (order_of-heater_text content name w n e)
