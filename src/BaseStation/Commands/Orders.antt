-- ===== src/BaseStation/Commands/Orders.antt =====
-- The commands as orders on an abstract view of the base station: the state in which each name is
-- wanted, a function that forgets the map, the default and the order of the entries.
use iot_heater.Prelude.{
  Bool, true, false, List, [], ◌∷◌, ◌≡◌, ◌≢◌, refl, ap, ◌∙◌, sym, arith, if◌then◌else◌, Bool-cases,
  inl, inr,
}
use mathlib.Core.Path.{fun_ext}
use iot_heater.OrdMap.{same}
use iot_heater.OrdMap.Keys.{str_order}
use iot_heater.Text.{Bytes, check_heater_name}
use iot_heater.Wire.{HeaterState}
use iot_heater.BaseStation.State.{Station}
use iot_heater.BaseStation.Messages.{wanted_state}
use iot_heater.BaseStation.Commands.Classify.{Command, all_states, set_heater, classify, normalise}
use iot_heater.BaseStation.Commands.Execute.{Probes, rest_of, Probe, execute, run_set_heater}
use iot_heater.BaseStation.Commands.Queue.{obey, is_refused, run_queue, parse_commands}
use iot_heater.BaseStation.Commands.Results.{wanted_state-insert, wanted_state-set_all}

abbrev pub Wishes : Type 0
Wishes = Bytes → HeaterState

-- What a message orders, if anything: a state for one name, or for all.
pub data Order : Type 0 where
  one : Bytes → HeaterState → Order
  all : HeaterState → Order
  none_at_all : Order

abbrev pub apply_order : Order → Wishes → Wishes
apply_order (one name s) w other = if same other name then s else w other
apply_order (all s) w other = s
apply_order none_at_all w other = w other

abbrev pub order_of_command : Command → Order
order_of_command (all_states s reply) = all s
order_of_command (set_heater s name suffix) =
    if check_heater_name name then one name s else none_at_all
order_of_command _ = none_at_all

abbrev pub order_of : Bytes → Order
order_of content = order_of_command (classify (normalise content))

abbrev pub wishes : Station → Wishes
wishes st name = wanted_state name st

-- The state for a name stands on two members.
pub wanted_state-cong :
    (name : Bytes) (st st' : Station)
    → st'.heater_state ≡ st.heater_state
    → st'.heater_default_state ≡ st.heater_default_state
    → wanted_state name st' ≡ wanted_state name st
unfolding wanted_state
wanted_state-cong [] st st' e d = d
wanted_state-cong (c ∷ s) st st' e d = rw (e, d) refl

check_heater_name-ne_nil : (name : Bytes) → check_heater_name name ≡ true → name ≢ []
unfolding check_heater_name
check_heater_name-ne_nil [] h e = cc
check_heater_name-ne_nil (c ∷ s) h e = cc

run_set_heater-wishes :
    (from : Bytes) (s : HeaterState) (name suffix other : Bytes) (st : Station)
    → wanted_state other (run_set_heater from s name suffix st).0
      ≡ apply_order (if check_heater_name name then one name s else none_at_all) (wishes st) other
unfolding run_set_heater
run_set_heater-wishes from s name suffix other st = elim (Bool-cases (check_heater_name name)) [
  | inl e ↦ rw e (wanted_state-insert other name s st (check_heater_name-ne_nil name e))
  | inr e ↦ rw e refl
]

abbrev is_order : Command → Bool
is_order (all_states s reply) = true
is_order (set_heater s name suffix) = true
is_order _ = false

execute-keeps :
    (p : Probe) (from : Bytes) (c : Command) (st : Station)
    → is_order c ≡ false
    → ((execute p from c st).0.heater_state ≡ st.heater_state)
      × ((execute p from c st).0.heater_default_state ≡ st.heater_default_state)
unfolding execute
execute-keeps p from c st h = ground arith

no_order :
    (c : Command) (w : Wishes) (other : Bytes)
    → is_order c ≡ false
    → apply_order (order_of_command c) w other ≡ w other
no_order c w other h = ground arith

other-wishes :
    (p : Probe) (from : Bytes) (c : Command) (other : Bytes) (st : Station)
    → is_order c ≡ false
    → wanted_state other (execute p from c st).0
      ≡ apply_order (order_of_command c) (wishes st) other
other-wishes p from c other st h =
    let (named, default) = execute-keeps p from c st h in
    wanted_state-cong other st (execute p from c st).0 named default
    ∙ sym (no_order c (wishes st) other h)

execute-wishes :
    (p : Probe) (from : Bytes) (c : Command) (other : Bytes) (st : Station)
    → wanted_state other (execute p from c st).0
      ≡ apply_order (order_of_command c) (wishes st) other
execute-wishes p from (all_states s reply) other st =
    unfold execute in wanted_state-set_all other s st
execute-wishes p from (set_heater s name suffix) other st =
    unfold execute in run_set_heater-wishes from s name suffix other st
execute-wishes p from c other st = other-wishes p from c other st refl

obey-wishes :
    (p : Probe) (from content other : Bytes) (st : Station)
    → wanted_state other (obey p from content st).0
      ≡ apply_order (order_of content) (wishes st) other
unfolding obey
obey-wishes p from content other st = execute-wishes p from (classify (normalise content)) other st

-- The messages that a call of `parseCommands` obeys: all of the queue, or those before the first
-- one that is refused as the station stands by then.
abbrev pub obeyed : Probes → List (Bytes × Bytes) → Station → List Bytes
obeyed p [] st = []
obeyed p ((from, content) ∷ q) st =
    let rest = content ∷ obeyed (rest_of p) q (obey (p 0) from content st).0 in
    if is_refused from st then [] else rest

abbrev pub apply_orders : List Bytes → Wishes → Wishes
apply_orders [] w = w
apply_orders (content ∷ contents) w = apply_orders contents (apply_order (order_of content) w)

apply_orders-cong :
    (contents : List Bytes) (v w : Wishes)
    → ((name : Bytes) → v name ≡ w name)
    → (name : Bytes) → apply_orders contents v name ≡ apply_orders contents w name
apply_orders-cong contents v w e name =
    ap (λ (u : Wishes). apply_orders contents u name) (fun_ext e)

run_queue-wishes :
    (p : Probes) (q : List (Bytes × Bytes)) (st : Station) (name : Bytes)
    → wanted_state name (run_queue p q st).0 ≡ apply_orders (obeyed p q st) (wishes st) name
unfolding run_queue
run_queue-wishes p [] st name = wanted_state-cong name st _ refl refl
run_queue-wishes p ((from, content) ∷ q) st name = elim (Bool-cases (is_refused from st)) [
  | inl e ↦ rw (e, obeyed) (wanted_state-cong name st _ refl refl)
  | inr e ↦
      rw (e, obeyed)
        (run_queue-wishes (rest_of p) q (obey (p 0) from content st).0 name
          ∙ apply_orders-cong (obeyed (rest_of p) q (obey (p 0) from content st).0) _ _
              (λ other. obey-wishes (p 0) from content other st) name)
]

-- The state wanted for each name after `parseCommands` is what the obeyed messages, one after the
-- other, make of the one before.
pub parse_commands-refines :
    (p : Probes) (st : Station)
    → wishes (parse_commands p st).0 ≡ apply_orders (obeyed p st.commands st) (wishes st)
unfolding parse_commands
parse_commands-refines p st = fun_ext (run_queue-wishes p st.commands st)
