-- ===== src/BaseStation/Commands/Queue.antt =====
-- The loop of `parseCommands` over the queue, with its check of the sender, and
-- `handleSMSCommand`, which fills the queue.
use iot_heater.Prelude.{Bool, true, false, not, ◌&&◌, List, [], ◌∷◌, ◌++◌, if◌then◌else◌}
use iot_heater.OrdMap.{contains}
use iot_heater.OrdMap.Keys.{str_order}
use iot_heater.Text.{Bytes}
use iot_heater.BaseStation.State.{Station, Effect, Outcome}
use iot_heater.BaseStation.Commands.Classify.{classify, normalise}
use iot_heater.BaseStation.Commands.Execute.{Probes, rest_of, Probe, execute}

abbrev pub is_empty {ℓ} : {A : Type ℓ} → List A → Bool
is_empty [] = true
is_empty (x ∷ xs) = false

-- The test under which a message is dropped in silence.
unfoldable pub is_refused : Bytes → Station → Bool
is_refused from st =
    st.locked && (not (is_empty st.phone_whitelist) && not (contains from st.phone_whitelist))

-- The rest of the loop's body.
unfoldable pub obey : Probe → Bytes → Bytes → Station → Outcome
unfolding classify normalise execute
obey p from content st = execute p from (classify (normalise content)) st

abbrev pub then_run : List Effect → Outcome → Outcome
then_run e (st, e') = (st, e ++ e')

-- The loop, on the queue. A refused message is popped and ends the call.
unfoldable pub run_queue : Probes → List (Bytes × Bytes) → Station → Outcome
unfolding is_refused
run_queue p [] st = (record st { commands = [] }, [])
run_queue p ((from, content) ∷ queue) st =
    let done = obey (p 0) from content st in
    let rest = then_run done.1 (run_queue (rest_of p) queue done.0) in
    if is_refused from st then (record st { commands = queue }, []) else rest

unfoldable pub parse_commands : Probes → Station → Outcome
unfolding run_queue
parse_commands p st = run_queue p st.commands st

-- `handleSMSCommand`, called by the thread that receives text messages.
unfoldable pub handle_sms_command : Bytes → Bytes → Station → Station
handle_sms_command from content st = record st { commands = st.commands ++ (from, content) ∷ [] }
