-- ===== src/BaseStation/Commands/Access.antt =====
-- The white list: what a locked station makes of messages from other numbers.
use iot_heater.Prelude.{true, false, List, [], ◌∷◌, ◌≡◌, ◌≢◌, refl, All, drop}
use iot_heater.OrdMap.{contains}
use iot_heater.OrdMap.Keys.{str_order}
use iot_heater.Text.{Bytes}
use iot_heater.BaseStation.State.{Station, Outcome}
use iot_heater.BaseStation.Commands.Execute.{Probes}
use iot_heater.BaseStation.Commands.Queue.{run_queue, parse_commands, then_run, is_empty}

-- The queue holds messages from outside the white list only.
abbrev pub Outsiders : Station → List (Bytes × Bytes) → Type 0
Outsiders st q = All (λ m. contains m.0 st.phone_whitelist ≡ false) q

-- Calls of `parseCommands` one after the other.
pub run_rounds : List Probes → Station → Outcome
run_rounds [] st = (st, [])
run_rounds (p ∷ ps) st = let (st', e) = parse_commands p st in then_run e (run_rounds ps st')

parse_commands-Outsiders :
    (p : Probes) (st : Station) (q : List (Bytes × Bytes))
    → st.locked ≡ true
    → is_empty st.phone_whitelist ≡ false
    → Outsiders st q
    → run_queue p q st ≡ (record st { commands = drop 1 q }, [])
unfolding run_queue
parse_commands-Outsiders p st [] l w o = refl
parse_commands-Outsiders p st ((from, content) ∷ q) l w o = rw (l, w, o.0)

drop-Outsiders :
    (st : Station) (q : List (Bytes × Bytes)) → Outsiders st q → Outsiders st (drop 1 q)
drop-Outsiders st [] o = tt
drop-Outsiders st (m ∷ q) o = o.1

-- The queue that `n` rounds leave: each takes one message off.
abbrev pub behind : List Probes → List (Bytes × Bytes) → List (Bytes × Bytes)
behind [] q = q
behind (p ∷ ps) q = behind ps (drop 1 q)

run_rounds-queue :
    (ps : List Probes) (st : Station) (q : List (Bytes × Bytes))
    → st.locked ≡ true
    → is_empty st.phone_whitelist ≡ false
    → Outsiders st q
    → run_rounds ps (record st { commands = q }) ≡ (record st { commands = behind ps q }, [])
unfolding run_rounds parse_commands
run_rounds-queue [] st q l w o = refl
run_rounds-queue (p ∷ ps) st q l w o =
    rw (parse_commands-Outsiders p (record st { commands = q }) q l w o)
      (rw (run_rounds-queue ps st (drop 1 q) l w (drop-Outsiders st q o)))

-- While the station is locked with a white list that is not empty, and all senders in the queue are
-- off the list, any number of calls of `parseCommands` has no effect, and changes nothing but the
-- queue, from which each call takes one message.
pub run_rounds-Outsiders :
    (ps : List Probes) (st : Station)
    → st.locked ≡ true
    → st.phone_whitelist ≢ []
    → Outsiders st st.commands
    → run_rounds ps st ≡ (record st { commands = behind ps st.commands }, [])
run_rounds-Outsiders ps st l w o =
    run_rounds-queue ps st st.commands l (filled st.phone_whitelist w) o
  where
    filled : {A : Type 0} (m : List A) → m ≢ [] → is_empty m ≡ false
    filled [] ne = absurd (ne refl)
    filled (x ∷ m) ne = refl
