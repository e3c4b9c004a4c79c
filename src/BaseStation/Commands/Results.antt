-- ===== src/BaseStation/Commands/Results.antt =====
-- What the commands on heaters do, seen through the state that each name is wanted in.
use iot_heater.Prelude.{[], ◌∷◌, ◌++◌, ◌≡◌, ◌≢◌, refl, ap, ◌∙◌, arith, if◌then◌else◌, some, none}
use iot_heater.OrdMap.{find, insert, same}
use iot_heater.OrdMap.Laws.{find-insert, find-map_values}
use iot_heater.OrdMap.Keys.{str_order}
use iot_heater.Text.{Bytes, codes, check_heater_name, str_lt}
use iot_heater.Wire.{HeaterState, off, defrost, eco, comfort}
use iot_heater.BaseStation.State.{Station, Outcome, state_label}
use iot_heater.BaseStation.Validity.{IsName}
use iot_heater.BaseStation.Messages.{wanted_state}
use iot_heater.BaseStation.Commands.Classify.{Command, classify, normalise}
use iot_heater.BaseStation.Commands.Execute.{
  Probe, execute, run_set_heater, run_get_heater, saved, replied, set_all,
}
use iot_heater.BaseStation.Commands.Queue.{obey}
use iot_heater.BaseStation.Commands.Grammar.{
  Suffix, suffix_state, heater_text, classify-heater_text, classify-get_heater,
}

-- A name that is not empty is looked up.
pub wanted_state-insert :
    (other name : Bytes) (s : HeaterState) (st : Station)
    → name ≢ []
    → wanted_state other (record st { heater_state = insert name s st.heater_state })
      ≡ (if same other name then s else wanted_state other st)
unfolding wanted_state
wanted_state-insert [] [] s st ne = absurd (ne refl)
wanted_state-insert [] (c ∷ n) s st ne = unfold str_lt in refl
wanted_state-insert (d ∷ o) name s st ne =
    ground (arith, find-insert (d ∷ o) name s st.heater_state)

IsName-ne_nil : (n : Bytes) → IsName n → n ≢ []
unfolding check_heater_name
IsName-ne_nil [] h e = cc (h.checked)
IsName-ne_nil (c ∷ n) h e = cc

-- The whole effect of `HEATER <name> <state>`.
obey-heater_text :
    (p : Probe) (from content name : Bytes) (w : Suffix) (st : Station)
    → IsName name
    → normalise content ≡ heater_text name w
    → obey p from content st
      ≡ saved from
          (heater_text name w)
          (record st { heater_state = insert name (suffix_state w) st.heater_state })
unfolding obey execute run_set_heater
obey-heater_text p from content name w st n e = rw (e, classify-heater_text name w) (rw n.checked)

-- A text that normalises to `HEATER <name> <state>`, with a well-formed name, sets the state wanted
-- for that name to the one the word stands for, and changes it for no other name.
pub heater_command :
    (p : Probe) (from content name other : Bytes) (w : Suffix) (st : Station)
    → IsName name
    → normalise content ≡ heater_text name w
    → wanted_state other (obey p from content st).0
      ≡ (if same other name then suffix_state w else wanted_state other st)
heater_command p from content name other w st n e =
    ap (λ (o : Outcome). wanted_state other o.0) (obey-heater_text p from content name w st n e)
    ∙ wanted_state-insert other name (suffix_state w) st (IsName-ne_nil name n)

-- The texts of the `ALL` commands with the state that each sets.
pub data AllText : Bytes → HeaterState → Type 0 where
  all_off : {t : Bytes} → t ≡ codes "ALL OFF" → AllText t off
  all_eco : {t : Bytes} → t ≡ codes "ALL ECO" → AllText t eco
  all_defrost : {t : Bytes} → t ≡ codes "ALL DEFROST" → AllText t defrost
  all_comfort : {t : Bytes} → t ≡ codes "ALL COMFORT" → AllText t comfort
  all_on : {t : Bytes} → t ≡ codes "ALL ON" → AllText t comfort

obey-AllText :
    (p : Probe) (from content : Bytes) {s : HeaterState} (st : Station)
    → AllText (normalise content) s
    → obey p from content st ≡ saved from (normalise content) (set_all s st)
unfolding obey classify execute
obey-AllText p from content st (all_off e) = rw e
obey-AllText p from content st (all_eco e) = rw e
obey-AllText p from content st (all_defrost e) = rw e
obey-AllText p from content st (all_comfort e) = rw e
obey-AllText p from content st (all_on e) = rw e

pub wanted_state-set_all :
    (name : Bytes) (s : HeaterState) (st : Station) → wanted_state name (set_all s st) ≡ s
unfolding wanted_state
wanted_state-set_all [] s st = refl
wanted_state-set_all (c ∷ n) s st = ground (arith, find-map_values (λ _. s) (c ∷ n) st.heater_state)

-- A text that normalises to `ALL <state>` sets the state wanted for every name, known or not.
pub all_command :
    (p : Probe) (from content name : Bytes) {s : HeaterState} (st : Station)
    → AllText (normalise content) s
    → wanted_state name (obey p from content st).0 ≡ s
all_command p from content name {s} st t =
    ap (λ (o : Outcome). wanted_state name o.0) (obey-AllText p from content st t)
    ∙ wanted_state-set_all name s st

abbrev pub heater_reply : Bytes → Bytes → HeaterState → Station → Outcome
heater_reply from key s st = replied from (codes "HEATER " ++ (key ++ (b' ' ∷ state_label s))) st

run_get_heater-IsName :
    (from name : Bytes) (st : Station)
    → IsName name
    → run_get_heater from name st ≡ heater_reply from name (wanted_state name st) st
unfolding run_get_heater wanted_state
run_get_heater-IsName from [] st n = absurd (IsName-ne_nil [] n refl)
run_get_heater-IsName from (c ∷ s) st n = rw n.checked (
    ap
      (λ (key : Bytes).
        heater_reply from key
          (elim (find key st.heater_state) [ some s ↦ s | none ↦ st.heater_default_state ]) st)
      n.capitals
    ∙ ap (λ (s' : HeaterState). heater_reply from (c ∷ s) s' st) (ground arith))

-- A text that normalises to `GET HEATER <name>`, with a well-formed name, changes nothing and is
-- answered with the state that a controller of that name would be sent.
pub get_heater_command :
    (p : Probe) (from content name : Bytes) (st : Station)
    → IsName name
    → normalise content ≡ codes "GET HEATER " ++ name
    → obey p from content st ≡ heater_reply from name (wanted_state name st) st
unfolding obey
get_heater_command p from content name st n e =
    ap (λ (t : Bytes). execute p from (classify t) st) e
    ∙ ap (λ (c : Command). execute p from c st) (classify-get_heater name)
    ∙ (unfold execute in run_get_heater-IsName from name st n)

-- `HEATER OFF` without a name sets a heater named OFF.
pub heater_without_name :
    (p : Probe) (from : Bytes) (st : Station)
    → obey p from (codes "HEATER OFF") st
      ≡ saved from
          (codes "HEATER OFF OFF")
          (record st { heater_state = insert (codes "OFF") off st.heater_state })
unfolding obey
heater_without_name p from st = refl
