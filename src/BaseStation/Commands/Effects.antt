-- ===== src/BaseStation/Commands/Effects.antt =====
-- What a command may do to the world: it answers its sender, it saves what it leaves, it reboots.
use iot_heater.Prelude.{
  [], ◌∷◌, ◌≡◌, inl, inr, refl, arith, map, All, if_intro, List, Option, none, some, Option-cases,
  length, get_elem?,
}
use iot_heater.Text.{Bytes, check_heater_name, check_phone_number_format, str_eq}
use iot_heater.OrdMap.{contains}
use iot_heater.OrdMap.Keys.{str_order}
use iot_heater.BaseStation.State.{Station, Effect, send_sms, save_file, reboot, Outcome}
use iot_heater.BaseStation.Persist.{render}
use iot_heater.BaseStation.Commands.Classify.{
  Command, all_states, set_heater, get_heater, lock, unlock, add_phone, remove_phone, set_emergency,
  remove_emergency, debug_reboot, debug_log, invalid, classify_rest, classify, normalise,
  choose_tested, first_table, rest_table,
}
use iot_heater.BaseStation.Commands.Execute.{
  Probe, last_of, run_set_heater, run_unlock, run_add_phone, run_remove_phone, run_set_emergency,
  run_remove_emergency, execute, log_messages, pieces, pin, read_limited,
}
use iot_heater.BaseStation.Commands.Queue.{obey}
use iot_heater.BaseStation.Commands.Normal.{EndsInk, normalise-EndsInk, second_word}

-- An effect that a command from this sender may have, if it leaves this station behind.
abbrev pub Proper : Bytes → Station → Effect → Type 0
Proper from st (send_sms to text) = to ≡ from
Proper from st (save_file text) = text ≡ render st
Proper from st reboot = Unit {0}
Proper from st _ = ⊥

abbrev pub AllProper : Bytes → Outcome → Type 0
AllProper from o = All (Proper from o.0) o.1

-- The words of an `UNLOCK` command are two at least.
abbrev HasWords : Command → Type 0
HasWords (unlock words) = (w : Bytes) × (get_elem? words 1 ≡ some w)
HasWords _ = Unit {0}

sms_list-Proper :
    (from : Bytes) (st : Station) (texts : List Bytes)
    → All (Proper from st) (map (send_sms from) texts)
sms_list-Proper from st [] = tt
sms_list-Proper from st (t ∷ texts) = (refl, sms_list-Proper from st texts)

log_messages-Proper :
    (from : Bytes) (st : Station) (o : Option (List Bytes))
    → All (Proper from st) (log_messages from o)
log_messages-Proper from st none = unfold log_messages in (refl, tt)
log_messages-Proper from st (some chunks) = go (read_limited [] chunks) refl
  where
    go :
        (r : Bytes)
        → read_limited [] chunks ≡ r
        → All (Proper from st) (log_messages from (some chunks))
    go [] e = unfold log_messages in rw (e, log_messages) (refl, tt)
    go (c ∷ s) e =
        unfold log_messages in
        rw (e, log_messages) (sms_list-Proper from st (pieces (length (c ∷ s)) (c ∷ s)))

module _ (from : Bytes) (st : Station) where
  run_set_heater-Proper :
      (s : _) (name suffix : Bytes) → AllProper from (run_set_heater from s name suffix st)
  unfolding run_set_heater
  run_set_heater-Proper s name suffix =
      if_intro (AllProper from) (check_heater_name name) (λ _. (refl, (refl, tt))) (λ _. (refl, tt))

  run_unlock-Proper :
      (words : List Bytes) (w : Bytes)
      → get_elem? words 1 ≡ some w
      → AllProper from (run_unlock from words st)
  unfolding run_unlock
  run_unlock-Proper words w e =
      rw (e, run_unlock)
        (if_intro (AllProper from) (str_eq w pin) (λ _. (refl, tt)) (λ _. (refl, tt)))

  run_add_phone-Proper : (words : List Bytes) → AllProper from (run_add_phone from words st)
  unfolding run_add_phone
  run_add_phone-Proper words =
      if_intro (AllProper from) st.locked (λ _. tt)
        (λ _. elim (Option-cases (last_of 2 words)) [
          | inl e ↦ rw e tt
          | inr (p, e) ↦ rw e (
              if_intro (AllProper from) (check_phone_number_format p) (λ _. (refl, (refl, tt)))
                (λ _. (refl, tt)))
        ])

  run_remove_phone-Proper : (words : List Bytes) → AllProper from (run_remove_phone from words st)
  unfolding run_remove_phone
  run_remove_phone-Proper words =
      if_intro (AllProper from) st.locked (λ _. tt)
        (λ _. elim (Option-cases (last_of 2 words)) [
          | inl e ↦ rw e tt
          | inr (p, e) ↦ rw e (refl, (refl, tt))
        ])

  run_set_emergency-Proper : (words : List Bytes) → AllProper from (run_set_emergency from words st)
  unfolding run_set_emergency
  run_set_emergency-Proper words = elim (Option-cases (last_of 3 words)) [
    | inl e ↦ rw (e, run_set_emergency) tt
    | inr (p, e) ↦
        rw (e, run_set_emergency)
          (if_intro (AllProper from) (check_phone_number_format p) (λ _. (refl, (refl, tt)))
            (λ _. (refl, tt)))
  ]

execute-Proper :
    (p : Probe) (from : Bytes) (c : Command) (st : Station)
    → HasWords c
    → AllProper from (execute p from c st)
unfolding execute
execute-Proper p from (all_states s reply) st h = (refl, (refl, tt))
execute-Proper p from (set_heater s name suffix) st h = run_set_heater-Proper from st s name suffix
execute-Proper p from (get_heater name) st h =
    if_intro (AllProper from) (check_heater_name name) (λ _. (refl, tt)) (λ _. (refl, tt))
execute-Proper p from lock st h =
    if_intro (AllProper from) (contains from st.phone_whitelist) (λ _. (refl, tt)) (λ _. (refl, tt))
execute-Proper p from (unlock words) st h = run_unlock-Proper from st words h.0 h.1
execute-Proper p from (add_phone words) st h = run_add_phone-Proper from st words
execute-Proper p from (remove_phone words) st h = run_remove_phone-Proper from st words
execute-Proper p from (set_emergency words) st h = run_set_emergency-Proper from st words
execute-Proper p from remove_emergency st h = go st.emergency_phone refl
  where
    go : (e : Bytes) → st.emergency_phone ≡ e → AllProper from (run_remove_emergency from st)
    go [] e = rw (e, run_remove_emergency) tt
    go (x ∷ y) e = rw (e, run_remove_emergency) (refl, tt)
execute-Proper p from debug_log st h = log_messages-Proper from st p.journal
execute-Proper p from debug_reboot st h = (tt, tt)
execute-Proper p from _ st h = (refl, tt)

record IsCut (c : Command) : Type 0 where
  cut : HasWords c

classify-IsCut : (content : Bytes) → EndsInk content → IsCut (classify content)
unfolding classify classify_rest
classify-IsCut content ink =
    choose_tested IsCut (first_table content) (classify_rest content) (ground arith) (
      choose_tested IsCut (rest_table content) invalid (ground (arith, second_word content ink))
        (record { cut = tt }))

-- For any text message and any sender: every reply goes to the sender, every file that is written
-- holds the state that the command leaves behind, and nothing else is done but a reboot; no command
-- reads out of bounds and none touches a connection.
pub obey-AllProper :
    (p : Probe) (from content : Bytes) (st : Station) → AllProper from (obey p from content st)
unfolding obey
obey-AllProper p from content st =
    execute-Proper p from (classify (normalise content)) st
      (classify-IsCut (normalise content) (normalise-EndsInk content)).cut
