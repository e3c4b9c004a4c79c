-- ===== src/BaseStation/Commands/Synced.antt =====
-- The state file follows the members of the user: a restart after any command finds them again,
-- but for the one command that does not save.
use iot_heater.Prelude.{
  Bool, true, false, [], ◌∷◌, ◌++◌, ◌≡◌, ◌⊎◌, inl, inr, refl, map, if_intro, List, Option, none,
  some, Option-cases, length, get_elem?,
}
use iot_heater.OrdMap.{contains}
use iot_heater.OrdMap.Keys.{str_order}
use iot_heater.Text.{Bytes, str_eq, check_heater_name, check_phone_number_format}
use iot_heater.Wire.{HeaterState}
use iot_heater.BaseStation.State.{Station, Effect, send_sms, save_file, Outcome, initial}
use iot_heater.BaseStation.Persist.{render, load_state}
use iot_heater.BaseStation.Persist.RoundTrip.{restored}
use iot_heater.BaseStation.Commands.Classify.{
  Command, all_states, set_heater, get_heater, lock, unlock, add_phone, remove_phone, set_emergency,
  remove_emergency, debug_log,
}
use iot_heater.BaseStation.Commands.Execute.{
  Probe, last_of, run_set_heater, run_unlock, run_add_phone, run_remove_phone, run_set_emergency,
  execute, log_messages, pieces, pin, read_limited,
}

-- The state file after some effects, if it can be written. `none` is a file that is not there.
unfoldable pub file_after : Option Bytes → List Effect → Option Bytes
file_after f [] = f
file_after f (save_file t ∷ es) = file_after (some t) es
file_after f (_ ∷ es) = file_after f es

pub file_after-append :
    (f : Option Bytes) (es fs : List Effect)
    → file_after f (es ++ fs) ≡ file_after (file_after f es) fs
unfolding file_after
file_after-append f [] fs = refl
file_after-append f (save_file t ∷ es) fs = file_after-append (some t) es fs
file_after-append f (_ ∷ es) fs = file_after-append f es fs

-- A restart from the file finds the members of the user.
abbrev pub IsSynced : Option Bytes → Station → Type 0
IsSynced f st = (t : Bytes) × (f ≡ some t) × (load_state t initial ≡ restored st initial)

-- A command saves what it leaves, or leaves the file and what it holds alone.
abbrev pub Keeps : Option Bytes → Station → Outcome → Type 0
Keeps f st o =
    (file_after f o.1 ≡ some (render o.0))
    ⊎ ((file_after f o.1 ≡ f) × (restored o.0 initial ≡ restored st initial))

file_after-sms_list :
    (f : Option Bytes) (from : Bytes) (texts : List Bytes)
    → file_after f (map (send_sms from) texts) ≡ f
unfolding file_after
file_after-sms_list f from [] = refl
file_after-sms_list f from (t ∷ texts) = file_after-sms_list f from texts

file_after-log_messages :
    (f : Option Bytes) (from : Bytes) (o : Option (List Bytes))
    → file_after f (log_messages from o) ≡ f
unfolding file_after
file_after-log_messages f from none = unfold log_messages in refl
file_after-log_messages f from (some chunks) = go (read_limited [] chunks) refl
  where
    go :
        (r : Bytes)
        → read_limited [] chunks ≡ r
        → file_after f (log_messages from (some chunks)) ≡ f
    go [] e = unfold log_messages in rw (e, log_messages) refl
    go (c ∷ s) e =
        unfold log_messages in
        rw (e, log_messages) (file_after-sms_list f from (pieces (length (c ∷ s)) (c ∷ s)))

module _ (f : Option Bytes) (from : Bytes) (st : Station) where
  run_set_heater-Keeps :
      (s : HeaterState) (name suffix : Bytes) → Keeps f st (run_set_heater from s name suffix st)
  unfolding run_set_heater file_after
  run_set_heater-Keeps s name suffix =
      if_intro (Keeps f st) (check_heater_name name) (λ _. inl refl) (λ _. inr (refl, refl))

  run_unlock-Keeps : (words : List Bytes) → Keeps f st (run_unlock from words st)
  unfolding run_unlock file_after
  run_unlock-Keeps words = elim (Option-cases (get_elem? words 1)) [
    | inl e ↦ rw (e, run_unlock) (inr (refl, refl))
    | inr (w, e) ↦
        rw (e, run_unlock)
          (if_intro (Keeps f st) (str_eq w pin) (λ _. inr (refl, refl)) (λ _. inr (refl, refl)))
  ]

  run_add_phone-Keeps : (words : List Bytes) → Keeps f st (run_add_phone from words st)
  unfolding run_add_phone file_after
  run_add_phone-Keeps words =
      if_intro (Keeps f st) st.locked (λ _. inr (refl, refl))
        (λ _. elim (Option-cases (last_of 2 words)) [
          | inl e ↦ rw e (inr (refl, refl))
          | inr (p, e) ↦ rw e (
              if_intro (Keeps f st) (check_phone_number_format p) (λ _. inl refl)
                (λ _. inr (refl, refl)))
        ])

  run_remove_phone-Keeps : (words : List Bytes) → Keeps f st (run_remove_phone from words st)
  unfolding run_remove_phone file_after
  run_remove_phone-Keeps words =
      if_intro (Keeps f st) st.locked (λ _. inr (refl, refl))
        (λ _. elim (Option-cases (last_of 2 words)) [
          | inl e ↦ rw e (inr (refl, refl))
          | inr (p, e) ↦ rw e (inl refl)
        ])

  run_set_emergency-Keeps : (words : List Bytes) → Keeps f st (run_set_emergency from words st)
  unfolding run_set_emergency file_after
  run_set_emergency-Keeps words = elim (Option-cases (last_of 3 words)) [
    | inl e ↦ rw (e, run_set_emergency) (inr (refl, refl))
    | inr (p, e) ↦
        rw (e, run_set_emergency)
          (if_intro (Keeps f st) (check_phone_number_format p) (λ _. inl refl)
            (λ _. inr (refl, refl)))
  ]

-- The one command that changes the members and does not save.
abbrev pub is_removal : Command → Bool
is_removal remove_emergency = true
is_removal _ = false

pub execute-Keeps :
    (f : Option Bytes) (p : Probe) (from : Bytes) (c : Command) (st : Station)
    → is_removal c ≡ false
    → Keeps f st (execute p from c st)
unfolding execute file_after
execute-Keeps f p from (all_states s reply) st h = inl refl
execute-Keeps f p from (set_heater s name suffix) st h =
    run_set_heater-Keeps f from st s name suffix
execute-Keeps f p from (get_heater name) st h =
    if_intro (Keeps f st) (check_heater_name name) (λ _. inr (refl, refl)) (λ _. inr (refl, refl))
execute-Keeps f p from lock st h =
    if_intro (Keeps f st) (contains from st.phone_whitelist) (λ _. inr (refl, refl))
      (λ _. inr (refl, refl))
execute-Keeps f p from (unlock words) st h = run_unlock-Keeps f from st words
execute-Keeps f p from (add_phone words) st h = run_add_phone-Keeps f from st words
execute-Keeps f p from (remove_phone words) st h = run_remove_phone-Keeps f from st words
execute-Keeps f p from (set_emergency words) st h = run_set_emergency-Keeps f from st words
execute-Keeps f p from remove_emergency st h = absurd (cc)
execute-Keeps f p from debug_log st h = inr (file_after-log_messages f from p.journal, refl)
execute-Keeps f p from _ st h = inr (refl, refl)
