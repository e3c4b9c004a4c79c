-- ===== src/BaseStation/Commands/Restart.antt =====
-- A restart after a round of `parseCommands`.
use iot_heater.Prelude.{
  false, [], ◌∷◌, ◌≡◌, ◌≢◌, inl, inr, refl, ap, sym, subst, ◌∙◌, arith, All, Bool-cases, List,
  Option,
}
use iot_heater.Text.{Bytes, codes}
use iot_heater.Text.Laws.{str_eq_iff}
use iot_heater.BaseStation.State.{Station, Outcome, initial}
use iot_heater.BaseStation.Validity.{IsValid}
use iot_heater.BaseStation.Persist.{render, load_state}
use iot_heater.BaseStation.Persist.RoundTrip.{load_state-render}
use iot_heater.BaseStation.Commands.Classify.{
  Command, classify_rest, classify, normalise, choose_tested, first_table, rest_table, invalid,
}
use iot_heater.BaseStation.Commands.Execute.{Probes, rest_of, Probe, execute, run_remove_emergency}
use iot_heater.BaseStation.Commands.Queue.{obey, is_refused, run_queue, parse_commands}
use iot_heater.BaseStation.Commands.Validity.{obey-IsValid}
use iot_heater.BaseStation.Commands.Synced.{
  file_after, file_after-append, IsSynced, Keeps, is_removal, execute-Keeps,
}

-- The text whose command does not save.
abbrev pub removal_text : Bytes
removal_text = codes "REMOVE EMERGENCY PHONE"

record Saves (c : Command) : Type 0 where
  saves : is_removal c ≡ false

classify-Saves : (content : Bytes) → content ≢ removal_text → Saves (classify content)
unfolding classify classify_rest
classify-Saves content ne =
    choose_tested Saves (first_table content) (classify_rest content) (ground arith) (
      choose_tested Saves (rest_table content) invalid
        (ground (arith, str_eq_iff content removal_text)) (record { saves = refl }))

Keeps-IsSynced :
    (f : Option Bytes) (st : Station) (o : Outcome)
    → IsValid o.0
    → Keeps f st o
    → IsSynced f st
    → IsSynced (file_after f o.1) o.0
Keeps-IsSynced f st o v (inl e) s = (render o.0, e, load_state-render o.0 v)
Keeps-IsSynced f st o v (inr (e, k)) (t, g, l) = (t, e ∙ g, l ∙ sym k)

obey-IsSynced :
    (f : Option Bytes) (p : Probe) (from content : Bytes) (st : Station)
    → normalise content ≢ removal_text
    → IsValid st
    → IsSynced f st
    → IsSynced (file_after f (obey p from content st).1) (obey p from content st).0
obey-IsSynced f p from content st ne v s =
    Keeps-IsSynced f st (obey p from content st) (obey-IsValid p from content st v)
      (unfold obey in
        execute-Keeps f p from (classify (normalise content)) st
          (classify-Saves (normalise content) ne).saves)
      s

-- No message of the queue removes the emergency phone.
abbrev pub NoRemoval : List (Bytes × Bytes) → Type 0
NoRemoval q = All (λ m. normalise m.1 ≢ removal_text) q

run_queue-IsSynced :
    (f : Option Bytes) (p : Probes) (q : List (Bytes × Bytes)) (st : Station)
    → NoRemoval q
    → IsValid st
    → IsSynced f st
    → IsSynced (file_after f (run_queue p q st).1) (run_queue p q st).0
unfolding run_queue
run_queue-IsSynced f p [] st n v s = unfold file_after in s
run_queue-IsSynced f p ((from, content) ∷ q) st n v s = elim (Bool-cases (is_refused from st)) [
  | inl e ↦ rw (e, run_queue) (unfold file_after in s)
  | inr e ↦
      let o : Outcome = obey (p 0) from content st in
      rw (e, run_queue)
        (rw (file_after-append f o.1 (run_queue (rest_of p) q o.0).1) (
          run_queue-IsSynced (file_after f o.1) (rest_of p) q o.0 n.1
            (obey-IsValid (p 0) from content st v) (obey-IsSynced f (p 0) from content st n.0 v s)))
]

-- If no message of the queue removes the emergency number, the settings are well formed, and the
-- state file restores them, then the state file restores them again after `parseCommands`.
pub parse_commands-IsSynced :
    (f : Option Bytes) (p : Probes) (st : Station)
    → NoRemoval st.commands
    → IsValid st
    → IsSynced f st
    → IsSynced (file_after f (parse_commands p st).1) (parse_commands p st).0
unfolding parse_commands
parse_commands-IsSynced f p st n v s = run_queue-IsSynced f p st.commands st n v s

obey_removal :
    (p : Probe) (from content : Bytes) (st : Station)
    → normalise content ≡ removal_text
    → obey p from content st ≡ run_remove_emergency from st
unfolding obey execute classify
obey_removal p from content st e = rw e

file_after-removal :
    (f : Option Bytes) (from : Bytes) (st : Station)
    → file_after f (run_remove_emergency from st).1 ≡ f
unfolding run_remove_emergency file_after
file_after-removal f from st = go st.emergency_phone refl
  where
    go : (e : Bytes) → st.emergency_phone ≡ e → file_after f (run_remove_emergency from st).1 ≡ f
    go [] e = rw (e, run_remove_emergency) refl
    go (c ∷ s) e = rw (e, run_remove_emergency) refl

not-IsSynced :
    (f : Option Bytes) (from : Bytes) (st : Station)
    → st.emergency_phone ≢ []
    → IsSynced f st
    → ¬ IsSynced f (run_remove_emergency from st).0
unfolding run_remove_emergency
not-IsSynced f from st ne (t, g, l) (u, h, m) =
    let same : t ≡ u = cc in
    ne (
      ap (λ (x : Station). x.emergency_phone) (sym l)
      ∙ ap (λ (x : Bytes). (load_state x initial).emergency_phone) same
      ∙ ap (λ (x : Station). x.emergency_phone) m)

-- `REMOVE EMERGENCY PHONE` clears a number that is set and leaves the state file as it is; where
-- the file restored the settings before, it does not restore them after: a restart brings the
-- removed number back.
pub removal_not_saved :
    (f : Option Bytes) (p : Probe) (from content : Bytes) (st : Station)
    → normalise content ≡ removal_text
    → st.emergency_phone ≢ []
    → IsSynced f st
    → ((obey p from content st).0.emergency_phone ≡ [])
      × (file_after f (obey p from content st).1 ≡ f)
      × ¬ IsSynced (file_after f (obey p from content st).1) (obey p from content st).0
removal_not_saved f p from content st e ne synced = rw (obey_removal p from content st e) (
  unfold run_remove_emergency in refl,
  file_after-removal f from st,
  λ bad. not-IsSynced f from st ne synced (
      subst (λ (g : Option Bytes). IsSynced g (run_remove_emergency from st).0)
        (file_after-removal f from st) bad),
)
