-- ===== src/BaseStation/Commands/Validity.antt =====
-- Every command keeps the members of the user well formed.
use iot_heater.Prelude.{
  ℕ, zero, suc, [], ◌∷◌, ◌≡◌, inl, inr, refl, ap, ◌∙◌, arith, map, take, drop, Bool-cases, if_intro,
  List, Option-cases,
}
use iot_heater.OrdMap.Laws.{
  insert-All, insert-IsSorted, erase-All, erase-IsSorted, map_values-All, map_values-IsSorted,
}
use iot_heater.OrdMap.Keys.{str_order}
use iot_heater.Text.{Bytes, to_upper, check_heater_name, check_phone_number_format}
use iot_heater.Wire.{HeaterState}
use iot_heater.BaseStation.State.{Station, Outcome}
use iot_heater.BaseStation.Validity.{IsValid}
use iot_heater.BaseStation.Commands.Classify.{
  Command, all_states, set_heater, get_heater, lock, unlock, add_phone, remove_phone, set_emergency,
  remove_emergency, invalid, heater_name, classify_rest, classify, normalise, choose-All,
  first_table, rest_table,
}
use iot_heater.BaseStation.Commands.Execute.{
  Probes, rest_of, Probe, set_all, last_of, run_set_heater, run_add_phone, run_remove_phone,
  run_set_emergency, execute,
}
use iot_heater.BaseStation.Commands.Queue.{is_refused, obey, run_queue, parse_commands}
use iot_heater.BaseStation.Commands.Normal.{normalise-capitals}

map-take : (f : ℕ → ℕ) (n : ℕ) (s : Bytes) → map f (take n s) ≡ take n (map f s)
map-take f zero s = refl
map-take f (suc n) [] = refl
map-take f (suc n) (c ∷ s) = ap (◌∷◌ (f c)) (map-take f n s)

map-drop : (f : ℕ → ℕ) (n : ℕ) (s : Bytes) → map f (drop n s) ≡ drop n (map f s)
map-drop f zero s = refl
map-drop f (suc n) [] = refl
map-drop f (suc n) (c ∷ s) = map-drop f n s

heater_name-capitals :
    (content : Bytes) (k : ℕ)
    → map to_upper content ≡ content
    → map to_upper (heater_name content k) ≡ heater_name content k
unfolding heater_name
heater_name-capitals content k h =
    map-take to_upper _ (drop 7 content) ∙ ap (take _) (map-drop to_upper 7 content ∙ ap (drop 7) h)

abbrev NameCapital : Command → Type 0
NameCapital (set_heater s name suffix) = map to_upper name ≡ name
NameCapital _ = Unit {0}

-- The name of a `HEATER` command is in capitals.
record IsCapital (c : Command) : Type 0 where
  capital : NameCapital c

classify_rest-IsCapital : (content : Bytes) → IsCapital (classify_rest content)
unfolding classify_rest
classify_rest-IsCapital content =
    choose-All IsCapital (rest_table content) invalid (ground arith) (record { capital = tt })

classify-IsCapital :
    (content : Bytes) → map to_upper content ≡ content → IsCapital (classify content)
unfolding classify
classify-IsCapital content h =
    choose-All IsCapital (first_table content) (classify_rest content)
      (ground (
        arith,
        heater_name-capitals content 4 h,
        heater_name-capitals content 8 h,
        heater_name-capitals content 3 h,
      ))
      (classify_rest-IsCapital content)

set_all-IsValid : (s : HeaterState) (st : Station) → IsValid st → IsValid (set_all s st)
set_all-IsValid s st v = record {
  names_sorted = map_values-IsSorted (λ _. s) st.heater_state v.names_sorted;
  names = map_values-All _ (λ _. s) st.heater_state (λ k w p. p) v.names;
  phones_sorted = v.phones_sorted;
  phones = v.phones;
  emergency = v.emergency;
}

module _ (from : Bytes) (st : Station) (v : IsValid st) where
  run_set_heater-IsValid :
      (s : HeaterState) (name suffix : Bytes)
      → map to_upper name ≡ name
      → IsValid (run_set_heater from s name suffix st).0
  unfolding run_set_heater
  run_set_heater-IsValid s name suffix up =
      if_intro (λ (o : Outcome). IsValid o.0) (check_heater_name name)
        (λ good. record {
          names_sorted = insert-IsSorted name s st.heater_state v.names_sorted;
          names =
              insert-All _ name s st.heater_state (record { checked = good; capitals = up })
                v.names;
          phones_sorted = v.phones_sorted;
          phones = v.phones;
          emergency = v.emergency;
        })
        (λ _. v)

  run_add_phone-IsValid : (words : List Bytes) → IsValid (run_add_phone from words st).0
  unfolding run_add_phone
  run_add_phone-IsValid words =
      if_intro (λ (o : Outcome). IsValid o.0) st.locked (λ _. v)
        (λ _. elim (Option-cases (last_of 2 words)) [
          | inl e ↦ rw e v
          | inr (p, e) ↦ rw e (
              if_intro (λ (o : Outcome). IsValid o.0) (check_phone_number_format p)
                (λ good. record {
                  names_sorted = v.names_sorted;
                  names = v.names;
                  phones_sorted = insert-IsSorted p tt st.phone_whitelist v.phones_sorted;
                  phones = insert-All _ p tt st.phone_whitelist good v.phones;
                  emergency = v.emergency;
                })
                (λ _. v))
        ])

  run_remove_phone-IsValid : (words : List Bytes) → IsValid (run_remove_phone from words st).0
  unfolding run_remove_phone
  run_remove_phone-IsValid words =
      if_intro (λ (o : Outcome). IsValid o.0) st.locked (λ _. v)
        (λ _. elim (Option-cases (last_of 2 words)) [
          | inl e ↦ rw e v
          | inr (p, e) ↦ rw e (record {
            names_sorted = v.names_sorted;
            names = v.names;
            phones_sorted = erase-IsSorted p st.phone_whitelist v.phones_sorted;
            phones = erase-All _ p st.phone_whitelist v.phones;
            emergency = v.emergency;
          })
        ])

  run_set_emergency-IsValid : (words : List Bytes) → IsValid (run_set_emergency from words st).0
  unfolding run_set_emergency
  run_set_emergency-IsValid words = elim (Option-cases (last_of 3 words)) [
    | inl e ↦ rw (e, run_set_emergency) v
    | inr (p, e) ↦
        rw (e, run_set_emergency)
          (if_intro (λ (o : Outcome). IsValid o.0) (check_phone_number_format p)
            (λ good. record {
              names_sorted = v.names_sorted;
              names = v.names;
              phones_sorted = v.phones_sorted;
              phones = v.phones;
              emergency = inr good;
            })
            (λ _. v))
  ]

-- Whatever the command, as long as a `HEATER` command has its name in capitals.
execute-IsValid :
    (p : Probe) (from : Bytes) (c : Command) (st : Station)
    → IsCapital c
    → IsValid st
    → IsValid (execute p from c st).0
unfolding execute
execute-IsValid p from (all_states s reply) st k v = set_all-IsValid s st v
execute-IsValid p from (set_heater s name suffix) st k v =
    run_set_heater-IsValid from st v s name suffix k.capital
execute-IsValid p from (get_heater name) st k v =
    if_intro (λ (o : Outcome). IsValid o.0) (check_heater_name name) (λ _. v) (λ _. v)
execute-IsValid p from lock st k v = ground arith
execute-IsValid p from (unlock words) st k v = ground arith
execute-IsValid p from (add_phone words) st k v = run_add_phone-IsValid from st v words
execute-IsValid p from (remove_phone words) st k v = run_remove_phone-IsValid from st v words
execute-IsValid p from (set_emergency words) st k v = run_set_emergency-IsValid from st v words
execute-IsValid p from remove_emergency st k v = record {
  names_sorted = v.names_sorted;
  names = v.names;
  phones_sorted = v.phones_sorted;
  phones = v.phones;
  emergency = inl refl;
}
execute-IsValid p from _ st k v = v

-- Any text message, from any sender, leaves the settings well formed if they were: maps in order,
-- names of letters and digits in capitals, numbers in the checked format.
pub obey-IsValid :
    (p : Probe) (from content : Bytes) (st : Station)
    → IsValid st
    → IsValid (obey p from content st).0
unfolding obey
obey-IsValid p from content st v =
    execute-IsValid p from (classify (normalise content)) st
      (classify-IsCapital (normalise content) (normalise-capitals content)) v

with_queue-IsValid :
    (q : List (Bytes × Bytes)) (st : Station) → IsValid st → IsValid (record st { commands = q })
with_queue-IsValid q st v = ground arith

run_queue-IsValid :
    (p : Probes) (q : List (Bytes × Bytes)) (st : Station)
    → IsValid st
    → IsValid (run_queue p q st).0
unfolding run_queue
run_queue-IsValid p [] st v = with_queue-IsValid [] st v
run_queue-IsValid p ((from, content) ∷ q) st v = elim (Bool-cases (is_refused from st)) [
  | inl e ↦ rw (e, run_queue) (with_queue-IsValid q st v)
  | inr e ↦
      rw (e, run_queue) (run_queue-IsValid (rest_of p) q _ (obey-IsValid (p 0) from content st v))
]

-- A round of `parseCommands` keeps the members of the user well formed, whoever sent what.
pub parse_commands-IsValid :
    (p : Probes) (st : Station) → IsValid st → IsValid (parse_commands p st).0
unfolding parse_commands
parse_commands-IsValid p st v = run_queue-IsValid p st.commands st v
