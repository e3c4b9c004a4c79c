-- ===== src/BaseStation/Persist/Loaded.antt =====
-- Whatever the state file holds, the station that is loaded from it is well formed.
use iot_heater.Prelude.{
  length, ℕ, true, List, [], ◌∷◌, Option, none, some, ◌≡◌, refl, arith, All, map, inl, inr,
  if_intro, Option-cases, ◌&&◌,
}
use iot_heater.OrdMap.{Map, IsSorted}
use iot_heater.OrdMap.Laws.{insert-All, insert-IsSorted}
use iot_heater.OrdMap.Keys.{str_order}
use iot_heater.Text.{
  substr, size_sub, Bytes, codes, to_upper, is_alnum, all_bytes, str_eq, starts_with, ends_with,
  check_heater_name, check_phone_number_format, break_at, trim, split,
}
use iot_heater.Text.Laws.{to_upper_idem}
use iot_heater.Wire.{HeaterState}
use iot_heater.BaseStation.State.{Station, initial}
use iot_heater.BaseStation.Validity.{IsValid, IsName, IsPhone, initial-IsValid}
use iot_heater.BaseStation.Persist.{
  parse_state, load_default, load_named, load_heater, load_phones, load_emergency, load_key,
  load_line, load_lines, load_state, with_counter, construct,
}

map-to_upper_idem : (s : Bytes) → map to_upper (map to_upper s) ≡ map to_upper s
map-to_upper_idem [] = refl
map-to_upper_idem (c ∷ s) = λ i. to_upper_idem c i ∷ map-to_upper_idem s i

alnum-to_upper : (c : ℕ) → is_alnum c ≡ true → is_alnum (to_upper c) ≡ true
unfolding is_alnum to_upper
alnum-to_upper c h = ground arith

alnum-map-to_upper :
    (s : Bytes) → all_bytes is_alnum s ≡ true → all_bytes is_alnum (map to_upper s) ≡ true
unfolding all_bytes
alnum-map-to_upper [] h = refl
alnum-map-to_upper (c ∷ s) h = ground (arith, alnum-to_upper c, alnum-map-to_upper s)

-- A name that passes the check is a heater's name in capitals.
upper-IsName : (s : Bytes) → check_heater_name s ≡ true → IsName (map to_upper s)
unfolding check_heater_name
upper-IsName [] h = absurd (cc)
upper-IsName (c ∷ s) h = record {
  checked = alnum-map-to_upper (c ∷ s) h;
  capitals = map-to_upper_idem (c ∷ s);
}

with_default-IsValid :
    (s : HeaterState) (st : Station) → IsValid st → IsValid (record st { heater_default_state = s })
with_default-IsValid s st v = record {
  names_sorted = v.names_sorted;
  names = v.names;
  phones_sorted = v.phones_sorted;
  phones = v.phones;
  emergency = v.emergency;
}

load_default-IsValid : (val : Bytes) (st : Station) → IsValid st → IsValid (load_default val st)
unfolding load_default
load_default-IsValid val st v = elim (Option-cases (parse_state val)) [
  | inl e ↦ rw (e, load_default) (with_default-IsValid _ st v)
  | inr (s, e) ↦ rw (e, load_default) (with_default-IsValid s st v)
]

load_named-IsValid :
    (name val : Bytes) (st : Station) → IsValid st → IsValid (load_named name val st)
unfolding load_named
load_named-IsValid name val st v =
    if_intro IsValid (check_heater_name name)
      (λ good. elim (Option-cases (parse_state val)) [
        | inl e ↦ rw (e, load_named) v
        | inr (s, e) ↦
            rw (e, load_named)
              (record {
                names_sorted = insert-IsSorted (map to_upper name) s st.heater_state v.names_sorted;
                names =
                    insert-All _ (map to_upper name) s st.heater_state (upper-IsName name good)
                      v.names;
                phones_sorted = v.phones_sorted;
                phones = v.phones;
                emergency = v.emergency;
              })
      ])
      (λ _. v)

load_heater-IsValid :
    (key val : Bytes) (st : Station) → IsValid st → IsValid (load_heater key val st)
unfolding load_heater
load_heater-IsValid key val st v =
    load_named-IsValid (substr key 7 (size_sub (size_sub (length key) 7) 6)) val st v

abbrev Phones : Map Bytes (Unit {0}) → Type 0
Phones m = IsSorted m × All (λ e. IsPhone e.0) m

load_phones-Phones :
    (items : List Bytes) (m : Map Bytes (Unit {0})) → Phones m → Phones (load_phones items m)
unfolding load_phones
load_phones-Phones [] m h = h
load_phones-Phones (item ∷ rest) m h = load_phones-Phones rest _ (
    if_intro Phones (check_phone_number_format item)
      (λ good. (insert-IsSorted item tt m h.0, insert-All _ item tt m good h.1)) (λ _. h))

load_emergency-IsValid : (val : Bytes) (st : Station) → IsValid st → IsValid (load_emergency val st)
unfolding load_emergency
load_emergency-IsValid val st v =
    if_intro IsValid (check_phone_number_format val)
      (λ good. record {
        names_sorted = v.names_sorted;
        names = v.names;
        phones_sorted = v.phones_sorted;
        phones = v.phones;
        emergency = inr good;
      })
      (λ _. v)

load_key-IsValid : (key val : Bytes) (st : Station) → IsValid st → IsValid (load_key key val st)
unfolding load_key
load_key-IsValid key val st v =
    if_intro IsValid (str_eq key (codes "default_heater_state"))
      (λ _. load_default-IsValid val st v)
      (λ _.
        if_intro IsValid (starts_with key (codes "heater_") && ends_with key (codes "_state"))
          (λ _. load_heater-IsValid key val st v)
          (λ _.
            if_intro IsValid (str_eq key (codes "whitelist"))
              (λ _.
                let (sorted, phones) =
                  load_phones-Phones (split b',' val) st.phone_whitelist
                    (v.phones_sorted, v.phones) in
                record {
                  names_sorted = v.names_sorted;
                  names = v.names;
                  phones_sorted = sorted;
                  phones = phones;
                  emergency = v.emergency;
                })
              (λ _.
                if_intro IsValid (str_eq key (codes "emergency_phone"))
                  (λ _. load_emergency-IsValid val st v) (λ _. v))))

load_line-IsValid : (line : Bytes) (st : Station) → IsValid st → IsValid (load_line line st)
unfolding load_line
load_line-IsValid line st v = elim (Option-cases (break_at b'=' line)) [
  | inl e ↦ rw (e, load_line) v
  | inr (kv, e) ↦ rw (e, load_line) (load_key-IsValid (trim kv.0) (trim kv.1) st v)
]

load_lines-IsValid :
    (lines : List Bytes) (st : Station) → IsValid st → IsValid (load_lines lines st)
unfolding load_lines
load_lines-IsValid [] st v = v
load_lines-IsValid (line ∷ rest) st v =
    load_lines-IsValid rest (load_line line st) (load_line-IsValid line st v)

with_counter-IsValid : (word : ℕ) (st : Station) → IsValid st → IsValid (with_counter word st)
with_counter-IsValid word st v = record {
  names_sorted = v.names_sorted;
  names = v.names;
  phones_sorted = v.phones_sorted;
  phones = v.phones;
  emergency = v.emergency;
}

-- The station that starts is well formed, whatever the file holds.
pub construct-IsValid : (file : Option Bytes) (word : ℕ) → IsValid (construct file word).0
unfolding construct load_state
construct-IsValid none word = with_counter-IsValid word initial initial-IsValid
construct-IsValid (some text) word =
    with_counter-IsValid word _ (load_lines-IsValid (split b'\n' text) initial initial-IsValid)
