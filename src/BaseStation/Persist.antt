-- ===== src/BaseStation/Persist.antt =====
-- `loadState` and `saveState` of base_station.cpp: the text of the state file.
pub mod Pieces
pub mod RoundTrip
pub mod Loaded
use iot_heater.Prelude.{
  ℕ, Bool, true, false, ◌&&◌, List, [], ◌∷◌, ◌++◌, map, Option, none, some, if◌then◌else◌, drop,
  length, ◌*◌,
}
use iot_heater.OrdMap.{Map, insert}
use iot_heater.OrdMap.Keys.{str_order}
use iot_heater.Text.{
  Bytes, codes, str_eq, starts_with, ends_with, substr, size_sub, trim, split, break_at, to_upper,
  check_heater_name, check_phone_number_format,
}
use iot_heater.Wire.{HeaterState, off, defrost, eco, comfort}
use iot_heater.BaseStation.State.{Station, Effect, save_file, Outcome, initial}

abbrev pub state_word : HeaterState → Bytes
state_word off = codes "off"
state_word defrost = codes "defrost"
state_word eco = codes "eco"
state_word comfort = codes "comfort"

-- A line of `saveState` for one heater.
abbrev pub heater_line : Bytes × HeaterState → Bytes
heater_line (name, state) =
    codes "heater_" ++ (name ++ (codes "_state=" ++ (state_word state ++ codes "\n")))

unfoldable pub heater_lines : Map Bytes HeaterState → Bytes
heater_lines [] = []
heater_lines (e ∷ m) = heater_line e ++ heater_lines m

-- The white list, with commas between the numbers.
unfoldable pub comma_list : Map Bytes (Unit {0}) → Bytes
comma_list [] = []
comma_list ((p, u) ∷ []) = p
comma_list ((p, u) ∷ q ∷ m) = p ++ (b',' ∷ comma_list (q ∷ m))

-- The text that `saveState` writes.
unfoldable pub render : Station → Bytes
render st =
    codes "default_heater_state="
    ++ (state_word st.heater_default_state
        ++ (b'\n'
            ∷ (heater_lines st.heater_state
                ++ (codes "whitelist="
                    ++ (comma_list st.phone_whitelist
                        ++ (b'\n'
                            ∷ (codes "emergency_phone=" ++ (st.emergency_phone ++ codes "\n"))))))))

abbrev pub save_state : Station → Effect
save_state st = save_file (render st)

-- The four words for a state.
unfoldable pub parse_state : Bytes → Option HeaterState
unfolding str_eq
parse_state val =
    if str_eq val (codes "off")
    then some off
    else if str_eq val (codes "defrost")
    then some defrost
    else if str_eq val (codes "eco")
    then some eco
    else if str_eq val (codes "comfort")
    then some comfort
    else none

unfoldable pub load_default : Bytes → Station → Station
unfolding parse_state
load_default val st = elim (parse_state val) [
  | some s ↦ record st { heater_default_state = s }
  | none ↦ record st { heater_default_state = defrost }
]

-- The state of one heater, by the name that is cut out of the key.
unfoldable pub load_named : Bytes → Bytes → Station → Station
unfolding parse_state check_heater_name insert
load_named name val st =
    if check_heater_name name
    then elim (parse_state val) [
      | some s ↦ record st { heater_state = insert (map to_upper name) s st.heater_state }
      | none ↦ st
    ]
    else st

-- At a key that begins with `heater_` and ends in `_state`; the two may overlap.
unfoldable pub load_heater : Bytes → Bytes → Station → Station
unfolding load_named
load_heater key val st = load_named (substr key 7 (size_sub (size_sub (length key) 7) 6)) val st

unfoldable pub load_phones : List Bytes → Map Bytes (Unit {0}) → Map Bytes (Unit {0})
unfolding insert check_phone_number_format
load_phones [] m = m
load_phones (item ∷ rest) m =
    load_phones rest (if check_phone_number_format item then insert item tt m else m)

unfoldable pub load_emergency : Bytes → Station → Station
unfolding check_phone_number_format
load_emergency val st =
    if check_phone_number_format val then record st { emergency_phone = val } else st

-- The chain of tests on a trimmed key.
unfoldable pub load_key : Bytes → Bytes → Station → Station
unfolding load_default load_heater load_phones load_emergency str_eq starts_with ends_with split
load_key key val st =
    if str_eq key (codes "default_heater_state")
    then load_default val st
    else if starts_with key (codes "heater_") && ends_with key (codes "_state")
    then load_heater key val st
    else if str_eq key (codes "whitelist")
    then record st { phone_whitelist = load_phones (split b',' val) st.phone_whitelist }
    else if str_eq key (codes "emergency_phone")
    then load_emergency val st
    else st

unfoldable pub load_line : Bytes → Station → Station
unfolding load_key break_at trim
load_line line st = elim (break_at b'=' line) [
  | none ↦ st
  | some (key, val) ↦ load_key (trim key) (trim val) st
]

unfoldable pub load_lines : List Bytes → Station → Station
unfolding load_line
load_lines [] st = st
load_lines (line ∷ rest) st = load_lines rest (load_line line st)

-- `loadState`, on the text of the file.
unfoldable pub load_state : Bytes → Station → Station
unfolding load_lines split
load_state text st = load_lines (split b'\n' text) st

-- The message counter starts from a random word in its upper half.
abbrev pub with_counter : ℕ → Station → Station
with_counter word st = record st { message_counter = word * 0x1_0000_0000 }

-- The constructor: what the file holds, if it can be opened, and else the defaults, which are
-- saved. `word` is the random number that starts the message counter.
unfoldable pub construct : Option Bytes → ℕ → Outcome
unfolding load_state initial
construct none word = (with_counter word initial, save_state initial ∷ [])
construct (some text) word = (with_counter word (load_state text initial), [])
