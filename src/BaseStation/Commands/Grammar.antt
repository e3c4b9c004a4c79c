-- ===== src/BaseStation/Commands/Grammar.antt =====
-- Which texts are which commands.
use mathlib.Core.List.{reverse, reverse-append}
use iot_heater.Prelude.{
  true, false, ◌++◌, ◌≡◌, refl, arith, length, length-append, take-append, ltb, Bool-cases, inl,
  inr,
}
use iot_heater.Text.{Bytes, codes, ends_with, starts_with, size_sub}
use iot_heater.Text.Laws.{ends_with-append}
use iot_heater.Wire.{HeaterState, off, defrost, eco, comfort}
use iot_heater.BaseStation.Commands.Classify.{
  set_heater, get_heater, heater_name, is_heater, classify, classify_rest,
}

-- The words that end a `HEATER` command, and the state that each asks for.
pub data Suffix : Type 0 where
  off_word eco_word defrost_word comfort_word on_word : Suffix

abbrev pub suffix_text : Suffix → Bytes
suffix_text off_word = codes " OFF"
suffix_text eco_word = codes " ECO"
suffix_text defrost_word = codes " DEFROST"
suffix_text comfort_word = codes " COMFORT"
suffix_text on_word = codes " ON"

abbrev pub suffix_state : Suffix → HeaterState
suffix_state off_word = off
suffix_state eco_word = eco
suffix_state defrost_word = defrost
suffix_state comfort_word = comfort
suffix_state on_word = comfort

abbrev pub heater_text : Bytes → Suffix → Bytes
heater_text name w = codes "HEATER " ++ (name ++ suffix_text w)

heater_name-heater_text :
    (name : Bytes) (w : Suffix) → heater_name (heater_text name w) (length (suffix_text w)) ≡ name
unfolding heater_name
heater_name-heater_text name w =
    let n : size_sub (length (name ++ suffix_text w)) (length (suffix_text w)) ≡ length name =
      ground (arith, length-append name (suffix_text w)) in
    rw n (take-append (length name) name (suffix_text w) refl)

-- Another suffix that differs in its last letter does not fit.
ends_with-other :
    (s e f : Bytes)
    → starts_with (reverse e ++ reverse s) (reverse f) ≡ false
    → ends_with (s ++ e) f ≡ false
unfolding ends_with
ends_with-other s e f h = elim (Bool-cases (ltb (length (s ++ e)) (length f))) [
  | inl short ↦ rw short
  | inr long ↦ rw (long, reverse-append s e) h
]

-- A word whose letters from the end differ from those of the text is no suffix of it.
miss :
    (name : Bytes) (w v : Suffix)
    → starts_with
        (reverse (suffix_text w) ++ reverse (codes "HEATER " ++ name))
        (reverse (suffix_text v))
      ≡ false
    → is_heater (heater_text name w) (suffix_text v) ≡ false
unfolding is_heater
miss name w v h = ends_with-other (codes "HEATER " ++ name) (suffix_text w) (suffix_text v) h

is_heater_self : (name : Bytes) (w : Suffix) → is_heater (heater_text name w) (suffix_text w) ≡ true
unfolding is_heater
is_heater_self name w = ends_with-append (codes "HEATER " ++ name) (suffix_text w)

-- Every text `HEATER <name> <state>` is the command for that name and state, whatever the name.
pub classify-heater_text :
    (name : Bytes) (w : Suffix)
    → classify (heater_text name w) ≡ set_heater (suffix_state w) name (suffix_text w)
unfolding classify
classify-heater_text name off_word =
    rw (is_heater_self name off_word, heater_name-heater_text name off_word)
classify-heater_text name eco_word = rw (
  miss name eco_word off_word refl,
  is_heater_self name eco_word,
  heater_name-heater_text name eco_word,
)
classify-heater_text name defrost_word = rw (
  miss name defrost_word off_word refl,
  miss name defrost_word eco_word refl,
  is_heater_self name defrost_word,
  heater_name-heater_text name defrost_word,
)
classify-heater_text name comfort_word = rw (
  miss name comfort_word off_word refl,
  miss name comfort_word eco_word refl,
  miss name comfort_word defrost_word refl,
  is_heater_self name comfort_word,
  heater_name-heater_text name comfort_word,
)
classify-heater_text name on_word = rw (
  miss name on_word off_word refl,
  miss name on_word eco_word refl,
  miss name on_word defrost_word refl,
  miss name on_word comfort_word refl,
  is_heater_self name on_word,
  heater_name-heater_text name on_word,
)

-- `GET HEATER <name>` asks for that name.
pub classify-get_heater : (name : Bytes) → classify (codes "GET HEATER " ++ name) ≡ get_heater name
unfolding classify classify_rest starts_with
classify-get_heater name = refl
