-- ===== src/BaseStation/Persist/Pieces.antt =====
-- One line of the state file at a time: `loadState` on what `saveState` writes.
use iot_heater.Prelude.{
  ℕ, true, false, ◌∷◌, ◌++◌, some, ◌≡◌, ◌≢◌, refl, ap, ◌∙◌, arith, All, All-append, All-imp, length,
  length-append, take-append, append_assoc,
}
use iot_heater.OrdMap.{insert}
use iot_heater.OrdMap.Keys.{str_order}
use iot_heater.Text.{Bytes, codes, substr, size_sub, split, trim, is_space, is_alnum, is_digit}
use iot_heater.Text.Laws.{ends_with-append}
use iot_heater.Text.Lines.{Free, NoSpace, break_at-Free, split-Free, trim-NoSpace}
use iot_heater.Wire.{HeaterState, off, defrost, eco, comfort}
use iot_heater.BaseStation.State.{Station}
use iot_heater.BaseStation.Validity.{IsName, IsPhone, IsName-alnum, IsPhone-digits}
use iot_heater.BaseStation.Persist.{
  state_word, heater_line, parse_state, load_named, load_heater, load_key, load_line, load_lines,
}

pub parse_state-state_word : (s : HeaterState) → parse_state (state_word s) ≡ some s
unfolding parse_state
parse_state-state_word off = refl
parse_state-state_word defrost = refl
parse_state-state_word eco = refl
parse_state-state_word comfort = refl

-- A byte that a key or a value may hold: it is no blank, no equals sign and no newline.
pub record IsPlain (c : ℕ) : Type 0 where
  pub no_space : is_space c ≡ false
  pub no_equals : c ≢ b'='
  pub no_newline : c ≢ b'\n'

is_alnum-IsPlain : (c : ℕ) → is_alnum c ≡ true → IsPlain c
unfolding is_alnum is_space
is_alnum-IsPlain c h = ground arith

pub is_digit-IsPlain : (c : ℕ) → is_digit c ≡ true → IsPlain c
unfolding is_digit is_space
is_digit-IsPlain c h = ground arith

pub IsPhone-IsPlain : (p : Bytes) → IsPhone p → All IsPlain p
IsPhone-IsPlain p h = All-imp _ _ is_digit-IsPlain p (IsPhone-digits p h)

-- The bytes of words, decided by evaluation.
abbrev state_word-IsPlain-NoSpace : HeaterState → Type 0
state_word-IsPlain-NoSpace s = NoSpace (state_word s) × Free b'\n' (state_word s)

pub state_word_plain : (s : HeaterState) → state_word-IsPlain-NoSpace s
unfolding is_space
state_word_plain off = ground arith
state_word_plain defrost = ground arith
state_word_plain eco = ground arith
state_word_plain comfort = ground arith

-- A line with a plain key.
pub load_line-entry :
    (key val : Bytes) (st : Station)
    → Free b'=' key
    → NoSpace key
    → NoSpace val
    → load_line (key ++ b'=' ∷ val) st ≡ load_key key val st
unfolding load_line
load_line-entry key val st free kp vp =
    rw (break_at-Free b'=' key val free, load_line)
      (ap (λ (k : Bytes). load_key k (trim val) st) (trim-NoSpace key kp)
        ∙ ap (λ (v : Bytes). load_key key v st) (trim-NoSpace val vp))

-- Loading goes on behind the first line.
pub load_lines-line :
    (line rest : Bytes) (st : Station)
    → Free b'\n' line
    → load_lines (split b'\n' (line ++ b'\n' ∷ rest)) st
      ≡ load_lines (split b'\n' rest) (load_line line st)
unfolding load_lines
load_lines-line line rest st free = rw (split-Free b'\n' line rest free)

abbrev pub heater_key : Bytes → Bytes
heater_key name = codes "heater_" ++ (name ++ codes "_state")

heater_key-name :
    (name : Bytes)
    → substr (heater_key name) 7 (size_sub (size_sub (length (heater_key name)) 7) 6) ≡ name
heater_key-name name =
    let n : size_sub (size_sub (length (heater_key name)) 7) 6 ≡ length name =
      ground (arith, length-append name (codes "_state")) in
    rw n (take-append (length name) name (codes "_state") refl)

load_named-IsName :
    (name : Bytes) (s : HeaterState) (st : Station)
    → IsName name
    → load_named name (state_word s) st ≡ record st { heater_state = insert name s st.heater_state }
unfolding load_named
load_named-IsName name s st n =
    rw (n.checked, parse_state-state_word s, load_named)
      (ap (λ (k : Bytes). record st { heater_state = insert k s st.heater_state }) n.capitals)

load_heater-name :
    (name : Bytes) (s : HeaterState) (st : Station)
    → IsName name
    → load_heater (heater_key name) (state_word s) st
      ≡ record st { heater_state = insert name s st.heater_state }
unfolding load_heater
load_heater-name name s st n =
    ap (λ (k : Bytes). load_named k (state_word s) st) (heater_key-name name)
    ∙ load_named-IsName name s st n

load_key-heater_key :
    (name : Bytes) (s : HeaterState) (st : Station)
    → IsName name
    → load_key (heater_key name) (state_word s) st
      ≡ record st { heater_state = insert name s st.heater_state }
unfolding load_key
load_key-heater_key name s st n =
    rw (ends_with-append (codes "heater_" ++ name) (codes "_state")) (load_heater-name name s st n)

-- The bytes of a heater's key.
pub heater_key-IsPlain : (name : Bytes) → IsName name → All IsPlain (heater_key name)
unfolding is_space
heater_key-IsPlain name n =
    All-append IsPlain (codes "heater_") (name ++ codes "_state") (ground arith) (
      All-append IsPlain name (codes "_state")
        (All-imp _ _ is_alnum-IsPlain name (IsName-alnum name n.checked)) (ground arith))

-- A heater's line, loaded.
pub load_lines-heater_line :
    (name : Bytes) (s : HeaterState) (rest : Bytes) (st : Station)
    → IsName name
    → load_lines (split b'\n' (heater_line (name, s) ++ rest)) st
      ≡ load_lines (split b'\n' rest) (record st { heater_state = insert name s st.heater_state })
load_lines-heater_line name s rest st n =
    let plain = heater_key-IsPlain name n in
    let word = state_word_plain s in
    let line = heater_key name ++ b'=' ∷ state_word s in
    let shape : heater_line (name, s) ++ rest ≡ line ++ b'\n' ∷ rest = simp append_assoc in
    let free : Free b'\n' line =
      All-append _ (heater_key name) (b'=' ∷ state_word s)
        (All-imp _ _ (λ c p. p.no_newline) (heater_key name) plain) ((ground arith), word.1) in
    ap (λ (t : Bytes). load_lines (split b'\n' t) st) shape
    ∙ load_lines-line line rest st free
    ∙ ap (load_lines (split b'\n' rest)) (
        load_line-entry (heater_key name) (state_word s) st
          (All-imp _ _ (λ c p. p.no_equals) (heater_key name) plain)
          (All-imp _ _ (λ c p. p.no_space) (heater_key name) plain) word.0
        ∙ load_key-heater_key name s st n)
