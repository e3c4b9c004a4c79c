-- ===== src/BaseStation/Persist/RoundTrip.antt =====
-- What `saveState` writes, `loadState` reads back.
use iot_heater.Prelude.{
  ℕ, ◌≢◌, List, true, [], ◌∷◌, ◌++◌, ◌≡◌, ◌⊎◌, inl, inr, refl, ap, ◌∙◌, arith, All, All-append,
  All-imp, append_assoc,
}
use iot_heater.OrdMap.{Map, insert}
use iot_heater.OrdMap.Laws.{insert_all, insert_all-nil}
use iot_heater.OrdMap.Keys.{str_order}
use iot_heater.Text.{Bytes, codes, split, is_space, is_digit}
use iot_heater.Text.Lines.{Free, split-Free, split_last}
use iot_heater.Wire.{HeaterState}
use iot_heater.BaseStation.State.{Station, initial}
use iot_heater.BaseStation.Validity.{IsName, IsPhone, IsValid, IsPhone-ne_nil, IsPhone-digits}
use iot_heater.BaseStation.Persist.{
  state_word, heater_line, heater_lines, comma_list, render, load_default, load_phones, load_key,
  load_lines, load_state, load_emergency,
}
use iot_heater.BaseStation.Persist.Pieces.{
  IsPlain, IsPhone-IsPlain, parse_state-state_word, state_word_plain, load_line-entry,
  load_lines-line, load_lines-heater_line,
}

load_lines-heater_lines :
    (m : Map Bytes HeaterState) (rest : Bytes) (st : Station)
    → All (λ e. IsName e.0) m
    → load_lines (split b'\n' (heater_lines m ++ rest)) st
      ≡ load_lines (split b'\n' rest) (record st { heater_state = insert_all m st.heater_state })
unfolding heater_lines
load_lines-heater_lines [] rest st h = refl
load_lines-heater_lines ((name, s) ∷ m) rest st h =
    ap (λ (t : Bytes). load_lines (split b'\n' t) st)
      (append_assoc (heater_line (name, s)) (heater_lines m) rest)
    ∙ load_lines-heater_line name s (heater_lines m ++ rest) st h.0
    ∙ load_lines-heater_lines m rest _ h.1

-- The white list.
comma_list-IsPlain :
    (m : Map Bytes (Unit {0})) → All (λ e. IsPhone e.0) m → All IsPlain (comma_list m)
unfolding comma_list is_space
comma_list-IsPlain [] h = tt
comma_list-IsPlain ((p, u) ∷ []) h = IsPhone-IsPlain p h.0
comma_list-IsPlain ((p, u) ∷ q ∷ m) h =
    All-append IsPlain p (b',' ∷ comma_list (q ∷ m)) (IsPhone-IsPlain p h.0)
      (ground arith, comma_list-IsPlain (q ∷ m) h.1)

is_digit-ne_comma : (c : ℕ) → is_digit c ≡ true → c ≢ b','
unfolding is_digit
is_digit-ne_comma c h = ground arith

IsPhone-Free : (p : Bytes) → IsPhone p → Free b',' p
IsPhone-Free p h = All-imp _ _ is_digit-ne_comma p (IsPhone-digits p h)

load_phones-cons :
    (p : Bytes) (rest : List Bytes) (m : Map Bytes (Unit {0}))
    → IsPhone p
    → load_phones (p ∷ rest) m ≡ load_phones rest (insert p tt m)
unfolding load_phones
load_phones-cons p rest m h = rw h

load_phones-comma_list :
    (m m0 : Map Bytes (Unit {0}))
    → All (λ e. IsPhone e.0) m
    → load_phones (split b',' (comma_list m)) m0 ≡ insert_all m m0
unfolding comma_list split
load_phones-comma_list [] m0 h = unfold load_phones in refl
load_phones-comma_list ((p, u) ∷ []) m0 h =
    ap (λ (l : List Bytes). load_phones l m0)
      (split_last b',' p (IsPhone-Free p h.0) (IsPhone-ne_nil p h.0))
    ∙ load_phones-cons p [] m0 h.0
    ∙ (unfold load_phones in refl)
load_phones-comma_list ((p, u) ∷ q ∷ m) m0 h =
    ap (λ (l : List Bytes). load_phones l m0)
      (split-Free b',' p (comma_list (q ∷ m)) (IsPhone-Free p h.0))
    ∙ load_phones-cons p (split b',' (comma_list (q ∷ m))) m0 h.0
    ∙ load_phones-comma_list (q ∷ m) (insert p tt m0) h.1

-- The three lines that are always there.
load_default_line :
    (s : HeaterState) (rest : Bytes) (st : Station)
    → load_lines
        (split b'\n' (codes "default_heater_state=" ++ (state_word s ++ (b'\n' ∷ rest))))
        st
      ≡ load_lines (split b'\n' rest) (record st { heater_default_state = s })
load_default_line s rest st =
    load_lines-line (codes "default_heater_state=" ++ state_word s) rest st (
      All-append _ (codes "default_heater_state=") (state_word s) (ground arith)
        (state_word_plain s).1)
    ∙ ap (load_lines (split b'\n' rest)) (
        load_line-entry (codes "default_heater_state") (state_word s) st (ground arith)
          (unfold is_space in ground arith) (state_word_plain s).0
        ∙ (unfold load_key in rw (parse_state-state_word s, load_default)))

load_whitelist_line :
    (m : Map Bytes (Unit {0})) (rest : Bytes) (st : Station)
    → All (λ e. IsPhone e.0) m
    → load_lines (split b'\n' (codes "whitelist=" ++ (comma_list m ++ (b'\n' ∷ rest)))) st
      ≡ load_lines
          (split b'\n' rest)
          (record st { phone_whitelist = insert_all m st.phone_whitelist })
load_whitelist_line m rest st h =
    let plain = comma_list-IsPlain m h in
    load_lines-line (codes "whitelist=" ++ comma_list m) rest st (
      All-append _ (codes "whitelist=") (comma_list m) (ground arith)
        (All-imp _ _ (λ c p. p.no_newline) (comma_list m) plain))
    ∙ ap (load_lines (split b'\n' rest)) (
        load_line-entry (codes "whitelist") (comma_list m) st (ground arith)
          (unfold is_space in ground arith) (All-imp _ _ (λ c p. p.no_space) (comma_list m) plain)
        ∙ (unfold load_key in
            ap (λ (w : Map Bytes (Unit {0})). record st { phone_whitelist = w })
              (load_phones-comma_list m st.phone_whitelist h)))

emergency-IsPlain : (p : Bytes) → (p ≡ []) ⊎ IsPhone p → All IsPlain p
emergency-IsPlain p (inl e) = rw e tt
emergency-IsPlain p (inr h) = IsPhone-IsPlain p h

load_emergency-valid :
    (p : Bytes) (st : Station)
    → (p ≡ []) ⊎ IsPhone p
    → st.emergency_phone ≡ []
    → load_emergency p st ≡ record st { emergency_phone = p }
unfolding load_emergency
load_emergency-valid p st (inl e) none_yet = rw e (λ i. record st { emergency_phone = none_yet i })
load_emergency-valid p st (inr h) none_yet = rw h

load_emergency_line :
    (p : Bytes) (st : Station)
    → (p ≡ []) ⊎ IsPhone p
    → st.emergency_phone ≡ []
    → load_lines (split b'\n' (codes "emergency_phone=" ++ (p ++ codes "\n"))) st
      ≡ record st { emergency_phone = p }
load_emergency_line p st h none_yet =
    let plain = emergency-IsPlain p h in
    load_lines-line (codes "emergency_phone=" ++ p) [] st (
      All-append _ (codes "emergency_phone=") p (ground arith)
        (All-imp _ _ (λ c q. q.no_newline) p plain))
    ∙ (unfold load_lines split in
        load_line-entry (codes "emergency_phone") p st (ground arith)
          (unfold is_space in ground arith) (All-imp _ _ (λ c q. q.no_space) p plain)
        ∙ (unfold load_key in load_emergency-valid p st h none_yet))

-- The members that the state file holds, over those of `rest`. The flag `m_locked` is not one.
abbrev pub restored : Station → Station → Station
restored st rest = record rest {
  heater_default_state = st.heater_default_state;
  heater_state = st.heater_state;
  phone_whitelist = st.phone_whitelist;
  emergency_phone = st.emergency_phone;
}

-- A station whose maps are in order and whose names and numbers are well formed is restored from
-- its file: a start on the text that `saveState` writes has the same default state, states of
-- heaters, white list and emergency number, and the initial value of every other member.
pub load_state-render :
    (st : Station) → IsValid st → load_state (render st) initial ≡ restored st initial
unfolding load_state render initial
load_state-render st v =
    load_default_line st.heater_default_state _ _
    ∙ load_lines-heater_lines st.heater_state _ _ v.names
    ∙ load_whitelist_line st.phone_whitelist _ _ v.phones
    ∙ load_emergency_line st.emergency_phone _ v.emergency refl
    ∙ (λ i. record initial {
      heater_default_state = st.heater_default_state;
      heater_state = insert_all-nil st.heater_state v.names_sorted i;
      phone_whitelist = insert_all-nil st.phone_whitelist v.phones_sorted i;
      emergency_phone = st.emergency_phone;
    })
