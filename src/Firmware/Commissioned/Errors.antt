-- ===== src/Firmware/Commissioned/Errors.antt =====
-- The queue of errors keeps the last five.
use iot_heater.Prelude.{
  ℕ, zero, suc, ◌-◌, ◌≤◌, ◌<◌, true, false, List, [], ◌∷◌, ◌++◌, ◌≡◌, refl, ap, sym, ◌∙◌, arith,
  length, length-append, drop, leb, Bool-cases, inl, inr, append-nil, append_assoc, length-drop,
}
use iot_heater.Firmware.Commissioned.Device.{
  Device, ErrorCode, ErrorRecord, ErrorQueue, record_error, fail,
}

-- The last five of a list.
abbrev pub last_five : List ErrorRecord → List ErrorRecord
last_five l = drop (length l - 5) l

-- Failures one after the other.
unfoldable pub fail_all : (eq : ErrorQueue) → List ErrorRecord → Device eq.Queue → Device eq.Queue
fail_all eq [] d = d
fail_all eq (r ∷ rs) d = fail_all eq rs (fail eq r.code r.timestamp d)

drop-snoc :
    (n : ℕ) (l : List ErrorRecord) (r : ErrorRecord)
    → n ≤ length l
    → drop n (l ++ (r ∷ [])) ≡ drop n l ++ (r ∷ [])
drop-snoc zero l r h = refl
drop-snoc (suc n) [] r h = absurd (omega arith)
drop-snoc (suc n) (x ∷ l) r h = drop-snoc n l r (omega arith)

drop-drop : (n : ℕ) (l : List ErrorRecord) → drop 1 (drop n l) ≡ drop (suc n) l
drop-drop zero l = refl
drop-drop (suc n) [] = refl
drop-drop (suc n) (x ∷ l) = drop-drop n l

full_iff : {n : ℕ} → leb 5 n ≡ true → 5 ≤ n
full_iff h = ground arith

-- One more error, where the queue holds the last five of those before.
fail-last_five :
    (eq : ErrorQueue) (code : ErrorCode) (now : ℕ) (d : Device eq.Queue) (past : List ErrorRecord)
    → eq.contents d.errors ≡ last_five past
    → eq.contents (fail eq code now d).errors
      ≡ last_five (past ++ (record { code = code; timestamp = now } ∷ []))
unfolding fail record_error
fail-last_five eq code now d past h =
    let r : ErrorRecord = record { code = code; timestamp = now } in
    let n : ℕ = length past - 5 in
    let size : length (eq.contents d.errors) ≡ length past - n = ap length h ∙ length-drop n past in
    let grown : length (past ++ (r ∷ [])) ≡ suc (length past) =
      omega (arith, length-append past (r ∷ [])) in
    elim (Bool-cases (leb 5 (length past))) [
      | inl full ↦
          let is_full : eq.is_full d.errors ≡ true =
            eq.is_full-length d.errors ∙ ground (arith, size, full) in
          let rest : eq.contents (eq.drop_oldest d.errors) ≡ drop (suc n) past =
            eq.contents-drop_oldest d.errors ∙ ap (drop 1) h ∙ drop-drop n past in
          let small : length (eq.contents (eq.drop_oldest d.errors)) < 5 =
            omega (arith, ap length rest, length-drop (suc n) past, full_iff full) in
          let e : length (past ++ (r ∷ [])) - 5 ≡ suc n = omega (arith, grown, full_iff full) in
          rw is_full (
            eq.contents-push r (eq.drop_oldest d.errors) small
            ∙ ap (λ (l : List ErrorRecord). l ++ (r ∷ [])) rest
            ∙ sym (drop-snoc (suc n) past r (omega (arith, full_iff full)))
            ∙ ap (λ (k : ℕ). drop k (past ++ (r ∷ []))) (sym e))
      | inr room ↦
          let is_full : eq.is_full d.errors ≡ false =
            eq.is_full-length d.errors ∙ ground (arith, size, room) in
          let few : length past < 5 = ground arith in
          let e : length (past ++ (r ∷ [])) - 5 ≡ n = omega (arith, grown) in
          rw is_full (
            eq.contents-push r d.errors (omega (arith, size))
            ∙ ap (λ (l : List ErrorRecord). l ++ (r ∷ [])) h
            ∙ sym (drop-snoc n past r (omega arith))
            ∙ ap (λ (k : ℕ). drop k (past ++ (r ∷ []))) (sym e))
    ]

errors-from :
    (eq : ErrorQueue) (rs : List ErrorRecord) (d : Device eq.Queue) (past : List ErrorRecord)
    → eq.contents d.errors ≡ last_five past
    → eq.contents (fail_all eq rs d).errors ≡ last_five (past ++ rs)
unfolding fail_all
errors-from eq [] d past h = h ∙ ap last_five (sym (append-nil past))
errors-from eq (r ∷ rs) d past h =
    errors-from eq rs (fail eq r.code r.timestamp d) (past ++ (r ∷ []))
      (fail-last_five eq r.code r.timestamp d past h)
    ∙ ap last_five (append_assoc past (r ∷ []) rs)

-- From an empty queue, the errors that the web page lists after any failures are the last five of
-- them, oldest first.
pub errors-last_five :
    (eq : ErrorQueue) (rs : List ErrorRecord) (d : Device eq.Queue)
    → eq.contents d.errors ≡ []
    → eq.contents (fail_all eq rs d).errors ≡ last_five rs
errors-last_five eq rs d h = errors-from eq rs d [] h
