-- ===== src/Sms/Receiver/Incoming.antt =====
-- A file as smstools writes it is parsed to its sender and its text.
use iot_heater.Prelude.{
  ℕ, true, false, List, [], ◌∷◌, ◌++◌, some, ◌≡◌, ◌≢◌, refl, ap, ◌∙◌, arith, All, All-append,
  All-imp,
}
use iot_heater.Text.{Bytes, codes, is_digit, split, split_onto, starts_with, occurs, last_at_zero}
use iot_heater.Text.Lines.{Free, split-Free}
use iot_heater.Sms.Receiver.{skip_header, join_lines, parse_lines, parse_sms}

-- Lines, each with its newline.
unfoldable pub lines_text : List Bytes → Bytes
lines_text [] = []
lines_text (line ∷ lines) = line ++ b'\n' ∷ lines_text lines

-- The file: the sender, other lines of the header, an empty line, the text.
abbrev pub sms_file : Bytes → List Bytes → List Bytes → Bytes
sms_file from header text = lines_text ((codes "From: " ++ from) ∷ (header ++ ([] ∷ text)))

split-lines_text :
    (lines : List Bytes) → All (Free b'\n') lines → split b'\n' (lines_text lines) ≡ lines
unfolding lines_text
split-lines_text [] h = unfold split split_onto in refl
split-lines_text (line ∷ lines) h =
    split-Free b'\n' line (lines_text lines) h.0
    ∙ ap (λ (x : List Bytes). line ∷ x) (split-lines_text lines h.1)

abbrev pub Digits : Bytes → Type 0
Digits s = All (λ c. is_digit c ≡ true) s

-- Digits hold no word that begins with a letter.
occurs-Digits : (s : Bytes) → Digits s → occurs (codes "From: ") s ≡ false
unfolding occurs starts_with is_digit
occurs-Digits [] h = refl
occurs-Digits (c ∷ s) h = ground (arith, occurs-Digits s h.1, h.0)

last_at_zero-from :
    (from : Bytes) → Digits from → last_at_zero (codes "From: ") (codes "From: " ++ from) ≡ true
unfolding last_at_zero occurs starts_with
last_at_zero-from from h = rw (occurs-Digits from h) refl

skip_header-append :
    (header text : List Bytes)
    → All (λ l. l ≢ []) header
    → skip_header (header ++ ([] ∷ text)) ≡ text
unfolding skip_header
skip_header-append [] text h = refl
skip_header-append ([] ∷ header) text h = absurd (h.0 refl)
skip_header-append ((c ∷ l) ∷ header) text h = skip_header-append header text h.1

digit-newline : (c : ℕ) → is_digit c ≡ true → c ≢ b'\n'
unfolding is_digit
digit-newline c h e = ground arith

-- A file that names a sender of digits, more lines of a header, none of them empty, an empty line
-- and lines of text is parsed to that sender and the lines of the text, joined.
pub parse_sms-sms_file :
    (from : Bytes) (header text : List Bytes)
    → Digits from
    → All (Free b'\n') header
    → All (λ l. l ≢ []) header
    → All (Free b'\n') text
    → parse_sms (some (sms_file from header text)) ≡ some (from, join_lines text)
unfolding parse_sms parse_lines
parse_sms-sms_file from header text digits free filled plain =
    let first : Free b'\n' (codes "From: " ++ from) =
      All-append _ (codes "From: ") from (ground arith) (All-imp _ _ digit-newline from digits) in
    let lines = (codes "From: " ++ from) ∷ (header ++ ([] ∷ text)) in
    ap parse_lines
      (split-lines_text lines (first, All-append _ header ([] ∷ text) free (tt, plain)))
    ∙ (unfold parse_lines in
        rw (last_at_zero-from from digits, skip_header-append header text filled) refl)
