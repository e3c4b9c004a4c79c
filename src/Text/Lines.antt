-- ===== src/Text/Lines.antt =====
-- Cutting a text at delimiters, and trimming it, where the pieces hold none.
use mathlib.Core.List.{reverse, reverse-cons, reverse-reverse}
use iot_heater.Prelude.{
  ℕ, false, [], ◌∷◌, ◌++◌, some, ◌≡◌, ◌≢◌, refl, ap, ◌∙◌, sym, arith, All, ◌==◌, append-nil,
  append_assoc,
}
use iot_heater.Text.{Bytes, is_space, split_onto, split, break_at, trim_front, trim_back, trim}
use iot_heater.Text.Laws.{All-reverse}

-- No byte of the text is the delimiter.
abbrev pub Free : ℕ → Bytes → Type 0
Free d s = All (λ c. c ≢ d) s

abbrev pub NoSpace : Bytes → Type 0
NoSpace s = All (λ c. is_space c ≡ false) s

pub break_at-Free :
    (d : ℕ) (key val : Bytes) → Free d key → break_at d (key ++ d ∷ val) ≡ some (key, val)
unfolding break_at
break_at-Free d [] val h = ground arith
break_at-Free d (c ∷ key) val h = ground (arith, break_at-Free d key val h.1, h.0)

split_onto-Free :
    (d : ℕ) (w line rest : Bytes)
    → Free d line
    → split_onto d w (line ++ d ∷ rest) ≡ (reverse w ++ line) ∷ split_onto d [] rest
unfolding split_onto
split_onto-Free d w [] rest h = ground (arith, append-nil (reverse w))
split_onto-Free d w (c ∷ line) rest h =
    let miss : (c == d) ≡ false = ground (arith, h.0) in
    rw miss (
      split_onto-Free d (c ∷ w) line rest h.1
      ∙ ap (λ (x : Bytes). x ∷ split_onto d [] rest)
          (ap (λ (x : Bytes). x ++ line) (reverse-cons c w)
            ∙ append_assoc (reverse w) (c ∷ []) line))

-- The first line is cut off.
pub split-Free :
    (d : ℕ) (line rest : Bytes) → Free d line → split d (line ++ d ∷ rest) ≡ line ∷ split d rest
unfolding split
split-Free d line rest h = split_onto-Free d [] line rest h

split_onto_last :
    (d : ℕ) (w line : Bytes)
    → Free d line
    → reverse w ++ line ≢ []
    → split_onto d w line ≡ (reverse w ++ line) ∷ []
unfolding split_onto
split_onto_last d [] [] h ne = absurd (ne refl)
split_onto_last d (x ∷ w) [] h ne = ap (λ (l : Bytes). l ∷ []) (sym (append-nil (reverse (x ∷ w))))
split_onto_last d w (c ∷ line) h ne =
    let miss : (c == d) ≡ false = ground (arith, h.0) in
    let e =
      ap (λ (x : Bytes). x ++ line) (reverse-cons c w) ∙ append_assoc (reverse w) (c ∷ []) line in
    rw miss
      (split_onto_last d (c ∷ w) line h.1 (λ z. ne (sym e ∙ z)) ∙ ap (λ (l : Bytes). l ∷ []) e)

-- The last piece needs no delimiter behind it, if it is not empty.
pub split_last : (d : ℕ) (line : Bytes) → Free d line → line ≢ [] → split d line ≡ line ∷ []
unfolding split
split_last d line h ne = split_onto_last d [] line h ne

trim_front-NoSpace : (s : Bytes) → NoSpace s → trim_front s ≡ s
unfolding trim_front
trim_front-NoSpace [] h = refl
trim_front-NoSpace (c ∷ s) h = rw (h.0)

pub trim-NoSpace : (s : Bytes) → NoSpace s → trim s ≡ s
unfolding trim trim_back
trim-NoSpace s h =
    rw (trim_front-NoSpace s h, trim_front-NoSpace (reverse s) (All-reverse _ s h))
      (reverse-reverse s)
