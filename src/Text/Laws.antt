-- ===== src/Text/Laws.antt =====
-- Laws of the tests on byte strings.
use mathlib.Core.List.{reverse, reverse-cons, reverse-append, reverse-reverse}
use iot_heater.Prelude.{
  ℕ, Bool, true, false, [], ◌∷◌, ◌++◌, ◌≡◌, ◌≢◌, ◌↔◌, refl, sym, ap, ◌∙◌, arith, All, All-append,
  length, length-append, drop, ltb,
}
use iot_heater.Text.{Bytes, str_eq, all_bytes, starts_with, ends_with, to_upper, is_space, is_alnum}

pub str_eq_iff : (a b : Bytes) → (str_eq a b ≡ true) ↔ (a ≡ b)
unfolding str_eq
str_eq_iff [] [] = ground arith
str_eq_iff [] (y ∷ b) = ground arith
str_eq_iff (x ∷ a) [] = ground arith
str_eq_iff (x ∷ a) (y ∷ b) = ground (arith, str_eq_iff a b)

pub all_bytes-All : (p : ℕ → Bool) (s : Bytes) → all_bytes p s ≡ true → All (λ c. p c ≡ true) s
unfolding all_bytes
all_bytes-All p [] h = tt
all_bytes-All p (c ∷ s) h = (ground arith, all_bytes-All p s (ground arith))

pub All-all_bytes : (p : ℕ → Bool) (s : Bytes) → All (λ c. p c ≡ true) s → all_bytes p s ≡ true
unfolding all_bytes
All-all_bytes p [] h = refl
All-all_bytes p (c ∷ s) h = rw (h.0, All-all_bytes p s h.1)

pub All-reverse {κ} : (P : ℕ → Type κ) (s : Bytes) → All P s → All P (reverse s)
All-reverse P [] h = tt
All-reverse P (c ∷ s) h =
    rw (reverse-cons c s) (All-append P (reverse s) (c ∷ []) (All-reverse P s h.1) (h.0, tt))

pub length-reverse : (s : Bytes) → length (reverse s) ≡ length s
length-reverse [] = refl
length-reverse (c ∷ s) =
    omega
      (arith, ap length (reverse-cons c s), length-append (reverse s) (c ∷ []), length-reverse s)

pub starts_with-append : (p s : Bytes) → starts_with (p ++ s) p ≡ true
unfolding starts_with
starts_with-append [] [] = refl
starts_with-append [] (x ∷ s) = refl
starts_with-append (c ∷ p) s = ground (arith, starts_with-append p s)

-- A text with a prefix is the prefix and what is left when it is dropped.
pub starts_with-eq_append : (s p : Bytes) → starts_with s p ≡ true → s ≡ p ++ drop (length p) s
unfolding starts_with
starts_with-eq_append s [] h = refl
starts_with-eq_append [] (c ∷ p) h = absurd (cc)
starts_with-eq_append (x ∷ s) (c ∷ p) h = ground (arith, starts_with-eq_append s p)

pub ends_with-append : (s e : Bytes) → ends_with (s ++ e) e ≡ true
unfolding ends_with
ends_with-append s e =
    let fits : ltb (length (s ++ e)) (length e) ≡ false = ground (arith, length-append s e) in
    rw (fits, reverse-append s e) (starts_with-append (reverse e) (reverse s))

-- A text with a suffix is some text followed by the suffix.
pub ends_with-eq_append : (s e : Bytes) → ends_with s e ≡ true → (front : Bytes) × (s ≡ front ++ e)
unfolding ends_with
ends_with-eq_append s e h =
    let starts : starts_with (reverse s) (reverse e) ≡ true = ground arith in
    let rest = drop (length (reverse e)) (reverse s) in
    (
      reverse rest,
      sym (reverse-reverse s)
          ∙ ap reverse (starts_with-eq_append (reverse s) (reverse e) starts)
          ∙ reverse-append (reverse e) rest
          ∙ ap (◌++◌ (reverse rest)) (reverse-reverse e),
    )

pub to_upper_idem : (c : ℕ) → to_upper (to_upper c) ≡ to_upper c
unfolding to_upper
to_upper_idem c = ground arith

-- The classes of bytes that names and numbers are made of.
pub is_alnum_plain :
    (c : ℕ)
    → is_alnum c ≡ true
    → (is_space c ≡ false) × (c ≢ b'=') × (c ≢ 10) × (c ≢ 0) × (c ≢ 0xFF)
unfolding is_alnum is_space
is_alnum_plain c h = ground arith
