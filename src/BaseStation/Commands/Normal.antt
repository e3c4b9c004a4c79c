-- ===== src/BaseStation/Commands/Normal.antt =====
-- What the trimmed text in capitals is like, and the words of such a text.
use mathlib.Core.List.{reverse, reverse-cons, reverse-append, reverse-reverse}
use iot_heater.Prelude.{
  ℕ, true, false, [], ◌∷◌, ◌++◌, ◌≡◌, ◌≢◌, ◌⊎◌, inl, inr, refl, ap, sym, ◌∙◌, arith, map,
  Bool-cases, if◌then◌else◌, drop, some, get_elem?, List,
}
use iot_heater.Text.{
  Bytes, codes, is_space, to_upper, trim_front, trim_back, trim, tokens, words_onto, starts_with,
}
use iot_heater.Text.Laws.{to_upper_idem, starts_with-eq_append}
use iot_heater.BaseStation.Commands.Classify.{normalise}

pub normalise-capitals : (s : Bytes) → map to_upper (normalise s) ≡ normalise s
unfolding normalise
normalise-capitals s = go (trim s)
  where
    go : (t : Bytes) → map to_upper (map to_upper t) ≡ map to_upper t
    go [] = refl
    go (c ∷ t) = cc (to_upper_idem c, go t)

-- The text does not end in white space.
abbrev pub EndsInk : Bytes → Type 0
EndsInk s = (s ≡ []) ⊎ ((front : Bytes) × (c : ℕ) × (s ≡ front ++ c ∷ []) × (is_space c ≡ false))

trim_front-head :
    (s : Bytes)
    → (trim_front s ≡ []) ⊎ ((c : ℕ) × (t : Bytes) × (trim_front s ≡ c ∷ t) × (is_space c ≡ false))
unfolding trim_front
trim_front-head [] = inl refl
trim_front-head (c ∷ s) = elim (Bool-cases (is_space c)) [
  | inl e ↦ rw e (trim_front-head s)
  | inr e ↦ rw e (inr (c, s, refl, e))
]

trim_back-EndsInk : (s : Bytes) → EndsInk (trim_back s)
unfolding trim_back
trim_back-EndsInk s = elim (trim_front-head (reverse s)) [
  | inl e ↦ inl (ap reverse e)
  | inr (c, t, e, h) ↦ inr (reverse t, c, ap reverse e ∙ reverse-cons c t, h)
]

to_upper-space : (c : ℕ) → is_space c ≡ false → is_space (to_upper c) ≡ false
unfolding is_space to_upper
to_upper-space c h = ground arith

map-snoc :
    (front : Bytes) (c : ℕ) → map to_upper (front ++ c ∷ []) ≡ map to_upper front ++ to_upper c ∷ []
map-snoc [] c = refl
map-snoc (x ∷ front) c = ap (◌∷◌ (to_upper x)) (map-snoc front c)

pub normalise-EndsInk : (s : Bytes) → EndsInk (normalise s)
unfolding normalise trim
normalise-EndsInk s = elim (trim_back-EndsInk (trim_front s)) [
  | inl e ↦ inl (ap (map to_upper) e)
  | inr (front, c, e, h) ↦
      inr
        (map to_upper front, to_upper c, ap (map to_upper) e ∙ map-snoc front c, to_upper-space c h)
]

words_onto-ne_nil :
    (w front : Bytes) (c : ℕ) → is_space c ≡ false → words_onto w (front ++ c ∷ []) ≢ []
unfolding words_onto
words_onto-ne_nil [] [] c h e = cc (rw (h, words_onto) at e)
words_onto-ne_nil (x ∷ w) [] c h e = cc (rw (h, words_onto) at e)
words_onto-ne_nil [] (d ∷ front) c h e =
    words_onto-ne_nil (if is_space d then [] else d ∷ []) front c h e
words_onto-ne_nil (x ∷ w) (d ∷ front) c h e = elim (Bool-cases (is_space d)) [
  | inl s ↦ cc (rw s at e)
  | inr s ↦ words_onto-ne_nil (d ∷ x ∷ w) front c h (rw s at e)
]

-- A text that ends in ink behind a prefix that ends in a blank has more behind it, and the rest
-- ends in ink too.
behind_prefix :
    (p rest : Bytes) (c : ℕ) (front : Bytes)
    → is_space c ≡ false
    → (p ++ b' ' ∷ []) ++ rest ≡ front ++ c ∷ []
    → (g : Bytes) × (rest ≡ g ++ c ∷ [])
behind_prefix p rest c front h e = view (reverse rest) refl
  where
    turned : reverse rest ++ (b' ' ∷ reverse p) ≡ c ∷ reverse front
    turned =
        ap (λ (x : Bytes). reverse rest ++ x) (sym (reverse-append p (b' ' ∷ [])))
        ∙ sym (reverse-append (p ++ b' ' ∷ []) rest)
        ∙ ap reverse e
        ∙ reverse-append front (c ∷ [])

    view : (t : Bytes) → reverse rest ≡ t → (g : Bytes) × (rest ≡ g ++ c ∷ [])
    view [] r =
        let blank : b' ' ≡ c = cc (ap (λ (x : Bytes). x ++ (b' ' ∷ reverse p)) r, turned) in
        absurd (unfold is_space in cc (rw (← blank) at h))
    view (d ∷ t) r =
        let same : d ≡ c = cc (ap (λ (x : Bytes). x ++ (b' ' ∷ reverse p)) r, turned) in
        (
          reverse t,
          sym (reverse-reverse rest)
              ∙ ap reverse r
              ∙ reverse-cons d t
              ∙ ap (λ (x : ℕ). reverse t ++ x ∷ []) same,
        )

second_of_cons :
    (w : Bytes) (l : List Bytes) → l ≢ [] → (v : Bytes) × (get_elem? (w ∷ l) 1 ≡ some v)
second_of_cons w [] ne = absurd (ne refl)
second_of_cons w (v ∷ l) ne = (v, refl)

-- The second word that `UNLOCK` reads is there.
pub second_word :
    (content : Bytes)
    → EndsInk content
    → starts_with content (codes "UNLOCK ") ≡ true
    → (w : Bytes) × (get_elem? (tokens content) 1 ≡ some w)
unfolding tokens
second_word content (inl e) h = absurd (unfold starts_with in cc (rw e at h))
second_word content (inr (front, c, e, ink)) h =
    let rest = drop 7 content in
    let cut = starts_with-eq_append content (codes "UNLOCK ") h in
    let (g, r) = behind_prefix (codes "UNLOCK") rest c front ink (sym cut ∙ e) in
    let split : tokens content ≡ codes "UNLOCK" ∷ words_onto [] rest =
      ap tokens cut ∙ (unfold words_onto in refl) in
    let (w, found) =
      second_of_cons (codes "UNLOCK") (words_onto [] rest)
        (λ z. words_onto-ne_nil [] g c ink (ap (words_onto []) (sym r) ∙ z)) in
    (w, ap (λ (l : List Bytes). get_elem? l 1) split ∙ found)
