-- ===== src/OrdMap/Laws.antt =====
-- The laws of the map operations, over any order on the keys.
use iot_heater.Prelude.{
  List, sym, ◌∙◌, append-nil, append_assoc, All-append, Bool, true, false, [], ◌∷◌, ◌++◌, none,
  some, ◌≡◌, refl, ap, arith, All, All-imp, Bool-cases, inl, inr, ◌↔◌, if◌then◌else◌,
}
use iot_heater.OrdMap.{
  Ordered, Map, same, find, insert, erase, contains, map_values, Above, IsSorted,
}

module _ {K : Type 0} ⦃o : Ordered K⦄ where
  pub same_iff : (a b : K) → (same a b ≡ true) ↔ (a ≡ b)
  same_iff a b = (λ h. o.lt_total a b (ground arith) (ground arith), λ e. rw (e, o.lt_irrefl b))

module _ {K V : Type 0} ⦃o : Ordered K⦄ where
  -- A write is seen at its own key, and at no other.
  pub find-insert :
      (j k : K) (v : V) (m : Map K V)
      → find j (insert k v m) ≡ (if same j k then some v else find j m)
  unfolding find insert
  find-insert j k v [] = refl
  find-insert j k v ((i, w) ∷ m) = ground (
    arith,
    find-insert j k v m,
    same_iff j k,
    same_iff k i,
    same_iff j i,
    o.lt_irrefl i,
    o.lt_irrefl k,
  )

  pub insert-All {κ} :
      (P : K × V → Type κ) (k : K) (v : V) (m : Map K V) → P (k, v) → All P m → All P (insert k v m)
  unfolding insert
  insert-All P k v [] p h = (p, tt)
  insert-All P k v ((j, w) ∷ m) p h = elim (Bool-cases (o.lt k j)) [
    | inl e ↦ rw e (p, h)
    | inr e ↦ rw e (elim (Bool-cases (o.lt j k)) [
      | inl f ↦ rw f (h.0, insert-All P k v m p h.1)
      | inr f ↦ rw f (p, h.1)
    ])
  ]

  Above-trans : (j k : K) (m : Map K V) → o.lt j k ≡ true → Above k m → Above j m
  Above-trans j k m h = All-imp _ _ (λ e p. o.lt_trans j k e.0 h p) m

  pub insert-IsSorted : (k : K) (v : V) (m : Map K V) → IsSorted m → IsSorted (insert k v m)
  unfolding insert
  insert-IsSorted k v [] s = (tt, tt)
  insert-IsSorted k v ((j, w) ∷ m) s = elim (Bool-cases (o.lt k j)) [
    | inl e ↦ rw e ((e, Above-trans k j m e s.0), s)
    | inr e ↦ rw e (elim (Bool-cases (o.lt j k)) [
      | inl f ↦ rw f (insert-All _ k v m f s.0, insert-IsSorted k v m s.1)
      | inr f ↦ rw (f, o.lt_total k j e f) s
    ])
  ]

  -- A key above all others goes to the end.
  pub insert_last :
      (k : K) (v : V) (m : Map K V)
      → All (λ e. o.lt e.0 k ≡ true) m
      → insert k v m ≡ m ++ (k, v) ∷ []
  unfolding insert
  insert_last k v [] h = refl
  insert_last k v ((j, w) ∷ m) h = elim (Bool-cases (o.lt k j)) [
    | inl e ↦ absurd (false≢true' (o.lt_trans k j k e h.0) (o.lt_irrefl k))
    | inr e ↦ rw (e, h.0) (ap (◌∷◌ (j, w)) (insert_last k v m h.1))
  ]
    where
      false≢true' : {b : Bool} → b ≡ true → b ≡ false → ⊥
      false≢true' p q = cc

  pub erase-All {κ} : (P : K × V → Type κ) (k : K) (m : Map K V) → All P m → All P (erase k m)
  unfolding erase
  erase-All P k [] h = tt
  erase-All P k ((j, w) ∷ m) h = elim (Bool-cases (same k j)) [
    | inl e ↦ rw e (erase-All P k m h.1)
    | inr e ↦ rw e (h.0, erase-All P k m h.1)
  ]

  pub erase-IsSorted : (k : K) (m : Map K V) → IsSorted m → IsSorted (erase k m)
  unfolding erase
  erase-IsSorted k [] s = tt
  erase-IsSorted k ((j, w) ∷ m) s = elim (Bool-cases (same k j)) [
    | inl e ↦ rw e (erase-IsSorted k m s.1)
    | inr e ↦ rw e (erase-All _ k m s.0, erase-IsSorted k m s.1)
  ]

  pub find-erase :
      (j k : K) (m : Map K V) → find j (erase k m) ≡ (if same j k then none else find j m)
  unfolding find erase
  find-erase j k [] = ground arith
  find-erase j k ((i, w) ∷ m) =
      ground (arith, find-erase j k m, same_iff j k, same_iff k i, same_iff j i)

  pub map_values-All {κ} :
      (P : K × V → Type κ) (f : V → V) (m : Map K V)
      → ((k : K) (v : V) → P (k, v) → P (k, f v))
      → All P m
      → All P (map_values f m)
  unfolding map_values
  map_values-All P f [] g h = tt
  map_values-All P f ((j, w) ∷ m) g h = (g j w h.0, map_values-All P f m g h.1)

  pub map_values-IsSorted : (f : V → V) (m : Map K V) → IsSorted m → IsSorted (map_values f m)
  unfolding map_values
  map_values-IsSorted f [] s = tt
  map_values-IsSorted f ((j, w) ∷ m) s =
      (map_values-All _ f m (λ k v p. p) s.0, map_values-IsSorted f m s.1)

  pub find-map_values :
      (f : V → V) (k : K) (m : Map K V)
      → find k (map_values f m) ≡ elim (find k m) [ none ↦ none | some v ↦ some (f v) ]
  unfolding find map_values
  find-map_values f k [] = refl
  find-map_values f k ((j, w) ∷ m) = ground (arith, find-map_values f k m)

  pub contains-find : (k : K) (m : Map K V) → contains k m ≡ true → (v : V) × (find k m ≡ some v)
  unfolding contains
  contains-find k m h = ground arith

  -- The entries of a list, inserted one after the other.
  abbrev pub insert_all : List (K × V) → Map K V → Map K V
  insert_all [] m = m
  insert_all ((k, v) ∷ l) m = insert_all l (insert k v m)

  abbrev AllBelow : Map K V → Map K V → Type 0
  AllBelow m l = All (λ f. All (λ e. o.lt e.0 f.0 ≡ true) m) l

  AllBelow-snoc :
      (m l : Map K V) (k : K) (v : V) → Above k l → AllBelow m l → AllBelow (m ++ (k, v) ∷ []) l
  AllBelow-snoc m [] k v a b = tt
  AllBelow-snoc m (f ∷ l) k v a b =
      (All-append _ m ((k, v) ∷ []) b.0 (a.0, tt), AllBelow-snoc m l k v a.1 b.1)

  insert_all-AllBelow : (l m : Map K V) → IsSorted l → AllBelow m l → insert_all l m ≡ m ++ l
  insert_all-AllBelow [] m s b = sym (append-nil m)
  insert_all-AllBelow ((k, v) ∷ l) m s b = rw (insert_last k v m b.0) (
      insert_all-AllBelow l (m ++ (k, v) ∷ []) s.1 (AllBelow-snoc m l k v s.0 b.1)
      ∙ append_assoc m ((k, v) ∷ []) l)

  AllBelow-nil : (l : Map K V) → AllBelow [] l
  AllBelow-nil [] = tt
  AllBelow-nil (f ∷ l) = (tt, AllBelow-nil l)

  -- Inserting the entries of a map in order rebuilds the map.
  pub insert_all-nil : (l : Map K V) → IsSorted l → insert_all l [] ≡ l
  insert_all-nil l s = insert_all-AllBelow l [] s (AllBelow-nil l)
