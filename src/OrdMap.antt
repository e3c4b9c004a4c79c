-- ===== src/OrdMap.antt =====
-- `std::map` and `std::set` as the program uses them: the entries in ascending order of their
-- keys. A set is a map into the unit type. The order of the keys is an interface that the two
-- kinds of keys, byte strings and MAC addresses, fill in OrdMap/Keys.
pub mod Laws
pub mod Keys
use iot_heater.Prelude.{
  Bool, true, false, not, ◌&&◌, List, [], ◌∷◌, map, Option, none, some, ◌≡◌, All, if◌then◌else◌,
}

-- A strict order on keys, as `std::less` gives it, with its laws.
pub record Ordered {ℓ} (K : Type ℓ) : Type ℓ where
  pub lt : K → K → Bool
  pub lt_irrefl : (a : K) → lt a a ≡ false
  pub lt_trans : (a b c : K) → lt a b ≡ true → lt b c ≡ true → lt a c ≡ true
  pub lt_total : (a b : K) → lt a b ≡ false → lt b a ≡ false → a ≡ b

abbrev pub Map : Type 0 → Type 0 → Type 0
Map K V = List (K × V)

-- The keys are equivalent: neither is less.
abbrev pub same {ℓ} : {K : Type ℓ} ⦃o : Ordered K⦄ → K → K → Bool
same ⦃o⦄ a b = not (o.lt a b) && not (o.lt b a)

module _ {K V : Type 0} ⦃o : Ordered K⦄ where
  unfoldable pub find : K → Map K V → Option V
  find k [] = none
  find k ((j, w) ∷ m) = if same k j then some w else find k m

  -- `m[k] = v`, and `insert` on a set.
  unfoldable pub insert : K → V → Map K V → Map K V
  insert k v [] = (k, v) ∷ []
  insert k v ((j, w) ∷ m) =
      if o.lt k j
      then (k, v) ∷ (j, w) ∷ m
      else if o.lt j k
      then (j, w) ∷ insert k v m
      else (k, v) ∷ m

  unfoldable pub erase : K → Map K V → Map K V
  erase k [] = []
  erase k ((j, w) ∷ m) = let rest = erase k m in if same k j then rest else (j, w) ∷ rest

  unfoldable pub contains : K → Map K V → Bool
  unfolding find
  contains k m = elim (find k m) [ none ↦ false | some _ ↦ true ]

-- `for (auto &e : m) e.second = f(e.second)`.
unfoldable pub map_values : {K V : Type 0} → (V → V) → Map K V → Map K V
map_values f [] = []
map_values f ((j, w) ∷ m) = (j, f w) ∷ map_values f m

-- Every key of the map is above `k`.
abbrev pub Above : {K V : Type 0} ⦃o : Ordered K⦄ → K → Map K V → Type 0
Above ⦃o⦄ k m = All (λ e. o.lt k e.0 ≡ true) m

abbrev pub IsSorted : {K V : Type 0} ⦃o : Ordered K⦄ → Map K V → Type 0
IsSorted [] = Unit {0}
IsSorted ⦃o⦄ ((k, v) ∷ m) = Above ⦃o = o⦄ k m × IsSorted ⦃o = o⦄ m
