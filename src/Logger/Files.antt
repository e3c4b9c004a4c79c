-- ===== src/Logger/Files.antt =====
-- The files of the log as a list of numbers with texts: what `unlink` leaves.
use iot_heater.Prelude.{
  ℕ, zero, suc, ◌+◌, List, [], ◌∷◌, ◌++◌, Option, none, some, ◌≡◌, ◌≢◌, refl, ap, ◌∙◌, arith,
  length, ◌≤◌, if◌then◌else◌, ◌==◌, append-nil, append_assoc, sym,
}
use iot_heater.Text.{Bytes}
use iot_heater.Logger.{unlink}

abbrev pub Files : Type 0
Files = List (ℕ × Bytes)

-- The text of a file.
unfoldable pub read : ℕ → Files → Option Bytes
read k [] = none
read k ((f, t) ∷ fs) = if f == k then some t else read k fs

-- The texts, the last file of the list first.
unfoldable pub joined : Files → Bytes
joined [] = []
joined ((f, t) ∷ fs) = joined fs ++ t

-- The numbers are the `count` ones below `n`, downwards.
pub data Down : ℕ → ℕ → Files → Type 0 where
  none_left : {n : ℕ} → Down 0 n []
  one_more :
      {count n : ℕ} (t : Bytes) {fs : Files}
      → Down count n fs
      → Down (suc count) (suc n) ((n, t) ∷ fs)

pub length-Down : {count n : ℕ} {fs : Files} → Down count n fs → length fs ≡ count
length-Down none_left = refl
length-Down (one_more t d) = ap suc (length-Down d)

unlink-miss :
    (k f : ℕ) (t : Bytes) (fs : Files) → f ≢ k → unlink k ((f, t) ∷ fs) ≡ (f, t) ∷ unlink k fs
unfolding unlink
unlink-miss k f t fs ne = ground (arith, ne)

unlink-hit : (k : ℕ) (t : Bytes) (fs : Files) → unlink k ((k, t) ∷ fs) ≡ unlink k fs
unfolding unlink
unlink-hit k t fs = ground arith

-- A number above all others is of no file.
pub unlink-above : {count n : ℕ} {fs : Files} (k : ℕ) → Down count n fs → n ≤ k → unlink k fs ≡ fs
unlink-above k none_left h = unfold unlink in refl
unlink-above k (one_more {count} {n} t {fs} d) h =
    unlink-miss k n t fs (λ e. omega (arith, h))
    ∙ ap (λ (g : Files). (n, t) ∷ g) (unlink-above k d (omega (arith, h)))

unlink-lone : (k f : ℕ) (t : Bytes) → f ≡ k → unlink k ((f, t) ∷ []) ≡ []
unfolding unlink
unlink-lone k f t e = ground (arith, e)

-- The lowest number is taken away, with its text, which stood in front.
pub unlink-lowest :
    (k count n : ℕ) (fs : Files)
    → k + suc count ≡ n
    → Down (suc count) n fs
    → (gone : Bytes) × (joined fs ≡ gone ++ joined (unlink k fs)) × Down count n (unlink k fs)
unfolding joined
unlink-lowest k zero n fs e (one_more {n = m} t none_left) =
    rw (unlink-lone k m t (omega (arith, e))) (t, sym (append-nil t), none_left)
unlink-lowest k (suc count) n fs e (one_more {n = m} t {fs = g} d) =
    let missed : unlink k ((m, t) ∷ g) ≡ (m, t) ∷ unlink k g =
      unlink-miss k m t g (λ f. omega (arith, e)) in
    let (gone, same_text, rest) = unlink-lowest k count m g (omega (arith, e)) d in
    rw missed (gone, ap (λ (b : Bytes). b ++ t) same_text ∙ rw append_assoc refl, one_more t rest)

pub read-unlink : (k j : ℕ) (fs : Files) → k ≢ j → read k (unlink j fs) ≡ read k fs
unfolding read unlink
read-unlink k j [] ne = refl
read-unlink k j ((f, t) ∷ fs) ne = ground (arith, read-unlink k j fs ne, ne)

pub read-other : (k f : ℕ) (t : Bytes) (fs : Files) → f ≢ k → read k ((f, t) ∷ fs) ≡ read k fs
unfolding read
read-other k f t fs ne = ground (arith, ne)
