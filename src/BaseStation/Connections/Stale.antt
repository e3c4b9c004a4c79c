-- ===== src/BaseStation/Connections/Stale.antt =====
-- The connections that stay and those that are closed, and a message read in pieces.
use iot_heater.Prelude.{
  ◌*◌, leb, ℕ, zero, suc, ◌+◌, ◌-◌, ◌≤◌, Bool, true, false, not, List, [], ◌∷◌, ◌++◌, map, ◌≡◌,
  refl, ap, sym, ◌∙◌, arith, Bool-cases, inl, inr, length, length-append, length-take, take,
  take-append, take-all, append-nil, append_assoc, ltb, if◌then◌else◌,
}
use iot_heater.Text.{Bytes}
use iot_heater.Wire.{message_size}
use iot_heater.BaseStation.State.{Station, DeviceConnection, Effect, close_fd}
use iot_heater.BaseStation.Commands.Execute.{concat}
use iot_heater.BaseStation.Connections.{
  bytes, complete, read_loop, is_stale, drop_stale, check_stale_connections,
}

-- The elements that pass a test.
abbrev pub keep {ℓ} : {A : Type ℓ} → (A → Bool) → List A → List A
keep p [] = []
keep p (x ∷ xs) = let rest = keep p xs in if p x then x ∷ rest else rest

abbrev pub close_all : List DeviceConnection → List Effect
close_all = map (λ (c : DeviceConnection). close_fd c.fd)

drop_stale-keep :
    (now : ℕ) (cs : List DeviceConnection)
    → drop_stale now cs ≡ (keep (λ c. not (is_stale now c)) cs, close_all (keep (is_stale now) cs))
unfolding drop_stale
drop_stale-keep now [] = refl
drop_stale-keep now (c ∷ cs) = ground (arith, drop_stale-keep now cs)

-- Whole minutes above ten are eleven minutes, in nanoseconds.
is_stale-minutes :
    (now : ℕ) (c : DeviceConnection) → is_stale now c ≡ leb 660_000_000_000 (now - c.last_seen)
unfolding is_stale
is_stale-minutes now c = ground arith

keep-cong {ℓ} :
    {A : Type ℓ} (p q : A → Bool) (xs : List A) → ((x : A) → p x ≡ q x) → keep p xs ≡ keep q xs
keep-cong p q [] e = refl
keep-cong p q (x ∷ xs) e = rw (e x, keep-cong p q xs e) refl

not-leb : (a b : ℕ) → not (leb a b) ≡ ltb b a
not-leb a b = ground arith

-- When its timer has fired, `checkStaleConnections` keeps the connections seen less than eleven
-- minutes ago, in order, and closes all others, each once, in order, and changes nothing else. A
-- time ahead of the clock counts as no time ago.
pub check_stale-keep :
    (now : ℕ) (st : Station)
    → check_stale_connections true now st ≡ (
      record st {
        connections = keep (λ c. ltb (now - c.last_seen) (11 * 60 * 1_000_000_000)) st.connections;
      },
      close_all (keep (λ c. leb (11 * 60 * 1_000_000_000) (now - c.last_seen)) st.connections),
    )
unfolding check_stale_connections
check_stale-keep now st =
    rw
      (
        drop_stale-keep now st.connections,
        keep-cong (is_stale now) (λ c. leb 660_000_000_000 (now - c.last_seen)) st.connections
            (is_stale-minutes now),
        keep-cong (λ c. not (is_stale now c)) (λ c. ltb (now - c.last_seen) 660_000_000_000)
            st.connections
            (λ c. ap not (is_stale-minutes now c) ∙ not-leb 660_000_000_000 (now - c.last_seen)),
      )
      refl

take-append_le {ℓ} :
    {A : Type ℓ} (n : ℕ) (xs ys : List A)
    → length xs ≤ n
    → take n (xs ++ ys) ≡ xs ++ take (n - length xs) ys
take-append_le zero [] ys h = refl
take-append_le zero (x ∷ xs) ys h = elim h [ ]
take-append_le (suc n) [] ys h =
    let e : suc n ≡ suc n - 0 = omega arith in ap (λ (k : ℕ). take k ys) e
take-append_le (suc n) (x ∷ xs) ys h =
    let e : suc n - suc (length xs) ≡ n - length xs = omega arith in
    rw e (ap (◌∷◌ x) (take-append_le n xs ys (omega arith)))

take-take_append {ℓ} :
    {A : Type ℓ} (n : ℕ) (xs ys : List A) → take n (take n xs ++ ys) ≡ take n (xs ++ ys)
take-take_append zero xs ys = refl
take-take_append (suc n) [] ys = refl
take-take_append (suc n) (x ∷ xs) ys = ap (◌∷◌ x) (take-take_append n xs ys)

read_loop-concat :
    (chunks : List Bytes) (m : Bytes)
    → length m ≤ message_size
    → message_size ≤ length m + length (concat chunks)
    → read_loop (map bytes chunks) m ≡ complete (take message_size (m ++ concat chunks))
unfolding read_loop concat
read_loop-concat [] m fits enough =
    let full : ltb (length m) 64 ≡ false = ground arith in
    rw full (ap complete (sym (rw (append-nil m) (take-all 64 m fits))))
read_loop-concat (b ∷ chunks) m fits enough = elim (Bool-cases (ltb (length m) 64)) [
  | inl more ↦
      let cut = take (64 - length m) b in
      let l : length (m ++ cut) ≡ length m + length cut = length-append m cut in
      rw more (
        read_loop-concat chunks (m ++ cut) (omega (arith, l, length-take (64 - length m) b))
          (omega (arith, l, length-take (64 - length m) b, length-append b (concat chunks)))
        ∙ ap complete (
            ap (take 64) (append_assoc m cut (concat chunks))
            ∙ take-append_le 64 m (cut ++ concat chunks) fits
            ∙ ap (λ (x : Bytes). m ++ x) (take-take_append (64 - length m) b (concat chunks))
            ∙ sym (take-append_le 64 m (b ++ concat chunks) fits)))
  | inr full ↦ rw full (ap complete (sym (take-append 64 m (b ++ concat chunks) (ground arith))))
]

-- However the bytes of a stream are split over the calls of `read`, once 64 of them are there the
-- loop ends with the first 64, in order.
pub read_loop_fragments :
    (chunks : List Bytes)
    → message_size ≤ length (concat chunks)
    → read_loop (map bytes chunks) [] ≡ complete (take message_size (concat chunks))
read_loop_fragments chunks h = read_loop-concat chunks [] (omega arith) (omega (arith, h))
