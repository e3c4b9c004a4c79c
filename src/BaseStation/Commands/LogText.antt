-- ===== src/BaseStation/Commands/LogText.antt =====
-- The reply to `DEBUG LOG`: the output of journalctl in pieces that a text message can hold.
use iot_heater.Prelude.{
  ℕ, zero, suc, ◌+◌, ◌*◌, ◌≤◌, ◌<◌, List, [], ◌∷◌, ◌++◌, map, some, ◌≡◌, ◌≢◌, refl, ap, ◌∙◌, sym,
  arith, All, length, length-append, length-take, length-drop, take, drop, take-append-drop, ltb,
  ltb→lt, Bool-cases, inl, inr, subst,
}
use iot_heater.Text.{Bytes}
use iot_heater.BaseStation.State.{send_sms}
use iot_heater.BaseStation.Commands.Execute.{concat, pieces, read_limited, log_messages}

-- The length is enough fuel: nothing is left out.
concat-pieces : (fuel : ℕ) (s : Bytes) → length s ≤ fuel → concat (pieces fuel s) ≡ s
unfolding concat pieces
concat-pieces zero [] h = refl
concat-pieces zero (c ∷ s) h = absurd (omega arith)
concat-pieces (suc fuel) [] h = refl
concat-pieces (suc fuel) (c ∷ s) h =
    let rest : Bytes = drop 512 (c ∷ s) in
    ap (λ (t : Bytes). take 512 (c ∷ s) ++ t)
      (concat-pieces fuel rest (omega (arith, length-drop 512 (c ∷ s))))
    ∙ take-append-drop 512 (c ∷ s)

-- A text message of the reply.
abbrev pub IsPiece : Bytes → Type 0
IsPiece t = (0 < length t) × (length t ≤ 512)

pieces-IsPiece : (fuel : ℕ) (s : Bytes) → All IsPiece (pieces fuel s)
unfolding pieces
pieces-IsPiece zero s = tt
pieces-IsPiece (suc fuel) [] = tt
pieces-IsPiece (suc fuel) (c ∷ s) = (
  (omega (arith, length-take 512 (c ∷ s)), omega (arith, length-take 512 (c ∷ s))),
  pieces-IsPiece fuel (drop 512 (c ∷ s)),
)

pieces_nil : (fuel : ℕ) (s : Bytes) → length s ≡ 0 → length (pieces fuel s) ≡ 0
unfolding pieces
pieces_nil zero s h = refl
pieces_nil (suc fuel) [] h = refl
pieces_nil (suc fuel) (c ∷ s) h = absurd (omega arith)

pieces-few : (fuel : ℕ) (s : Bytes) → 512 * length (pieces fuel s) ≤ length s + 511
unfolding pieces
pieces-few zero s = omega arith
pieces-few (suc fuel) [] = omega arith
pieces-few (suc fuel) (c ∷ s) =
    let rest : Bytes = drop 512 (c ∷ s) in
    omega (arith, length-drop 512 (c ∷ s), pieces-few fuel rest, last)
  where
    last : length (drop 512 (c ∷ s)) ≡ 0 → length (pieces fuel (drop 512 (c ∷ s))) ≡ 0
    last = pieces_nil fuel (drop 512 (c ∷ s))

-- What `fgets` puts in a buffer of 1024 bytes.
abbrev pub IsChunk : Bytes → Type 0
IsChunk c = length c < 1024

read_limited-short :
    (result : Bytes) (chunks : List Bytes)
    → length result ≤ 2046
    → All IsChunk chunks
    → length (read_limited result chunks) ≤ 2046
unfolding read_limited
read_limited-short result [] h a = h
read_limited-short result (chunk ∷ rest) h a = elim (Bool-cases (ltb (length result) 1024)) [
  | inl e ↦ rw e (
      read_limited-short (result ++ chunk) rest
        (omega (arith, length-append result chunk, ltb→lt (length result) 1024 e, a.0)) a.1)
  | inr e ↦ rw e h
]

-- The reply to `DEBUG LOG`, if journalctl gives any output, in chunks of less than 1024 bytes: at
-- most four messages of 1 to 512 bytes each, which together are the output up to the limit.
pub log_messages-pieces :
    (from : Bytes) (chunks : List Bytes)
    → read_limited [] chunks ≢ []
    → All IsChunk chunks
    → (texts : List Bytes) × (log_messages from (some chunks) ≡ map (send_sms from) texts)
      × (concat texts ≡ read_limited [] chunks)
      × All IsPiece texts
      × (length texts ≤ 4)
log_messages-pieces from chunks some_text small = go (read_limited [] chunks) refl
  where
    go :
        (r : Bytes)
        → read_limited [] chunks ≡ r
        → (texts : List Bytes) × (log_messages from (some chunks) ≡ map (send_sms from) texts)
          × (concat texts ≡ read_limited [] chunks)
          × All IsPiece texts
          × (length texts ≤ 4)
    go [] e = absurd (some_text e)
    go (c ∷ s) e =
        let size : length (c ∷ s) ≤ 2046 =
          subst (λ (t : Bytes). length t ≤ 2046) e
            (read_limited-short [] chunks (omega arith) small) in
        (
          pieces (length (c ∷ s)) (c ∷ s),
          unfold log_messages in rw (e, log_messages) refl,
          concat-pieces (length (c ∷ s)) (c ∷ s) (omega arith) ∙ sym e,
          pieces-IsPiece (length (c ∷ s)) (c ∷ s),
          omega (arith, size, pieces-few (length (c ∷ s)) (c ∷ s)),
        )
