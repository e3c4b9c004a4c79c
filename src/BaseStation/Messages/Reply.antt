-- ===== src/BaseStation/Messages/Reply.antt =====
-- The reply to a request, as it lies in its 64 bytes and as it is written.
use iot_heater.Prelude.{
  ℕ, ◌^◌, ◌≤◌, ◌<◌, false, [], ◌∷◌, ◌++◌, ◌≡◌, refl, ap, ◌∙◌, arith, All, List, Option, length,
  length-drop, take-append-drop, append_assoc, replicate, take, drop, ◌==◌, Bool-cases, inl, inr,
}
use iot_heater.Text.{Bytes}
use iot_heater.Wire.{
  HeaterState, Mac, message_size, state_byte, parse_header, header_bytes, le_bytes, byte_at,
}
use iot_heater.Wire.Laws.{parse_header-header_bytes}
use iot_heater.BaseStation.Messages.{reply_header, reply_message, write_loop}

reply_message-shape :
    (own : Option Mac) (counter : ℕ) (s : HeaterState)
    → reply_message own counter s
      ≡ header_bytes (reply_header own counter) ++ (state_byte s ∷ replicate 47 0xFF)
unfolding reply_message le_bytes
reply_message-shape own counter s = refl

-- The 64 bytes of a reply, for a counter below 2 ^ 64: its header is read back as version 1, type
-- reply, the own address and the counter, byte 16 is the state, and the rest is 0xFF.
pub reply_layout :
    (own : Option Mac) (counter : ℕ) (s : HeaterState)
    → counter < 2 ^ 64
    → (parse_header (reply_message own counter s) ≡ reply_header own counter)
      × (byte_at (reply_message own counter s) 16 ≡ state_byte s)
      × (drop 17 (reply_message own counter s) ≡ replicate 47 0xFF)
      × (length (reply_message own counter s) ≡ message_size)
reply_layout own counter s lt = rw (reply_message-shape own counter s) (
  parse_header-header_bytes (reply_header own counter) _ lt,
  (unfold le_bytes in refl),
  (unfold le_bytes in refl),
  (unfold le_bytes in refl),
)

-- Whatever the calls of `write` return, the bytes sent are the beginning of the message.
pub write_loop-append :
    (d : Bytes) (rets : List ℕ) → (rest : Bytes) × (write_loop d rets ++ rest ≡ d)
unfolding write_loop
write_loop-append d [] = (d, refl)
write_loop-append d (r ∷ rets) = elim (Bool-cases (r == 0)) [
  | inl stop ↦ (d, rw stop)
  | inr more ↦
      let (rest, e) = write_loop-append (drop r d) rets in
      (
        rest,
        rw more (
            append_assoc (take r d) (write_loop (drop r d) rets) rest
            ∙ ap (λ (x : Bytes). take r d ++ x) e
            ∙ take-append-drop r d),
      )
]

-- If every call of `write` takes a byte at least and there are as many calls as bytes, the loop
-- sends the whole message, in order.
pub write_loop-whole :
    (d : Bytes) (rets : List ℕ)
    → All (λ r. 0 < r) rets
    → length d ≤ length rets
    → write_loop d rets ≡ d
unfolding write_loop
write_loop-whole [] [] p h = refl
write_loop-whole (c ∷ d) [] p h = absurd (omega arith)
write_loop-whole d (r ∷ rets) p h =
    let more : (r == 0) ≡ false = ground (arith, p.0) in
    rw more (
      ap (λ (x : Bytes). take r d ++ x)
        (write_loop-whole (drop r d) rets p.1 (omega (arith, length-drop r d, p.0)))
      ∙ take-append-drop r d)
