-- ===== src/Exchange/Transfer.antt =====
-- The controller's loops on `write` and `read`, and its checks on a reply that arrives whole.
use iot_heater.Prelude.{
  ℕ, ◌+◌, ◌-◌, ◌≤◌, ◌<◌, true, false, List, [], ◌∷◌, ◌++◌, ◌≡◌, ◌≢◌, refl, sym, ◌∙◌, arith, All,
  length, length-append, length-drop, take, drop, take-all, take-append-drop, append_assoc,
  append-nil, ltb, ◌==◌,
}
use iot_heater.Text.{Bytes}
use iot_heater.Wire.{
  HeaterState, off, defrost, eco, comfort, message_size, parse_header, byte_at, state_byte,
  le_bytes,
}
use iot_heater.BaseStation.Commands.Execute.{concat}
use iot_heater.BaseStation.Messages.{Arrival, reply_message}
use iot_heater.Firmware.Commissioned.Talk.{wants, send_loop, receive_loop, judge}

pub send_loop-whole :
    (d : Bytes) (rets : List ℕ)
    → All (λ r. 0 < r) rets
    → length d ≤ length rets
    → send_loop d rets ≡ (d, true)
unfolding send_loop
send_loop-whole [] rets pos enough = refl
send_loop-whole (c ∷ d) [] pos enough = absurd (omega arith)
send_loop-whole (c ∷ d) (r ∷ rets) pos enough =
    let more : (r == 0) ≡ false = ground (arith, pos.0) in
    let rest : Bytes = drop r (c ∷ d) in
    let ih = send_loop-whole rest rets pos.1 (omega (arith, length-drop r (c ∷ d), pos.0)) in
    rw (more, ih) (λ i. (take-append-drop r (c ∷ d) i, true))

length-pos : (b : Bytes) → b ≢ [] → 0 < length b
length-pos [] h = absurd (h refl)
length-pos (c ∷ b) h = omega arith

pub receive_loop-concat :
    (reads : List Bytes) (m : Bytes)
    → All (λ b. b ≢ []) reads
    → length m + length (concat reads) ≡ message_size
    → receive_loop reads m ≡ m ++ concat reads
unfolding receive_loop concat
receive_loop-concat [] m full total = sym (append-nil m)
receive_loop-concat (b ∷ bs) m full total =
    let l = length-append b (concat bs) in
    let fits : take (message_size - length m) b ≡ b = take-all _ b (omega (arith, l)) in
    let more : ltb (length m) message_size ≡ true = ground (arith, l, length-pos b full.0, total) in
    let got : (length b == 0) ≡ false = ground (arith, length-pos b full.0) in
    rw (more, fits, got)
      (receive_loop-concat bs (m ++ b) full.1 (omega (arith, l, length-append m b))
        ∙ append_assoc m b (concat bs))

-- What a 64-byte reply with the right header is taken for.
judge-reply :
    (b : Bytes) (s : ℕ)
    → length b ≡ message_size
    → byte_at b 0 ≡ 1
    → byte_at b 1 ≡ 2
    → byte_at b 16 ≡ s
    → s ≤ 3
    → judge b ≡ wants s
unfolding judge parse_header
judge-reply b s size v ty e known = ground arith

state_byte-le : (s : HeaterState) → state_byte s ≤ 3
state_byte-le off = omega arith
state_byte-le defrost = omega arith
state_byte-le eco = omega arith
state_byte-le comfort = omega arith

pub judge-reply_message :
    (a : Arrival) (counter : ℕ) (s : HeaterState)
    → judge (reply_message a.own_mac counter s) ≡ wants (state_byte s)
unfolding reply_message le_bytes
judge-reply_message a counter s =
    judge-reply (reply_message a.own_mac counter s) (state_byte s) refl refl refl refl
      (state_byte-le s)
