-- ===== src/Firmware/Commissioned/Page.antt =====
-- `build_errors_webpage` of commissioned.cpp: the list of errors on the web page, which goes into a
-- buffer of 512 bytes.
use iot_heater.Prelude.{
  ℕ, zero, suc, ◌+◌, ◌-◌, ◌*◌, ◌/◌, ◌^◌, ◌≤◌, ◌<◌, true, List, [], ◌∷◌, ◌++◌, ◌≡◌, arith, All,
  All-drop, length, length-append, length-drop, ltb, Bool-cases, inl, inr,
}
use native.Mathlib.Nat.{pow-suc}
use iot_heater.Text.{Bytes, codes, decimal, decimal_onto}
use iot_heater.Firmware.Commissioned.Device.{
  Device, ErrorCode, cannot_connect_to_base_station, reply_timeout, message_protocol_not_supported,
  invalid_message_type, invalid_heater_state, message_read_failure, request_write_failure,
  ErrorRecord, ErrorQueue,
}
use iot_heater.Firmware.Commissioned.Errors.{fail_all, last_five, errors-last_five}

abbrev pub error_text : ErrorCode → Bytes
error_text cannot_connect_to_base_station = codes "Cannot connect to base station"
error_text reply_timeout = codes "Timeout waiting for reply from base station"
error_text message_protocol_not_supported = codes "Message protocol not supported"
error_text invalid_message_type = codes "Received invalid message type"
error_text invalid_heater_state = codes "Received invalid heater state"
error_text message_read_failure = codes "Failed to read message from client"
error_text request_write_failure = codes "Failed to send message to base station"

-- What is written to `tmp`, an array of 32 bytes.
unfoldable pub stamp_text : ErrorRecord → Bytes
unfolding decimal
stamp_text r = codes ", timestamp=" ++ decimal r.timestamp

-- The loop over the records, oldest first.
unfoldable pub errors_text : List ErrorRecord → Bytes
unfolding stamp_text
errors_text [] = []
errors_text (r ∷ []) = error_text r.code ++ stamp_text r
errors_text (r ∷ q ∷ rs) =
    (error_text r.code ++ stamp_text r) ++ (codes "<br>" ++ errors_text (q ∷ rs))

-- `build_errors_webpage`, on what the queue holds.
unfoldable pub build_errors_webpage : List ErrorRecord → Bytes
unfolding errors_text
build_errors_webpage [] = codes "No errors"
build_errors_webpage (r ∷ rs) = errors_text (r ∷ rs)

pub length-decimal_onto :
    (fuel k n : ℕ) (s : Bytes) → n < 10 ^ suc k → length (decimal_onto fuel n s) ≤ length s + suc k
unfolding decimal_onto
length-decimal_onto zero k n s lt = omega arith
length-decimal_onto (suc fuel) zero n s lt =
    let few : ltb n 10 ≡ true = ground (arith, lt) in rw few (omega arith)
length-decimal_onto (suc fuel) (suc k) n s lt = elim (Bool-cases (ltb n 10)) [
  | inl few ↦ rw few (omega arith)
  | inr more ↦
      let lt' : n < 10 ^ suc k * 10 = rw (pow-suc 10 (suc k)) at lt in
      rw more (omega (arith, length-decimal_onto fuel k (n / 10) (_ ∷ s) (omega (arith, lt'))))
]

-- A time in seconds on 32 bits.
abbrev pub IsStamped : ErrorRecord → Type 0
IsStamped r = r.timestamp < 2 ^ 32

stamp_text-fits : (r : ErrorRecord) → IsStamped r → length (stamp_text r) ≤ 22
unfolding stamp_text decimal
stamp_text-fits r lt = omega (arith, length-decimal_onto 20 9 r.timestamp [] (omega (arith, lt)))

error_text-fits : (c : ErrorCode) → length (error_text c) ≤ 43
error_text-fits cannot_connect_to_base_station = omega arith
error_text-fits reply_timeout = omega arith
error_text-fits message_protocol_not_supported = omega arith
error_text-fits invalid_message_type = omega arith
error_text-fits invalid_heater_state = omega arith
error_text-fits message_read_failure = omega arith
error_text-fits request_write_failure = omega arith

errors_text-fits : (l : List ErrorRecord) → All IsStamped l → length (errors_text l) ≤ 69 * length l
unfolding errors_text
errors_text-fits [] h = omega arith
errors_text-fits (r ∷ []) h = omega (
  arith,
  length-append (error_text r.code) (stamp_text r),
  error_text-fits r.code,
  stamp_text-fits r h.0,
)
errors_text-fits (r ∷ q ∷ rs) h =
    let entry : Bytes = error_text r.code ++ stamp_text r in
    let rest : Bytes = errors_text (q ∷ rs) in
    omega (
      arith,
      length-append (error_text r.code) (stamp_text r),
      error_text-fits r.code,
      stamp_text-fits r h.0,
      length-append entry (codes "<br>" ++ rest),
      errors_text-fits (q ∷ rs) h.1,
    )

pub page-fits :
    (l : List ErrorRecord) → All IsStamped l → length l ≤ 5 → length (build_errors_webpage l) < 512
unfolding build_errors_webpage
page-fits [] h few = omega arith
page-fits (r ∷ rs) h few = omega (arith, errors_text-fits (r ∷ rs) h)

-- From an empty queue, whatever failures come with times on 32 bits, the text of the list of errors
-- and its closing zero byte fit in the 512 bytes of `errors_str`.
pub build_errors_webpage-fits :
    (eq : ErrorQueue) (rs : List ErrorRecord) (d : Device eq.Queue)
    → eq.contents d.errors ≡ []
    → All IsStamped rs
    → length (build_errors_webpage (eq.contents (fail_all eq rs d).errors)) < 512
build_errors_webpage-fits eq rs d fresh stamped = rw (errors-last_five eq rs d fresh) (
    page-fits (last_five rs) (All-drop IsStamped (length rs - 5) rs stamped)
      (omega (arith, length-drop (length rs - 5) rs)))
