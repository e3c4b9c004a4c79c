-- ===== src/BaseStation/Messages/Requests.antt =====
-- Requests of heater controllers: the name they carry, the reboots they show, the answer they get.
use iot_heater.Prelude.{
  ℕ, ◌^◌, ◌<◌, true, false, [], ◌∷◌, ◌++◌, ◌≡◌, ◌⊎◌, refl, ap, ◌∙◌, arith, All, All-imp, map, some,
  none, drop, ◌==◌,
}
use iot_heater.OrdMap.Keys.{mac_order, str_order}
use iot_heater.Text.{Bytes, to_upper, check_heater_name, is_alnum, all_bytes}
use iot_heater.Wire.{Header, req_heater_state, header_bytes}
use iot_heater.Wire.Laws.{parse_header-header_bytes, drop-header_bytes}
use iot_heater.BaseStation.State.{Station, out_of_bounds}
use iot_heater.BaseStation.Messages.{
  Arrival, scan_name, checked_name, answer_request, on_header, parse_message,
}

-- A byte at which the scan of a name stops.
abbrev pub IsEnd : ℕ → Type 0
IsEnd c = (c ≡ 0) ⊎ (c ≡ 0xFF)

pub scan_name-end :
    (name rest : Bytes) (e : ℕ)
    → All (λ c. ¬ IsEnd c) name
    → IsEnd e
    → scan_name (name ++ e ∷ rest) ≡ some (map to_upper name)
unfolding scan_name
scan_name-end [] rest e h stop = ground arith
scan_name-end (c ∷ name) rest e h stop =
    let go : (c == 0xFF) ≡ false = ground (arith, h.0) in
    let on : (c == 0) ≡ false = ground (arith, h.0) in
    rw (go, on, scan_name-end name rest e h.1 stop)

scan_name-none : (s : Bytes) → All (λ c. ¬ IsEnd c) s → scan_name s ≡ none
unfolding scan_name
scan_name-none [] h = refl
scan_name-none (c ∷ s) h =
    let go : (c == 0xFF) ≡ false = ground (arith, h.0) in
    let on : (c == 0) ≡ false = ground (arith, h.0) in rw (go, on, scan_name-none s h.1)

is_alnum-no-IsEnd : (c : ℕ) → is_alnum c ≡ true → ¬ IsEnd c
unfolding is_alnum
is_alnum-no-IsEnd c h e = ground arith

is_alnum-to_upper : (c : ℕ) → is_alnum c ≡ true → is_alnum (to_upper c) ≡ true
unfolding is_alnum to_upper
is_alnum-to_upper c h = ground arith

all_bytes-upper :
    (s : Bytes) → All (λ c. is_alnum c ≡ true) s → all_bytes is_alnum (map to_upper s) ≡ true
unfolding all_bytes
all_bytes-upper [] h = refl
all_bytes-upper (c ∷ s) h = rw (is_alnum-to_upper c h.0, all_bytes-upper s h.1)

-- The check of the name lets such a name pass.
checked_name-upper :
    (s : Bytes) → All (λ c. is_alnum c ≡ true) s → checked_name (map to_upper s) ≡ map to_upper s
unfolding check_heater_name
checked_name-upper [] h = refl
checked_name-upper (c ∷ s) h = rw (all_bytes-upper (c ∷ s) h)

-- A request as it is received: its header is of version 1 and of the type of requests.
pub record IsRequest (h : Header) : Type 0 where
  pub version_1 : h.version ≡ 1
  pub type_1 : h.msg_type ≡ req_heater_state
  pub counter_lt : h.counter < 2 ^ 64

parse_message-header :
    (a : Arrival) (fd : ℕ) (h : Header) (payload : Bytes) (st : Station)
    → h.counter < 2 ^ 64
    → parse_message a fd (header_bytes h ++ payload) st ≡ on_header a fd h payload st
unfolding parse_message
parse_message-header a fd h payload st lt =
    ap (λ (x : Header). on_header a fd x (drop 16 (header_bytes h ++ payload)) st)
      (parse_header-header_bytes h payload lt)
    ∙ ap (λ (x : Bytes). on_header a fd h x st) (drop-header_bytes h payload)

-- A request whose 48 bytes of data, or whatever follows the header, hold neither a zero byte nor
-- 0xFF makes `parseMessage` read behind the message: its only effect is the access out of bounds.
pub unterminated_name :
    (a : Arrival) (fd : ℕ) (h : Header) (payload : Bytes) (st : Station)
    → IsRequest h
    → All (λ c. ¬ IsEnd c) payload
    → (parse_message a fd (header_bytes h ++ payload) st).1 ≡ out_of_bounds ∷ []
unterminated_name a fd h payload st r free =
    rw (parse_message-header a fd h payload st r.counter_lt)
      (unfold on_header in rw (r.version_1, r.type_1) (rw (scan_name-none payload free, on_header)))

-- A name of letters and digits, or none, closed by an end and followed by anything.
abbrev pub Alnum : Bytes → Type 0
Alnum name = All (λ c. is_alnum c ≡ true) name

-- A request with such a name goes to the answer, under the name in capitals.
pub parse_message-request :
    (a : Arrival) (fd : ℕ) (h : Header) (name rest : Bytes) (e : ℕ) (st : Station)
    → IsRequest h
    → Alnum name
    → IsEnd e
    → parse_message a fd (header_bytes h ++ (name ++ e ∷ rest)) st
      ≡ answer_request a fd h (map to_upper name) st
parse_message-request a fd h name rest e st r al stop =
    parse_message-header a fd h (name ++ e ∷ rest) st r.counter_lt
    ∙ (unfold on_header in
        rw (r.version_1, r.type_1)
          (rw (scan_name-end name rest e (All-imp _ _ is_alnum-no-IsEnd name al) stop, on_header)
            (ap (λ (n : Bytes). answer_request a fd h n st) (checked_name-upper name al))))
