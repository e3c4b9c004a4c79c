-- ===== src/Services/Options/Ports.antt =====
-- Numbers printed by `operator<<` are read back by `std::stoi`, and the ports of a command line.
use iot_heater.Prelude.{
  ℕ, zero, suc, ◌+◌, ◌*◌, ◌/◌, ◌%◌, ◌^◌, ◌<◌, true, false, List, [], ◌∷◌, ◌++◌, ◌≡◌, refl, ap, ◌∙◌,
  arith, All, ltb, ◌==◌, if_intro, sym, pos,
}
use iot_heater.Text.{Bytes, codes, is_digit, is_space, trim_front, decimal, decimal_onto}
use iot_heater.Services.Options.{value, digits_value, unsigned_digits, stoi, parse_args}

abbrev pow10 : ℕ → ℕ
pow10 zero = 1
pow10 (suc k) = 10 * pow10 k

-- The digits of a number, read behind nothing, come to the number.
digits_value-decimal_onto :
    (k n : ℕ) (s : Bytes)
    → n < 10 * pow10 k
    → digits_value 0 (decimal_onto (suc k) n s) ≡ digits_value n s
unfolding digits_value decimal_onto is_digit
digits_value-decimal_onto zero n s h = ground arith
digits_value-decimal_onto (suc k) n s h =
    ground (arith, digits_value-decimal_onto k (n / 10) ((b'0' + n % 10) ∷ s))

-- The text starts with a digit.
abbrev StartsDigit : Bytes → Type 0
StartsDigit t = (c : ℕ) × (r : Bytes) × (t ≡ c ∷ r) × (is_digit c ≡ true)

decimal_onto-StartsDigit : (k n : ℕ) (s : Bytes) → StartsDigit (decimal_onto (suc k) n s)
unfolding decimal_onto
decimal_onto-StartsDigit k n s =
    let digit : is_digit (b'0' + n % 10) ≡ true = unfold is_digit in ground arith in
    let last : StartsDigit ((b'0' + n % 10) ∷ s) = (b'0' + n % 10, s, refl, digit) in
    more k n s last
  where
    more :
        (k n : ℕ) (s : Bytes)
        → StartsDigit ((b'0' + n % 10) ∷ s)
        → StartsDigit (decimal_onto (suc k) n s)
    more zero n s last = if_intro StartsDigit (ltb n 10) (λ _. last) (λ _. last)
    more (suc k) n s last =
        let digit : is_digit (b'0' + n / 10 % 10) ≡ true = unfold is_digit in ground arith in
        let t : Bytes = (b'0' + n % 10) ∷ s in
        if_intro StartsDigit (ltb n 10) (λ _. last)
          (λ _. more k (n / 10) t (b'0' + n / 10 % 10, t, refl, digit))

digit-plain :
    (c : ℕ)
    → is_digit c ≡ true
    → (is_space c ≡ false) × ((c == b'-') ≡ false) × ((c == b'+') ≡ false)
unfolding is_digit is_space
digit-plain c h = ground arith

stoi-digits :
    (n c : ℕ) (r : Bytes)
    → is_digit c ≡ true
    → digits_value 0 (c ∷ r) ≡ n
    → n < 2 ^ 31
    → stoi (c ∷ r) ≡ value (pos n)
unfolding stoi unsigned_digits trim_front
stoi-digits n c r d e h = ground (arith, digit-plain c d)

-- A number below 2 ^ 31 that was printed in decimal is read back by `stoi`.
pub stoi-decimal : (n : ℕ) → n < 2 ^ 31 → stoi (decimal n) ≡ value (pos n)
stoi-decimal n h =
    let (c, r, starts, digit) = decimal_onto-StartsDigit 19 n [] in
    let shape : decimal n ≡ c ∷ r = unfold decimal in starts in
    let read : digits_value 0 (decimal n) ≡ n =
      unfold decimal in digits_value-decimal_onto 19 n [] (omega arith) ∙ nothing_left n in
    ap stoi shape ∙ stoi-digits n c r digit (ap (digits_value 0) (sym shape) ∙ read) h
  where
    nothing_left : (n : ℕ) → digits_value n [] ≡ n
    nothing_left n = unfold digits_value in refl

-- The arguments that set these ports, one after the other.
abbrev pub port_args : List ℕ → List Bytes
port_args [] = []
port_args (n ∷ ns) = codes "--device-server-port" ∷ decimal n ∷ port_args ns

abbrev pub last_or : ℕ → List ℕ → ℕ
last_or port [] = port
last_or port (n ∷ ns) = last_or n ns

-- `--device-server-port` with a port below 2 ^ 31 printed in decimal, any number of times: the port
-- is the last one given, and what follows is read as if it stood alone with that port.
pub parse_args-ports :
    (port : ℕ) (ns : List ℕ) (rest : List Bytes)
    → All (λ n. n < 2 ^ 31) ns
    → parse_args port (port_args ns ++ rest) ≡ parse_args (last_or port ns) rest
unfolding parse_args
parse_args-ports port [] rest h = refl
parse_args-ports port (n ∷ ns) rest h =
    rw (stoi-decimal n h.0, parse_args) (parse_args-ports n ns rest h.1)
