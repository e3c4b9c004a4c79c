-- ===== src/Text.antt =====
-- Byte strings as the program handles them: the character classes of <cctype> in the C locale,
-- `std::string`'s comparison, `substr`, `find` and `rfind`, and the helpers of the unnamed
-- namespace of base_station/src/base_station.cpp that work on text.
pub mod Laws
pub mod Lines
use Prim.Native.Char.{code}
use Prim.Native.String.{String}
use iot_heater.Prelude.{
  ℕ, ◌+◌, ◌-◌, ◌*◌, ◌%◌, ◌/◌, ◌^◌, zero, suc, Bool, true, false, not, ◌&&◌, ◌||◌, List, [], ◌∷◌,
  ◌++◌, map, Option, none, some, ltb, leb, ◌==◌, if◌then◌else◌, length, take, drop,
}
use mathlib.Core.List.{reverse}

-- A `std::string`: its bytes.
abbrev pub Bytes : Type 0
Bytes = List ℕ

-- The bytes of a literal of the source; every literal is ASCII.
abbrev pub codes : String → Bytes
codes String.[] = []
codes (String.◌∷◌ c s) = code c ∷ codes s

-- `a == b` on strings.
unfoldable pub str_eq : Bytes → Bytes → Bool
str_eq [] [] = true
str_eq [] (y ∷ b) = false
str_eq (x ∷ a) [] = false
str_eq (x ∷ a) (y ∷ b) = x == y && str_eq a b

-- `a < b` on strings: lexicographic, on unsigned bytes.
unfoldable pub str_lt : Bytes → Bytes → Bool
str_lt [] [] = false
str_lt [] (y ∷ b) = true
str_lt (x ∷ a) [] = false
str_lt (x ∷ a) (y ∷ b) = ltb x y || (x == y && str_lt a b)

unfoldable pub is_digit : ℕ → Bool
is_digit c = leb b'0' c && leb c b'9'

unfoldable pub is_alnum : ℕ → Bool
is_alnum c = (leb b'a' c && leb c b'z') || (leb b'A' c && leb c b'Z') || (leb b'0' c && leb c b'9')

-- `std::isspace`: blank, and the five controls from tab to carriage return.
unfoldable pub is_space : ℕ → Bool
is_space c = c == 32 || (leb 9 c && leb c 13)

unfoldable pub to_upper : ℕ → ℕ
to_upper c = if leb b'a' c && leb c b'z' then c - 32 else c

unfoldable pub all_bytes : (ℕ → Bool) → Bytes → Bool
all_bytes p [] = true
all_bytes p (c ∷ s) = p c && all_bytes p s

-- `check_phone_number_format`.
unfoldable pub check_phone_number_format : Bytes → Bool
unfolding all_bytes is_digit
check_phone_number_format number =
    if ltb (length number) 10 || ltb 14 (length number) then false else all_bytes is_digit number

-- `check_heater_name`.
unfoldable pub check_heater_name : Bytes → Bool
unfolding all_bytes is_alnum
check_heater_name [] = false
check_heater_name (c ∷ s) = all_bytes is_alnum (c ∷ s)

-- `s.rfind(prefix, 0) == 0`.
unfoldable pub starts_with : Bytes → Bytes → Bool
starts_with s [] = true
starts_with [] (c ∷ p) = false
starts_with (x ∷ s) (c ∷ p) = x == c && starts_with s p

-- `ends_with`: `std::equal` on the reversed ranges.
unfoldable pub ends_with : Bytes → Bytes → Bool
unfolding starts_with
ends_with value ending =
    if ltb (length value) (length ending)
    then false
    else starts_with (reverse value) (reverse ending)

-- `a - b` on two 64-bit unsigned numbers.
abbrev pub size_sub : ℕ → ℕ → ℕ
size_sub a b = if ltb a b then a + 2 ^ 64 - b else a - b

-- `s.substr(pos, count)`, for a `pos` that is not past the end, as at every call of the source.
abbrev pub substr : Bytes → ℕ → ℕ → Bytes
substr s pos count = take count (drop pos s)

-- `content.rfind("HELP") == 0`: the last occurrence is the one at 0.
unfoldable pub occurs : Bytes → Bytes → Bool
unfolding starts_with
occurs p [] = starts_with [] p
occurs p (c ∷ s) = starts_with (c ∷ s) p || occurs p s

unfoldable pub last_at_zero : Bytes → Bytes → Bool
unfolding occurs starts_with
last_at_zero p s = starts_with s p && not (occurs p (drop 1 s))

-- The two `erase` calls with `find_if` that trim white space at both ends.
unfoldable pub trim_front : Bytes → Bytes
unfolding is_space
trim_front [] = []
trim_front (c ∷ s) = if is_space c then trim_front s else c ∷ s

unfoldable pub trim_back : Bytes → Bytes
unfolding trim_front
trim_back s = reverse (trim_front (reverse s))

unfoldable pub trim : Bytes → Bytes
unfolding trim_front trim_back
trim s = trim_back (trim_front s)

-- The words that `istream_iterator<std::string>` reads: split at white space.
unfoldable pub words_onto : Bytes → Bytes → List Bytes
unfolding is_space
words_onto [] [] = []
words_onto (x ∷ w) [] = reverse (x ∷ w) ∷ []
words_onto [] (c ∷ s) = words_onto (if is_space c then [] else c ∷ []) s
words_onto (x ∷ w) (c ∷ s) =
    let rest = words_onto [] s in
    let more = words_onto (c ∷ x ∷ w) s in if is_space c then reverse (x ∷ w) ∷ rest else more

unfoldable pub tokens : Bytes → List Bytes
unfolding words_onto
tokens s = words_onto [] s

-- `std::getline(in, line, d)`: the pieces between delimiters; no piece after a last delimiter.
-- The first argument is the piece read so far, last byte first, or `none` at a piece's start.
unfoldable pub split_onto : ℕ → Bytes → Bytes → List Bytes
split_onto d w [] = elim w [ [] ↦ [] | x ∷ r ↦ reverse (x ∷ r) ∷ [] ]
split_onto d w (c ∷ s) =
    let rest = split_onto d [] s in
    let more = split_onto d (c ∷ w) s in if c == d then reverse w ∷ rest else more

unfoldable pub split : ℕ → Bytes → List Bytes
unfolding split_onto
split d s = split_onto d [] s

-- `line.find(c)`: what stands before the first `c` and after it, or `none` for `npos`.
unfoldable pub break_at : ℕ → Bytes → Option (Bytes × Bytes)
break_at d [] = none
break_at d (c ∷ s) =
    if c == d
    then some ([], s)
    else elim (break_at d s) [ none ↦ none | some (a, b) ↦ some (c ∷ a, b) ]

-- `%02X`: two hexadecimal digits of a byte, and `operator<<` on an unsigned number.
abbrev hex_digit : ℕ → ℕ
hex_digit d = if ltb d 10 then b'0' + d else b'A' + (d - 10)

unfoldable pub hex_byte : ℕ → Bytes
hex_byte b = hex_digit (b / 16) ∷ hex_digit (b % 16) ∷ []

-- A number has no more than 20 digits below 2 ^ 64.
unfoldable pub decimal_onto : ℕ → ℕ → Bytes → Bytes
decimal_onto zero n s = s
decimal_onto (suc fuel) n s =
    let digit = (b'0' + n % 10) ∷ s in
    let more = decimal_onto fuel (n / 10) digit in if ltb n 10 then digit else more

unfoldable pub decimal : ℕ → Bytes
unfolding decimal_onto
decimal n = decimal_onto 20 n []

-- The bytes that C takes for a text: those before the first zero byte, or all.
unfoldable pub c_str : Bytes → Bytes
c_str [] = []
c_str (c ∷ s) = let rest = c_str s in if c == 0 then [] else c ∷ rest
