-- ===== src/Services/Options.antt =====
-- The command line of base_station/src/main.cpp, with `std::stoi`, and version.cpp.
pub mod Ports
use iot_heater.Prelude.{
  ℕ, ◌+◌, ◌-◌, ◌*◌, ◌%◌, ◌^◌, Bool, true, false, not, ◌&&◌, ◌||◌, List, [], ◌∷◌, ◌++◌, Option, none,
  some, ℤ, pos, negsuc, neg, ltb, ◌==◌, if◌then◌else◌,
}
use iot_heater.Text.{Bytes, codes, str_eq, is_digit, trim_front}

-- What `std::stoi` does; two of the three are exceptions.
pub data Parsed : Type 0 where
  value : ℤ → Parsed
  invalid_argument out_of_range : Parsed

-- The value of the leading digits.
unfoldable pub digits_value : ℕ → Bytes → ℕ
unfolding is_digit
digits_value acc [] = acc
digits_value acc (c ∷ s) =
    let rest = digits_value (acc * 10 + (c - b'0')) s in if is_digit c then rest else acc

unfoldable pub unsigned_digits : (ℕ → Parsed) → Bytes → Parsed
unfolding digits_value is_digit
unsigned_digits in_range [] = invalid_argument
unsigned_digits in_range (c ∷ s) =
    if is_digit c then in_range (digits_value 0 (c ∷ s)) else invalid_argument

abbrev int_plus : ℕ → Parsed
int_plus n = if ltb n (2 ^ 31) then value (pos n) else out_of_range

abbrev int_minus : ℕ → Parsed
int_minus n = if ltb (2 ^ 31) n then out_of_range else value (neg n)

-- `std::stoi`: white space, a sign, digits; what stands behind them is not looked at.
unfoldable pub stoi : Bytes → Parsed
unfolding unsigned_digits trim_front
stoi s = elim (trim_front s) [
  | [] ↦ invalid_argument
  | c ∷ r ↦
      if c == b'-'
      then unsigned_digits int_minus r
      else if c == b'+'
      then unsigned_digits int_plus r
      else unsigned_digits int_plus (c ∷ r)
]

-- The port as `DeviceServer` keeps it, an `unsigned int`, and the 16 bits that `htons` takes of it.
abbrev pub to_unsigned : ℤ → ℕ
to_unsigned (pos n) = n
to_unsigned (negsuc n) = 2 ^ 32 - (n + 1)

abbrev pub bound_port : ℕ → ℕ
bound_port server_port = server_port % 2 ^ 16

abbrev pub default_device_server_port : ℕ
default_device_server_port = 32322

-- What the command line asks for. `bad_port` is the exception of `stoi`, which nothing catches.
pub data Request : Type 0 where
  launch : ℕ → Request
  show_help show_version : Request
  invalid_option bad_port : Bytes → Request

-- An option without an argument of its own, or `--device-server-port` at the end of the line.
abbrev pub plain_option : Bytes → Request
plain_option opt =
    if str_eq opt (codes "--help") || str_eq opt (codes "-h")
    then show_help
    else if str_eq opt (codes "--version") || str_eq opt (codes "-v")
    then show_version
    else invalid_option opt

-- The loop over the arguments, behind the name of the program.
unfoldable pub parse_args : ℕ → List Bytes → Request
unfolding str_eq stoi
parse_args port [] = launch port
parse_args port (opt ∷ []) = plain_option opt
parse_args port (opt ∷ arg ∷ args) = elim (str_eq opt (codes "--device-server-port")) [
  | false ↦ plain_option opt
  | true ↦ elim (stoi arg) [
    | value n ↦ parse_args (to_unsigned n) args
    | invalid_argument ↦ bad_port arg
    | out_of_range ↦ bad_port arg
  ]
]

-- The status that `main` returns, where it does.
unfoldable pub exit_status : Request → Option ℤ
exit_status show_help = some (pos 0)
exit_status show_version = some (pos 0)
exit_status (invalid_option opt) = some (neg 1)
exit_status (bad_port arg) = none
exit_status (launch port) = none

-- `get_version_str`; the hash and the time are set by the build.
unfoldable pub get_version_str : Bytes → Bytes → Bytes
get_version_str git_hash build_time = codes "base_station-" ++ (git_hash ++ (b'.' ∷ build_time))
