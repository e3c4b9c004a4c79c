-- ===== src/Sms/Receiver.antt =====
-- `SMSReceiver::parseSMS`: the sender and the text of a file of the incoming directory.
pub mod Incoming
use iot_heater.Prelude.{
  Bool, true, false, List, [], ◌∷◌, ◌++◌, Option, none, some, if◌then◌else◌, drop,
}
use iot_heater.Text.{Bytes, codes, split, last_at_zero}

-- `while (std::getline(content, line)) { if (line.empty()) break; }`
unfoldable pub skip_header : List Bytes → List Bytes
skip_header [] = []
skip_header ([] ∷ lines) = lines
skip_header ((c ∷ line) ∷ lines) = skip_header lines

-- `while (std::getline(content, line)) text += line`.
unfoldable pub join_lines : List Bytes → Bytes
join_lines [] = []
join_lines (line ∷ lines) = line ++ join_lines lines

-- What `parseSMS` makes of the lines. `from.rfind("From: ")` must be zero.
unfoldable pub parse_lines : List Bytes → Option (Bytes × Bytes)
unfolding skip_header join_lines last_at_zero
parse_lines [] = none
parse_lines (from ∷ lines) =
    if last_at_zero (codes "From: ") from
    then some (drop 6 from, join_lines (skip_header lines))
    else none

-- `parseSMS`, on the text of the file if it opens: what the callback is called with, if it is.
unfoldable pub parse_sms : Option Bytes → Option (Bytes × Bytes)
unfolding parse_lines split
parse_sms none = none
parse_sms (some content) = parse_lines (split b'\n' content)
