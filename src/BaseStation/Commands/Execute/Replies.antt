-- ===== src/BaseStation/Commands/Execute/Replies.antt =====
-- The texts of the replies that read the system or the maps.
use iot_heater.Prelude.{
  ℕ, zero, suc, List, [], ◌∷◌, ◌++◌, map, Option, none, some, length, take, drop, ltb,
  if◌then◌else◌,
}
use iot_heater.OrdMap.{Map}
use iot_heater.Text.{Bytes, codes}
use iot_heater.Wire.{HeaterState}
use iot_heater.BaseStation.State.{Station, Effect, send_sms, state_label}

unfoldable pub concat : List Bytes → Bytes
concat [] = []
concat (x ∷ xs) = x ++ concat xs

-- `while (result.size() < 1024 && fgets(...)) result += buffer`.
unfoldable pub read_limited : Bytes → List Bytes → Bytes
read_limited result [] = result
read_limited result (chunk ∷ rest) =
    let more = read_limited (result ++ chunk) rest in
    if ltb (length result) 1024 then more else result

-- `while (!result.empty()) { msg = result.substr(0, 512); result.erase(0, 512); ... }`: each round
-- takes a byte at least, so the length is enough fuel.
unfoldable pub pieces : ℕ → Bytes → List Bytes
pieces zero result = []
pieces (suc fuel) [] = []
pieces (suc fuel) (c ∷ result) = take 512 (c ∷ result) ∷ pieces fuel (drop 512 (c ∷ result))

-- The output of a command, cut to `limit` bytes.
unfoldable pub pipe_reply : Bytes → Bytes → ℕ → Option (List Bytes) → Bytes
unfolding concat
pipe_reply failed empty limit none = failed
pipe_reply failed empty limit (some chunks) =
    let result = concat chunks in
    let cut = if ltb limit (length result) then take limit result else result in
    elim cut [ [] ↦ empty | c ∷ s ↦ c ∷ s ]

unfoldable pub log_messages : Bytes → Option (List Bytes) → List Effect
unfolding read_limited pieces
log_messages from none = send_sms from (codes "Fail to get basestation logs") ∷ []
log_messages from (some chunks) =
    let result = read_limited [] chunks in
    elim result [
      | [] ↦ send_sms from (codes "Unable to get basestation logs") ∷ []
      | c ∷ s ↦ map (send_sms from) (pieces (length (c ∷ s)) (c ∷ s))
    ]

unfoldable pub state_lines : Map Bytes HeaterState → Bytes
state_lines [] = []
state_lines ((name, s) ∷ m) =
    codes "HEATER " ++ (name ++ (codes ": " ++ (state_label s ++ (b'\n' ∷ state_lines m))))

unfoldable pub file_lines : List Bytes → Bytes
file_lines [] = []
file_lines (l ∷ ls) = l ++ (b'\n' ∷ file_lines ls)

-- The replies to `GET IP`, `DEBUG STATE` and `DEBUG WIFI`.
abbrev pub ip_text : Option (List Bytes) → Bytes
ip_text = pipe_reply (codes "Fail to get public IP") (codes "Unable to get public IP") 64

abbrev pub debug_state_text : Station → Bytes
debug_state_text st =
    codes "DEFAULT: "
    ++ (state_label st.heater_default_state ++ (b'\n' ∷ state_lines st.heater_state))

abbrev pub wifi_text : Option (List Bytes) → Bytes
wifi_text =
    pipe_reply (codes "Fail to get wifi connection info")
      (codes "Unable to get wifi connection info") 512
