-- ===== src/BaseStation/Commands/Execute.antt =====
-- The bodies of the branches of `parseCommands`, and `sendVersion`.
pub mod Replies
unfoldable pub use iot_heater.BaseStation.Commands.Execute.Replies.{
  concat, read_limited, pieces, pipe_reply, log_messages, state_lines, file_lines, ip_text,
  debug_state_text, wifi_text,
}
use iot_heater.Prelude.{
  ℕ, zero, suc, ◌==◌, true, false, List, [], ◌∷◌, ◌++◌, map, Option, none, some, length, get_elem?,
  take, drop, ltb, if◌then◌else◌,
}
use iot_heater.OrdMap.{Map, insert, erase, contains, find, map_values}
use iot_heater.OrdMap.Keys.{str_order}
use iot_heater.Text.{Bytes, codes, str_eq, to_upper, check_heater_name, check_phone_number_format}
use iot_heater.Wire.{HeaterState}
use iot_heater.BaseStation.State.{
  Station, Effect, send_sms, reboot, out_of_bounds, Outcome, state_label,
}
use iot_heater.BaseStation.Persist.{save_state}
use iot_heater.BaseStation.Commands.Classify.{
  Command, ping, version, all_states, set_heater, get_default, get_heater, get_ip, lock, unlock,
  add_phone, remove_phone, set_emergency, remove_emergency, help, debug_filestate, debug_state,
  debug_reboot, debug_wifi, debug_log, debug_uptime, invalid,
}

-- What the commands read of the system: the version and uptime strings, the lines of the state
-- file, and what `popen` and `fgets` give for curl, iwconfig and journalctl; `none` is a `popen`
-- that fails.
pub record Probe : Type 0 where
  pub version_str : Bytes
  pub uptime_str : Bytes
  pub state_file_lines : List Bytes
  pub curl : Option (List Bytes)
  pub iwconfig : Option (List Bytes)
  pub journal : Option (List Bytes)

-- What the messages of one call of `parseCommands` meet, one after the other: each reads the system
-- as it is by then.
abbrev pub Probes : Type 0
Probes = ℕ → Probe

abbrev pub rest_of : Probes → Probes
rest_of p n = p (suc n)

abbrev pub pin : Bytes
pin = codes "1234"

abbrev pub invalid_phone : Bytes → Bytes
invalid_phone p =
    codes "Phone number \""
    ++ (p
        ++ codes
            "\" is not valid. Phone numbers must follow this format: (country code)(9-10 digits). Example: 3310203040506")

-- The `ALL` branches.
abbrev pub set_all : HeaterState → Station → Station
set_all s st = record st {
  heater_default_state = s;
  heater_state = map_values (λ _. s) st.heater_state;
}

abbrev pub saved : Bytes → Bytes → Station → Outcome
saved from reply st = (st, save_state st ∷ send_sms from reply ∷ [])

abbrev pub replied : Bytes → Bytes → Station → Outcome
replied from reply st = (st, send_sms from reply ∷ [])

unfoldable pub run_set_heater : Bytes → HeaterState → Bytes → Bytes → Station → Outcome
unfolding check_heater_name insert
run_set_heater from s name suffix st =
    if check_heater_name name
    then saved from (codes "HEATER " ++ (name ++ suffix))
        (record st { heater_state = insert name s st.heater_state })
    else replied from (codes "Invalid heater name") st

unfoldable pub run_get_heater : Bytes → Bytes → Station → Outcome
unfolding check_heater_name to_upper find
run_get_heater from name st =
    if check_heater_name name
    then (let key = map to_upper name in
        let state : HeaterState = elim (find key st.heater_state) [
          | some s ↦ s
          | none ↦ st.heater_default_state
        ] in
        replied from (codes "HEATER " ++ (key ++ (b' ' ∷ state_label state))) st)
    else replied from (codes "Invalid name") st

unfoldable pub run_lock : Bytes → Station → Outcome
unfolding contains find
run_lock from st =
    if contains from st.phone_whitelist
    then replied from (codes "LOCKED") (record st { locked = true })
    else replied from (codes "Cannot lock: phone number is not whitelisted. Use ADD PHONE command.")
        st

-- `tokens[1]` is read before the number of tokens is tested.
unfoldable pub run_unlock : Bytes → List Bytes → Station → Outcome
unfolding str_eq
run_unlock from words st = elim (get_elem? words 1) [
  | none ↦ (st, out_of_bounds ∷ [])
  | some word ↦
      if str_eq word pin
      then replied from (codes "UNLOCKED") (record st { locked = false })
      else replied from (codes "Wrong PIN") st
]

-- At `tokens.size() == n`, the last token.
abbrev pub last_of : ℕ → List Bytes → Option Bytes
last_of n words = if length words == suc n then get_elem? words n else none

unfoldable pub run_add_phone : Bytes → List Bytes → Station → Outcome
unfolding check_phone_number_format insert
run_add_phone from words st = if st.locked then (st, []) else elim (last_of 2 words) [
  | none ↦ (st, [])
  | some p ↦
      if check_phone_number_format p
      then (let st' = record st { phone_whitelist = insert p tt st.phone_whitelist } in
          (
            st',
            send_sms from (codes "Phone number \"" ++ (p ++ codes "\" added to whitelist"))
                ∷ save_state st'
                ∷ [],
          ))
      else replied from (invalid_phone p) st
]

unfoldable pub run_remove_phone : Bytes → List Bytes → Station → Outcome
unfolding erase
run_remove_phone from words st = if st.locked then (st, []) else elim (last_of 2 words) [
  | none ↦ (st, [])
  | some p ↦
      let st' = record st { phone_whitelist = erase p st.phone_whitelist } in
      (
        st',
        send_sms from (codes "Phone number \"" ++ (p ++ codes "\" removed from whitelist"))
            ∷ save_state st'
            ∷ [],
      )
]

unfoldable pub run_set_emergency : Bytes → List Bytes → Station → Outcome
unfolding check_phone_number_format
run_set_emergency from words st = elim (last_of 3 words) [
  | none ↦ (st, [])
  | some p ↦
      if check_phone_number_format p
      then (let st' = record st { emergency_phone = p } in
          (st', send_sms from (p ++ codes " set as emergency phone number.") ∷ save_state st' ∷ []))
      else replied from (invalid_phone p) st
]

unfoldable pub run_remove_emergency : Bytes → Station → Outcome
run_remove_emergency from st = (
  record st { emergency_phone = [] },
  elim st.emergency_phone [ [] ↦ [] | _ ↦ send_sms from (codes "Emergency phone removed") ∷ [] ],
)

abbrev pub help_text : Bytes
help_text = codes "Basic commands:\nALL OFF\nALL ECO\nALL COMFORT\nALL DEFROST\n"

unfoldable pub execute : Probe → Bytes → Command → Station → Outcome
unfolding run_set_heater run_get_heater run_lock run_unlock run_add_phone run_remove_phone
    run_set_emergency run_remove_emergency pipe_reply log_messages state_lines file_lines map_values
execute p from ping st = replied from (codes "PONG") st
execute p from version st = replied from p.version_str st
execute p from (all_states s reply) st = saved from reply (set_all s st)
execute p from (set_heater s name suffix) st = run_set_heater from s name suffix st
execute p from get_default st =
    replied from (codes "DEFAULT: " ++ state_label st.heater_default_state) st
execute p from (get_heater name) st = run_get_heater from name st
execute p from get_ip st = replied from (ip_text p.curl) st
execute p from lock st = run_lock from st
execute p from (unlock words) st = run_unlock from words st
execute p from (add_phone words) st = run_add_phone from words st
execute p from (remove_phone words) st = run_remove_phone from words st
execute p from (set_emergency words) st = run_set_emergency from words st
execute p from remove_emergency st = run_remove_emergency from st
execute p from help st = replied from help_text st
execute p from debug_filestate st = replied from (file_lines p.state_file_lines) st
execute p from debug_state st = replied from (debug_state_text st) st
execute p from debug_reboot st = (st, reboot ∷ [])
execute p from debug_wifi st = replied from (wifi_text p.iwconfig) st
execute p from debug_log st = (st, log_messages from p.journal)
execute p from debug_uptime st = replied from p.uptime_str st
execute p from invalid st = replied from (codes "Received invalid command") st
