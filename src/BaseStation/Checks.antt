-- ===== src/BaseStation/Checks.antt =====
-- The periodic checks of base_station.cpp: `checkWifi`, `checkLostDevices`, `check3G`,
-- `checkSMSDaemon`, `sendBootMsg` and `cleanupSMS`. The first argument of each is that its timer
-- has fired.
pub mod Fallback
pub mod Lost
use iot_heater.Prelude.{
  ℕ, zero, suc, ◌+◌, ◌-◌, ◌*◌, ◌/◌, ◌%◌, ◌^◌, Bool, true, false, not, ◌&&◌, ◌||◌, List, [], ◌∷◌,
  ◌++◌, Option, none, some, ltb, leb, ◌==◌, if◌then◌else◌,
}
use iot_heater.OrdMap.{Map, map_values}
use iot_heater.Text.{Bytes, codes, decimal}
use iot_heater.Wire.{HeaterState, defrost, Mac}
use iot_heater.BaseStation.State.{
  Station, Heater, Effect, send_sms, cleanup_sms, Outcome, state_label,
}
use iot_heater.BaseStation.Messages.{mac_str}
use iot_heater.BaseStation.Modem.{ModemStatus, registered, roaming}

abbrev pub wifi_error_threshold : ℕ
wifi_error_threshold = 15

abbrev pub module_3g_error_threshold : ℕ
module_3g_error_threshold = 6

abbrev pub daemon_error_threshold : ℕ
daemon_error_threshold = 6

-- In seconds.
abbrev pub device_lost_threshold : ℕ
device_lost_threshold = 86_400

abbrev pub fallback_heater_state : HeaterState
fallback_heater_state = defrost

-- `++counter` on an `unsigned int`.
abbrev pub increment : ℕ → ℕ
increment n = (n + 1) % 2 ^ 32

-- A time span in seconds as the messages print it.
unfoldable pub duration_str : ℕ → Bytes
unfolding decimal
duration_str secs =
    decimal (secs / 3600)
    ++ (b'h' ∷ (decimal (secs % 3600 / 60) ++ (b'm' ∷ (decimal (secs % 60) ++ codes "s"))))

abbrev pub sms_if_phone : Bytes → Bytes → List Effect
sms_if_phone [] text = []
sms_if_phone (c ∷ s) text = send_sms (c ∷ s) text ∷ []

abbrev pub wifi_lost_text : Bytes
wifi_lost_text =
    codes "Error! Base station lost WiFi connection for past "
    ++ (duration_str 900
        ++ codes ". Heaters cannot be controlled (they will switch to DEFROST mode automatically).")

abbrev pub wifi_restored_text : Bytes
wifi_restored_text = codes "Base station restored WiFi connection. System is now running ok."

-- The interface is up, or not.
unfoldable pub on_wifi : Bool → Station → Outcome
unfolding duration_str
on_wifi false st =
    let n = increment st.wifi_error_counter in
    (
      record st { wifi_error_counter = n },
      if n == wifi_error_threshold then sms_if_phone st.emergency_phone wifi_lost_text else [],
    )
on_wifi true st = (
  record st { wifi_error_counter = 0 },
  if st.wifi_error_counter == 0 then [] else sms_if_phone st.emergency_phone wifi_restored_text,
)

-- `checkWifi`; `none` is an `ioctl` that fails.
unfoldable pub check_wifi : Bool → Option Bool → Station → Outcome
unfolding on_wifi
check_wifi false flags st = (st, [])
check_wifi true none st = (st, [])
check_wifi true (some up) st = on_wifi up st

-- All heaters to the fallback state. The state file is left alone.
abbrev pub fall_back : Station → Station
fall_back st = record st {
  heater_default_state = fallback_heater_state;
  heater_state = map_values (λ _. fallback_heater_state) st.heater_state;
}

abbrev pub module_recovered_text : Bytes
module_recovered_text =
    codes "INFO! All heaters were set to "
    ++ (state_label fallback_heater_state ++ codes " mode due to earlier 3G module errors")

unfoldable pub is_online : ModemStatus → Bool
is_online registered = true
is_online roaming = true
is_online _ = false

-- `check3G`, behind the poll of its timer. The message is sent to an empty number too.
unfoldable pub on_3g : Bool → ModemStatus → Station → Outcome
unfolding is_online map_values
on_3g false status st =
    let n = increment st.module_error_counter in
    let st' = record st { module_error_counter = n } in
    (if n == module_3g_error_threshold then fall_back st' else st', [])
on_3g true status st =
    if is_online status
    then (
      record st { module_error_counter = 0 },
      if leb module_3g_error_threshold st.module_error_counter
          then send_sms st.emergency_phone module_recovered_text ∷ []
          else [],
    )
    else (st, [])

unfoldable pub check_3g : Bool → Bool → ModemStatus → Station → Outcome
unfolding on_3g
check_3g fired present status st = if fired then on_3g present status st else (st, [])

-- `checkSMSDaemon`, behind the poll of its timer.
unfoldable pub on_daemon : Bool → Station → Outcome
unfolding map_values
on_daemon false st =
    let n = increment st.daemon_error_counter in
    let st' = record st { daemon_error_counter = n } in
    (if n == daemon_error_threshold then fall_back st' else st', [])
on_daemon true st = (
  record st { daemon_error_counter = 0 },
  if st.daemon_error_counter == 0
      then []
      else sms_if_phone st.emergency_phone module_recovered_text,
)

unfoldable pub check_sms_daemon : Bool → Bool → Station → Outcome
unfolding on_daemon
check_sms_daemon fired running st = if fired then on_daemon running st else (st, [])

unfoldable pub boot_lines : Map Bytes HeaterState → Bytes
boot_lines [] = []
boot_lines ((name, s) ∷ m) =
    codes "Heater " ++ (name ++ (codes " state: " ++ (state_label s ++ (b'\n' ∷ boot_lines m))))

unfoldable pub boot_text : Station → Bytes
unfolding boot_lines
boot_text st =
    codes "INFO! Base station software started\nDefault heater state: "
    ++ (state_label st.heater_default_state ++ (b'\n' ∷ boot_lines st.heater_state))

unfoldable pub send_boot_msg : Bool → Station → Outcome
unfolding boot_text
send_boot_msg fired st = (st, if fired then sms_if_phone st.emergency_phone (boot_text st) else [])

unfoldable pub cleanup_sms_files : Bool → Station → Outcome
cleanup_sms_files fired st = (st, if fired then cleanup_sms ∷ [] else [])

-- `now - timestamp < DEVICE_LOST_THRESHOLD`; a time before the timestamp is less too.
unfoldable pub is_alive : ℕ → Heater → Bool
is_alive now h = ltb now (h.last_request_timestamp + device_lost_threshold)

-- The loop over `m_heaters`: what stays, and what is lost with its name.
unfoldable pub split_lost : ℕ → Map ℕ Heater → Map ℕ Heater × Map ℕ Bytes
unfolding is_alive
split_lost now [] = ([], [])
split_lost now ((mac, h) ∷ m) =
    let (kept, lost) = split_lost now m in
    if is_alive now h then ((mac, h) ∷ kept, lost) else (kept, (mac, h.name) ∷ lost)

-- The six bytes of a number, highest first: `mac_addr[i] = mac >> ...`.
unfoldable pub mac_of_value : ℕ → Mac
mac_of_value n = record {
  b0 = n / 0x100_0000_0000 % 256;
  b1 = n / 0x1_0000_0000 % 256;
  b2 = n / 0x100_0000 % 256;
  b3 = n / 0x1_0000 % 256;
  b4 = n / 0x100 % 256;
  b5 = n % 256;
}

abbrev pub device_name : ℕ → Bytes → Bytes
device_name mac [] = mac_str (mac_of_value mac)
device_name mac (c ∷ s) = c ∷ s

unfoldable pub lost_names : Map ℕ Bytes → Bytes
unfolding mac_of_value mac_str
lost_names [] = []
lost_names ((mac, name) ∷ []) = device_name mac name
lost_names ((mac, name) ∷ e ∷ m) = device_name mac name ++ (codes ", " ++ lost_names (e ∷ m))

-- With more than one device the text holds a literal `%d`: the stream formats nothing.
unfoldable pub lost_text : Map ℕ Bytes → Bytes
unfolding lost_names
lost_text [] = []
lost_text (e ∷ []) = codes "WARNING! Lost connection with one device: " ++ lost_names (e ∷ [])
lost_text (e ∷ f ∷ m) = codes "WARNING! Lost connection with %d devices: " ++ lost_names (e ∷ f ∷ m)

-- `checkLostDevices`. The map `lost_devices` is filled in the order of the keys.
unfoldable pub check_lost_devices : Bool → ℕ → Station → Outcome
unfolding split_lost lost_text
check_lost_devices false now st = (st, [])
check_lost_devices true now st =
    let (kept, lost) = split_lost now st.heaters in
    (
      record st { heaters = kept },
      elim lost [ [] ↦ [] | e ∷ m ↦ sms_if_phone st.emergency_phone (lost_text (e ∷ m)) ],
    )
