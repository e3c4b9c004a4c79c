-- ===== src/BaseStation/Modem.antt =====
-- `check_3g_module_presence`, `check_3g_connection` and `is_process_running` of base_station.cpp.
-- What the device files and /proc answer is given.
pub mod Status
use iot_heater.Prelude.{
  Bool, true, false, not, ◌&&◌, List, [], ◌∷◌, ◌++◌, Option, none, some, if◌then◌else◌,
}
use iot_heater.Text.{Bytes, codes, str_eq, occurs, c_str}

-- `access` on the two serial devices.
unfoldable pub check_3g_module_presence : Bool → Bool → Bool
check_3g_module_presence usb2 usb3 = usb2 && usb3

pub data ModemStatus : Type 0 where
  coms_failure sim_error not_registered denied registered : ModemStatus
  searching unknown roaming : ModemStatus

-- What the calls on the serial port give. `configured` is that the three calls that set the port
-- succeed, each `wrote` that a command is written whole, each reply what the reads add up to.
pub record SerialPort : Type 0 where
  pub opened : Bool
  pub got_old_params : Bool
  pub got_new_params : Bool
  pub configured : Bool
  pub wrote_at : Bool
  pub at_reply : List Bytes
  pub wrote_cpin : Bool
  pub cpin_reply : List Bytes
  pub wrote_creg : Bool
  pub creg_reply : List Bytes

-- `reply += buf`, for each `read` that gives bytes: `buf` ends at its first zero byte.
unfoldable pub gather : List Bytes → Bytes
unfolding c_str
gather [] = []
gather (b ∷ bs) = c_str b ++ gather bs

unfoldable pub registration : Bytes → ModemStatus
unfolding occurs
registration reply =
    if occurs (codes "+CREG: 0,0") reply
    then not_registered
    else if occurs (codes "+CREG: 0,1") reply
    then registered
    else if occurs (codes "+CREG: 0,2") reply
    then searching
    else if occurs (codes "+CREG: 0,3") reply
    then denied
    else if occurs (codes "+CREG: 0,4") reply
    then unknown
    else if occurs (codes "+CREG: 0,5") reply
    then roaming
    else unknown

-- The dialogue: every step that fails leaves `MODEM_COMS_FAILURE`.
unfoldable pub check_3g_connection : SerialPort → ModemStatus
unfolding occurs gather registration
check_3g_connection p =
    if not (p.opened && (p.got_old_params && (p.got_new_params && p.configured)))
    then coms_failure
    else if not (p.wrote_at && occurs (codes "OK") (gather p.at_reply))
    then coms_failure
    else if not (p.wrote_cpin && occurs (codes "+CPIN: READY") (gather p.cpin_reply))
    then coms_failure
    else if not p.wrote_creg
    then coms_failure
    else registration (gather p.creg_reply)

-- An entry of /proc with a number that is not negative: its stat file may not open, may not have
-- the expected form, or names a process.
pub data ProcEntry : Type 0 where
  no_stat bad_stat : ProcEntry
  process : Bytes → ProcEntry

unfoldable pub scan_proc : Bytes → List ProcEntry → Bool
unfolding str_eq
scan_proc name [] = false
scan_proc name (no_stat ∷ es) = scan_proc name es
scan_proc name (bad_stat ∷ es) = false
scan_proc name (process p ∷ es) =
    let rest = scan_proc name es in if str_eq p name then true else rest

-- `is_process_running`; `none` is an /proc that does not open.
unfoldable pub is_process_running : Bytes → Option (List ProcEntry) → Bool
unfolding scan_proc
is_process_running name none = false
is_process_running name (some es) = scan_proc name es
