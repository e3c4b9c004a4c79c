-- ===== src/Tests/Services.antt =====
-- The modem, the files of text messages and the log.
use iot_heater.Prelude.{
  ◌-◌, ◌*◌, ltb, Bool, true, List, [], ◌∷◌, ◌++◌, none, ◌≡◌, refl, if◌then◌else◌, min, length, ◌<◌,
  arith, replicate,
}
use iot_heater.OrdMap.{find}
use iot_heater.OrdMap.Keys.{str_order}
use iot_heater.Text.{Bytes, codes, c_str, occurs, starts_with, str_lt}
use iot_heater.BaseStation.Modem.{SerialPort, gather, registration, check_3g_connection}
use iot_heater.BaseStation.Modem.Status.{check_3g_connection-registered}
use iot_heater.Sms.Sender.{Sender, cleanup_sms_dir}
use iot_heater.Sms.Sender.Cleanup.{cleanup_sms_dir-minutes, young-stays}
use iot_heater.Logger.{
  Entry, info, warn, debug, start_logging, log, log_all, max_log_count, max_log_filesize,
}
use iot_heater.Logger.Files.{Files, Down, read}
use iot_heater.Logger.Rotation.{all_lines, kept, log_all-start}
use iot_heater.Logger.Leftovers.{old_file-stays}

abbrev pub port : SerialPort
port = record {
  opened = true;
  got_old_params = true;
  got_new_params = true;
  configured = true;
  wrote_at = true;
  at_reply = codes "AT" ∷ codes "OK" ∷ [];
  wrote_cpin = true;
  cpin_reply = codes "+CPIN: READY" ∷ [];
  wrote_creg = true;
  creg_reply = codes "+CREG: 0,1" ∷ [];
}

check_3g_connection-registered_example :
    (occurs (codes "OK") (gather port.at_reply) ≡ true)
    × (occurs (codes "+CPIN: READY") (gather port.cpin_reply) ≡ true)
    × (occurs (codes "+CREG: 0,1") (gather port.creg_reply) ≡ true)
unfolding check_3g_connection gather registration occurs starts_with c_str
check_3g_connection-registered_example = check_3g_connection-registered port refl

-- Two files, the second sent a thousand seconds after the first.
abbrev sender : Sender
sender = record {
  counter = 2;
  old_files = (codes "sms_1_0", 0) ∷ (codes "sms_1_1", 1_000_000_000_000) ∷ [];
  outgoing = (codes "sms_1_0", codes "a") ∷ (codes "sms_1_1", codes "b") ∷ [];
}

-- A directory in which every `remove` succeeds.
abbrev all_removed : Bytes → Bool
all_removed name = true

cleanup_sms_dir-minutes_example :
    let s' = cleanup_sms_dir all_removed 1_000_000_000_000 sender in
    (find (codes "sms_1_0") s'.outgoing ≡ (
      if ltb (1_000_000_000_000 - 0) (15 * 60 * 1_000_000_000)
      then find (codes "sms_1_0") sender.outgoing
      else if all_removed (codes "sms_1_0")
      then none
      else find (codes "sms_1_0") sender.outgoing))
    × (s'.old_files ≡ [])
unfolding find str_lt
cleanup_sms_dir-minutes_example =
    cleanup_sms_dir-minutes all_removed 1_000_000_000_000 sender (codes "sms_1_0") 0
      ((refl, tt), (tt, tt)) refl

young-stays_example :
    find
      (codes "sms_1_1")
      (cleanup_sms_dir all_removed 9_000_000_000_000
        (cleanup_sms_dir all_removed 1_000_000_000_000 sender)).outgoing
    ≡ find (codes "sms_1_1") sender.outgoing
unfolding find str_lt
young-stays_example =
    young-stays all_removed all_removed 1_000_000_000_000 9_000_000_000_000 sender (codes "sms_1_1")
      1_000_000_000_000 ((refl, tt), (tt, tt)) refl (omega arith)

abbrev lines : List Entry
lines =
    record { level = info; time = codes "2024-01-01 10:00:00"; message = replicate 1_200_000 b'a' }
    ∷ record {
      level = warn;
      time = codes "2024-01-01 10:00:01";
      message = codes "Heater kitchen rebooted";
    }
    ∷ []

log_all-start_example :
    let l = log_all lines (start_logging []) in
    Down (min l.index 15) l.index l.others
    × (length l.others < max_log_count)
    × (length l.text < max_log_filesize)
    × (gone : Bytes) × (all_lines lines ≡ gone ++ kept l)
log_all-start_example = log_all-start lines

-- The files of a run that came to its hundredth file.
abbrev earlier : Files
earlier = (100, codes "[2023") ∷ (99, codes "[2022") ∷ []

abbrev short : List Entry
short = record { level = debug; time = codes "2024-01-01 10:00:00"; message = codes "start" } ∷ []

old_file-stays_example : read 99 (log_all short (start_logging earlier)).others ≡ read 99 earlier
unfolding log_all start_logging log
old_file-stays_example = old_file-stays 99 short earlier (omega arith)
