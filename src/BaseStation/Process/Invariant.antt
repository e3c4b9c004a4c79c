-- ===== src/BaseStation/Process/Invariant.antt =====
-- The settings stay well formed through every round of the main loop.
use iot_heater.Prelude.{
  ℕ, Bool, true, false, List, [], ◌∷◌, Option, refl, arith, if_intro, ◌==◌, if◌then◌else◌,
}
use iot_heater.OrdMap.Laws.{map_values-All, map_values-IsSorted}
use iot_heater.OrdMap.Keys.{str_order}
use iot_heater.Wire.{defrost}
use iot_heater.BaseStation.Modem.{ModemStatus}
use iot_heater.BaseStation.State.{Station, DeviceConnection, Outcome}
use iot_heater.BaseStation.Validity.{IsValid}
use iot_heater.BaseStation.Commands.Queue.{parse_commands}
use iot_heater.BaseStation.Commands.Validity.{parse_commands-IsValid}
use iot_heater.BaseStation.Messages.Answers.{SameSettings, parse_message-SameSettings}
use iot_heater.BaseStation.Connections.{
  ReadOutcome, complete, failed, closed, blocked, Ready, serve, serve_all, has_fd, read_loop,
  handle_connections, check_stale_connections,
}
use iot_heater.BaseStation.Checks.{
  increment, module_3g_error_threshold, daemon_error_threshold, is_online, on_wifi, check_wifi,
  fall_back, on_3g, check_3g, on_daemon, check_sms_daemon, send_boot_msg, cleanup_sms_files,
  check_lost_devices,
}
use iot_heater.BaseStation.Process.{Round, process}

same-IsValid : (st st' : Station) → SameSettings st st' → IsValid st → IsValid st'
same-IsValid st st' (d, s, l, w, e, c) v = record {
  names_sorted = rw s v.names_sorted;
  names = rw s v.names;
  phones_sorted = rw w v.phones_sorted;
  phones = rw w v.phones;
  emergency = rw e v.emergency;
}

pub serve-SameSettings :
    (r : Ready) (o : ReadOutcome) (st : Station) → SameSettings st (serve r o st).0
unfolding serve
serve-SameSettings r (complete message) st = parse_message-SameSettings r.arrival r.fd message st
serve-SameSettings r failed st = (refl, refl, refl, refl, refl, refl)
serve-SameSettings r closed st = (refl, refl, refl, refl, refl, refl)
serve-SameSettings r blocked st = (refl, refl, refl, refl, refl, refl)

serve_all-IsValid : (rs : List Ready) (st : Station) → IsValid st → IsValid (serve_all rs st).0
unfolding serve_all
serve_all-IsValid [] st v = v
serve_all-IsValid (r ∷ rs) st v = serve_all-IsValid rs _ (
    if_intro (λ (o : Outcome). IsValid o.0) (has_fd r.fd st.connections)
      (λ _. same-IsValid st _ (serve-SameSettings r (read_loop r.reads []) st) v) (λ _. v))

handle_connections-IsValid :
    (rs : List Ready) (st : Station) → IsValid st → IsValid (handle_connections rs st).0
unfolding handle_connections
handle_connections-IsValid rs st v = go st.connections
  where
    go :
        (cs : List DeviceConnection)
        → IsValid (elim cs as (λ _. Outcome) [ [] ↦ (st, []) | c ∷ cs ↦ serve_all rs st ]).0
    go [] = v
    go (c ∷ cs) = serve_all-IsValid rs st v

fall_back-IsValid : (st : Station) → IsValid st → IsValid (fall_back st)
fall_back-IsValid st v = record {
  names_sorted = map_values-IsSorted (λ _. defrost) st.heater_state v.names_sorted;
  names = map_values-All _ (λ _. defrost) st.heater_state (λ k s n. n) v.names;
  phones_sorted = v.phones_sorted;
  phones = v.phones;
  emergency = v.emergency;
}

abbrev Same : Station → Station → Type 0
Same st st' = SameSettings st st'

check_stale-Same :
    (fired : Bool) (now : ℕ) (st : Station) → Same st (check_stale_connections fired now st).0
unfolding check_stale_connections
check_stale-Same fired now st = ground arith

check_wifi-Same :
    (fired : Bool) (flags : Option Bool) (st : Station) → Same st (check_wifi fired flags st).0
unfolding check_wifi on_wifi
check_wifi-Same fired flags st = ground arith

check_lost-Same :
    (fired : Bool) (now : ℕ) (st : Station) → Same st (check_lost_devices fired now st).0
unfolding check_lost_devices
check_lost-Same fired now st = ground arith

counted-IsValid : (b : Bool) (st : Station) → IsValid st → IsValid (if b then fall_back st else st)
counted-IsValid b st v = if_intro IsValid b (λ _. fall_back-IsValid st v) (λ _. v)

check_3g-IsValid :
    (fired present : Bool) (status : ModemStatus) (st : Station)
    → IsValid st
    → IsValid (check_3g fired present status st).0
unfolding check_3g on_3g
check_3g-IsValid false present status st v = v
check_3g-IsValid true false status st v =
    let n = increment st.module_error_counter in
    counted-IsValid (n == module_3g_error_threshold) (record st { module_error_counter = n })
      (same-IsValid st _ (refl, refl, refl, refl, refl, refl) v)
check_3g-IsValid true true status st v =
    if_intro (λ (o : Outcome). IsValid o.0) (is_online status)
      (λ _. same-IsValid st _ (refl, refl, refl, refl, refl, refl) v) (λ _. v)

check_sms_daemon-IsValid :
    (fired running : Bool) (st : Station)
    → IsValid st
    → IsValid (check_sms_daemon fired running st).0
unfolding check_sms_daemon on_daemon
check_sms_daemon-IsValid false running st v = v
check_sms_daemon-IsValid true false st v =
    let n = increment st.daemon_error_counter in
    counted-IsValid (n == daemon_error_threshold) (record st { daemon_error_counter = n })
      (same-IsValid st _ (refl, refl, refl, refl, refl, refl) v)
check_sms_daemon-IsValid true true st v = same-IsValid st _ (refl, refl, refl, refl, refl, refl) v

-- One round of the main loop leaves the settings well formed if they were, whatever devices send,
-- whatever text messages wait, whichever timers have fired and whatever the system answers.
pub process-IsValid : (r : Round) (st : Station) → IsValid st → IsValid (process r st).0
unfolding process send_boot_msg cleanup_sms_files
process-IsValid r st v =
    let a : Station = (handle_connections r.ready st).0 in
    let b : Station = (parse_commands r.probe a).0 in
    let c : Station = (check_stale_connections r.stale_fired r.steady_now b).0 in
    let d : Station = (check_wifi r.wifi_fired r.wifi_flags c).0 in
    let e : Station = (check_lost_devices r.lost_fired r.time_now d).0 in
    let v1 : IsValid b =
      parse_commands-IsValid r.probe a (handle_connections-IsValid r.ready st v) in
    let v2 : IsValid c = same-IsValid b c (check_stale-Same r.stale_fired r.steady_now b) v1 in
    let v3 : IsValid d = same-IsValid c d (check_wifi-Same r.wifi_fired r.wifi_flags c) v2 in
    let v4 : IsValid e = same-IsValid d e (check_lost-Same r.lost_fired r.time_now d) v3 in
    check_sms_daemon-IsValid r.daemon_fired r.daemon_running _
      (check_3g-IsValid r.module_fired r.module_present r.modem_status e v4)
