-- ===== src/BaseStation/Process/Rounds.antt =====
-- A round of the main loop on the abstract view of the base station, and the queue of messages over
-- many rounds.
use mathlib.Core.Path.{fun_ext}
use iot_heater.Prelude.{
  ℕ, suc, Bool, true, false, not, ◌&&◌, List, [], ◌∷◌, ◌≡◌, refl, ap, ◌∙◌, Bool-cases, inl, inr,
  ◌==◌, if◌then◌else◌, drop,
}
use iot_heater.Text.{Bytes}
use iot_heater.Wire.{HeaterState, defrost}
use iot_heater.BaseStation.State.{Station}
use iot_heater.BaseStation.Messages.{wanted_state}
use iot_heater.BaseStation.Commands.Execute.{Probes, rest_of}
use iot_heater.BaseStation.Commands.Queue.{parse_commands, run_queue, obey, is_refused}
use iot_heater.BaseStation.Commands.Results.{wanted_state-set_all}
use iot_heater.BaseStation.Commands.Orders.{
  Wishes, wishes, apply_orders, obeyed, parse_commands-refines, wanted_state-cong,
}
use iot_heater.BaseStation.Connections.{handle_connections, check_stale_connections}
use iot_heater.BaseStation.Modem.{ModemStatus}
use iot_heater.BaseStation.Checks.{
  increment, module_3g_error_threshold, daemon_error_threshold, check_wifi, check_3g, on_3g,
  check_sms_daemon, on_daemon, check_lost_devices, send_boot_msg, cleanup_sms_files, is_online,
}
use iot_heater.BaseStation.Process.{Round, process}
use iot_heater.BaseStation.Process.Frame.{
  Keeps, Keeps-trans, SameCounters, handle_connections-Keeps, check_stale-Keeps, check_wifi-Keeps,
  check_lost-Keeps, run_queue-SameCounters,
}

-- A check that counts up to its threshold.
abbrev pub trips : Bool → Bool → ℕ → ℕ → Bool
trips fired fine counter threshold = fired && (not fine && (increment counter == threshold))

check_3g-wishes :
    (fired present : Bool) (status : ModemStatus) (st : Station) (name : Bytes)
    → (wanted_state name (check_3g fired present status st).0 ≡ (
        if trips fired present st.module_error_counter module_3g_error_threshold
        then defrost
        else wanted_state name st))
      × ((check_3g fired present status st).0.commands ≡ st.commands)
      × ((check_3g fired present status st).0.daemon_error_counter ≡ st.daemon_error_counter)
unfolding check_3g on_3g
check_3g-wishes false present status st name = (refl, refl, refl)
check_3g-wishes true true status st name = elim (Bool-cases (is_online status)) [
  | inl e ↦ rw e (wanted_state-cong name st _ refl refl, refl, refl)
  | inr e ↦ rw e (refl, refl, refl)
]
check_3g-wishes true false status st name =
    let n = increment st.module_error_counter in
    let counted : Station = record st { module_error_counter = n } in
    elim (Bool-cases (n == module_3g_error_threshold)) [
      | inl e ↦ rw e (wanted_state-set_all name defrost counted, refl, refl)
      | inr e ↦ rw e (wanted_state-cong name st counted refl refl, refl, refl)
    ]

check_sms_daemon-wishes :
    (fired running : Bool) (st : Station) (name : Bytes)
    → (wanted_state name (check_sms_daemon fired running st).0 ≡ (
        if trips fired running st.daemon_error_counter daemon_error_threshold
        then defrost
        else wanted_state name st))
      × ((check_sms_daemon fired running st).0.commands ≡ st.commands)
unfolding check_sms_daemon on_daemon
check_sms_daemon-wishes false running st name = (refl, refl)
check_sms_daemon-wishes true true st name = (wanted_state-cong name st _ refl refl, refl)
check_sms_daemon-wishes true false st name =
    let n = increment st.daemon_error_counter in
    let counted : Station = record st { daemon_error_counter = n } in
    elim (Bool-cases (n == daemon_error_threshold)) [
      | inl e ↦ rw e (wanted_state-set_all name defrost counted, refl)
      | inr e ↦ rw e (wanted_state-cong name st counted refl refl, refl)
    ]

-- What a round makes of the wishes: the orders obeyed, and the two fallbacks to DEFROST.
abbrev pub round_wishes : Round → Station → Wishes
round_wishes r st name =
    let ordered =
      apply_orders (obeyed r.probe st.commands (handle_connections r.ready st).0) (wishes st)
        name in
    let served =
      if trips r.module_fired r.module_present st.module_error_counter module_3g_error_threshold
      then defrost
      else ordered in
    if trips r.daemon_fired r.daemon_running st.daemon_error_counter daemon_error_threshold
    then defrost
    else served

-- The stations that a round passes through.
abbrev behind_connections : Round → Station → Station
behind_connections r st = (handle_connections r.ready st).0

abbrev behind_commands : Round → Station → Station
behind_commands r st = (parse_commands r.probe (behind_connections r st)).0

abbrev behind_checks : Round → Station → Station
behind_checks r st =
    let c = (check_stale_connections r.stale_fired r.steady_now (behind_commands r st)).0 in
    let d = (check_wifi r.wifi_fired r.wifi_flags c).0 in
    (check_lost_devices r.lost_fired r.time_now d).0

behind_checks-Keeps : (r : Round) (st : Station) → Keeps (behind_commands r st) (behind_checks r st)
behind_checks-Keeps r st =
    let b = behind_commands r st in
    let c : Station = (check_stale_connections r.stale_fired r.steady_now b).0 in
    let d : Station = (check_wifi r.wifi_fired r.wifi_flags c).0 in
    Keeps-trans b c (behind_checks r st) (check_stale-Keeps r.stale_fired r.steady_now b) (
      Keeps-trans c d (behind_checks r st) (check_wifi-Keeps r.wifi_fired r.wifi_flags c)
        (check_lost-Keeps r.lost_fired r.time_now d))

behind_commands-SameCounters : (r : Round) (st : Station) → SameCounters st (behind_commands r st)
unfolding parse_commands
behind_commands-SameCounters r st =
    let a = behind_connections r st in
    let (s, d, q, m, n) = handle_connections-Keeps r.ready st in
    let (m', n') = run_queue-SameCounters r.probe a.commands a in (m' ∙ m, n' ∙ n)

process-parts :
    (r : Round) (st : Station) (name : Bytes)
    → let e = behind_checks r st in
      (wanted_state name (process r st).0 ≡ (
        if trips r.daemon_fired r.daemon_running e.daemon_error_counter daemon_error_threshold
        then defrost
        else (if trips r.module_fired r.module_present e.module_error_counter
              module_3g_error_threshold
            then defrost
            else wanted_state name e)))
      × ((process r st).0.commands ≡ e.commands)
unfolding process send_boot_msg cleanup_sms_files
process-parts r st name =
    let e = behind_checks r st in
    let g : Station = (check_3g r.module_fired r.module_present r.modem_status e).0 in
    let (w, q, n) = check_3g-wishes r.module_fired r.module_present r.modem_status e name in
    let (w', q') = check_sms_daemon-wishes r.daemon_fired r.daemon_running g name in
    (
      w'
          ∙ ap
              (λ (k : ℕ).
                if trips r.daemon_fired r.daemon_running k daemon_error_threshold
                then defrost
                else wanted_state name g)
              n
          ∙ ap
              (λ (s : HeaterState).
                if trips r.daemon_fired r.daemon_running e.daemon_error_counter
                  daemon_error_threshold
                then defrost
                else s)
              w,
      q' ∙ q,
    )

-- Up to the two checks, only messages change the wishes.
behind_checks-ordered :
    (r : Round) (st : Station) (name : Bytes)
    → wanted_state name (behind_checks r st)
      ≡ apply_orders (obeyed r.probe st.commands (behind_connections r st)) (wishes st) name
behind_checks-ordered r st name =
    let a = behind_connections r st in
    let (s, d, q, m, n) = behind_checks-Keeps r st in
    let (s0, d0, q0, m0, n0) = handle_connections-Keeps r.ready st in
    wanted_state-cong name (behind_commands r st) (behind_checks r st) s d
    ∙ ap (λ (w : Wishes). w name) (parse_commands-refines r.probe a)
    ∙ ap (λ (l : List (Bytes × Bytes)). apply_orders (obeyed r.probe l a) (wishes a) name) q0
    ∙ ap (λ (w : Wishes). apply_orders (obeyed r.probe st.commands a) w name)
        (fun_ext (λ other. wanted_state-cong other st a s0 d0))

-- The state wanted for each name after a round of the main loop: what the obeyed messages of the
-- queue make of the one before, order by order, and DEFROST for all names if the check of the
-- 3G module or of the daemon counts its sixth failure in this round. Nothing else that happens in a
-- round changes it: no device, no other timer, no other message.
pub process-refines : (r : Round) (st : Station) → wishes (process r st).0 ≡ round_wishes r st
process-refines r st = fun_ext λ name.
    let e = behind_checks r st in
    let (s, d, q, m, n) = behind_checks-Keeps r st in
    let (m', n') = behind_commands-SameCounters r st in
    let daemon = trips r.daemon_fired r.daemon_running in
    let module_3g = trips r.module_fired r.module_present in
    (process-parts r st name).0
    ∙ ap
        (λ (k : ℕ).
          if daemon k daemon_error_threshold
          then defrost
          else (if module_3g e.module_error_counter module_3g_error_threshold
              then defrost
              else wanted_state name e))
        (n ∙ n')
    ∙ ap
        (λ (k : ℕ).
          if daemon st.daemon_error_counter daemon_error_threshold
          then defrost
          else (if module_3g k module_3g_error_threshold then defrost else wanted_state name e))
        (m ∙ m')
    ∙ ap
        (λ (w : HeaterState).
          if daemon st.daemon_error_counter daemon_error_threshold
          then defrost
          else (if module_3g st.module_error_counter module_3g_error_threshold then defrost else w))
        (behind_checks-ordered r st name)

-- A call of `parseCommands` takes messages from the front of the queue, one at least.
run_queue-drop :
    (p : Probes) (q : List (Bytes × Bytes)) (st : Station)
    → (k : ℕ) × ((run_queue p q st).0.commands ≡ drop (suc k) q)
unfolding run_queue
run_queue-drop p [] st = (0, refl)
run_queue-drop p ((from, content) ∷ q) st = elim (Bool-cases (is_refused from st)) [
  | inl e ↦ (0, rw e refl)
  | inr e ↦
      let (k, rest) = run_queue-drop (rest_of p) q (obey (p 0) from content st).0 in
      (suc k, rw e rest)
]

-- A round takes messages from the front of the queue, one at least.
pub process-drop :
    (r : Round) (st : Station) → (k : ℕ) × ((process r st).0.commands ≡ drop (suc k) st.commands)
unfolding parse_commands
process-drop r st =
    let a = behind_connections r st in
    let (s, d, q, m, n) = behind_checks-Keeps r st in
    let (s0, d0, q0, m0, n0) = handle_connections-Keeps r.ready st in
    let (k, taken) = run_queue-drop r.probe a.commands a in
    (
      k,
      (process-parts r st []).1 ∙ q ∙ taken ∙ ap (λ (l : List (Bytes × Bytes)). drop (suc k) l) q0,
    )
