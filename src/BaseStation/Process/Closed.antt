-- ===== src/BaseStation/Process/Closed.antt =====
-- A round closes the descriptors that it takes off the list.
use iot_heater.Prelude.{ℕ, Bool, List, [], ◌∷◌, Option, ◌≡◌, refl, arith, All, if_intro}
use iot_heater.Text.{Bytes}
use iot_heater.BaseStation.State.{
  Station, Effect, send_sms, save_file, reboot, write_fd, close_fd, cleanup_sms, out_of_bounds,
  stall, Outcome,
}
use iot_heater.BaseStation.Commands.Classify.{Command, classify, normalise}
use iot_heater.BaseStation.Commands.Effects.{Proper, obey-AllProper}
use iot_heater.BaseStation.Commands.Execute.{Probes, rest_of, Probe, execute}
use iot_heater.BaseStation.Commands.Queue.{obey, is_refused, run_queue, parse_commands}
use iot_heater.BaseStation.Connections.{handle_connections, check_stale_connections}
use iot_heater.BaseStation.Connections.Balance.{
  closes, Balanced, Balanced-then, handle_connections-Balanced, check_stale-Balanced,
}
use iot_heater.BaseStation.Modem.{ModemStatus}
use iot_heater.BaseStation.Checks.{
  check_wifi, on_wifi, check_3g, on_3g, check_sms_daemon, on_daemon, check_lost_devices,
  send_boot_msg, cleanup_sms_files, sms_if_phone,
}
use iot_heater.BaseStation.Process.{Round, process, ◌>>=◌}

Proper-closes :
    (fd : ℕ) (from : Bytes) (st : Station) (e : List Effect)
    → All (Proper from st) e
    → closes fd e ≡ 0
Proper-closes fd from st [] h = refl
Proper-closes fd from st (send_sms to text ∷ e) h = Proper-closes fd from st e h.1
Proper-closes fd from st (save_file text ∷ e) h = Proper-closes fd from st e h.1
Proper-closes fd from st (reboot ∷ e) h = Proper-closes fd from st e h.1
Proper-closes fd from st (write_fd k b ∷ e) h = absurd h.0
Proper-closes fd from st (close_fd k ∷ e) h = absurd h.0
Proper-closes fd from st (cleanup_sms ∷ e) h = absurd h.0
Proper-closes fd from st (out_of_bounds ∷ e) h = absurd h.0
Proper-closes fd from st (stall ∷ e) h = absurd h.0

execute-connections :
    (p : Probe) (from : Bytes) (c : Command) (st : Station)
    → (execute p from c st).0.connections ≡ st.connections
unfolding execute
execute-connections p from c st = ground arith

obey-Balanced :
    (fd : ℕ) (p : Probe) (from content : Bytes) (st : Station)
    → Balanced fd st (obey p from content st)
unfolding obey
obey-Balanced fd p from content st =
    let o : Outcome = obey p from content st in
    let same_list : o.0.connections ≡ st.connections =
      execute-connections p from (classify (normalise content)) st in
    let none_closed : closes fd o.1 ≡ 0 =
      Proper-closes fd from o.0 o.1 (obey-AllProper p from content st) in
    rw (same_list, none_closed) (omega arith)

run_queue-Balanced :
    (fd : ℕ) (p : Probes) (q : List (Bytes × Bytes)) (st : Station)
    → Balanced fd st (run_queue p q st)
unfolding run_queue
run_queue-Balanced fd p [] st = omega arith
run_queue-Balanced fd p ((from, content) ∷ q) st =
    let done : Outcome = obey (p 0) from content st in
    if_intro (Balanced fd st) (is_refused from st) (λ _. omega arith)
      (λ _.
        Balanced-then fd st done (run_queue (rest_of p) q done.0)
          (obey-Balanced fd (p 0) from content st) (run_queue-Balanced fd (rest_of p) q done.0))

sms_if_phone-closes : (fd : ℕ) (phone text : Bytes) → closes fd (sms_if_phone phone text) ≡ 0
sms_if_phone-closes fd [] text = refl
sms_if_phone-closes fd (c ∷ s) text = refl

module _ (fd : ℕ) (st : Station) where
  check_wifi-Balanced :
      (fired : Bool) (flags : Option Bool) → Balanced fd st (check_wifi fired flags st)
  unfolding check_wifi on_wifi
  check_wifi-Balanced fired flags = ground (arith, sms_if_phone-closes fd)

  check_lost-Balanced : (fired : Bool) (now : ℕ) → Balanced fd st (check_lost_devices fired now st)
  unfolding check_lost_devices
  check_lost-Balanced fired now = ground (arith, sms_if_phone-closes fd)

  check_3g-Balanced :
      (fired present : Bool) (status : ModemStatus)
      → Balanced fd st (check_3g fired present status st)
  unfolding check_3g on_3g
  check_3g-Balanced fired present status = ground arith

  check_sms_daemon-Balanced :
      (fired running : Bool) → Balanced fd st (check_sms_daemon fired running st)
  unfolding check_sms_daemon on_daemon
  check_sms_daemon-Balanced fired running = ground (arith, sms_if_phone-closes fd)

  send_boot_msg-Balanced : (fired : Bool) → Balanced fd st (send_boot_msg fired st)
  unfolding send_boot_msg
  send_boot_msg-Balanced fired = ground (arith, sms_if_phone-closes fd)

  cleanup_sms-Balanced : (fired : Bool) → Balanced fd st (cleanup_sms_files fired st)
  unfolding cleanup_sms_files
  cleanup_sms-Balanced fired = ground arith

-- Methods that keep the balance, one before the others.
abbrev Runs : ℕ → Type 0
Runs fd = (f : Station → Outcome) × ((s : Station) → Balanced fd s (f s))

abbrev before :
    (fd : ℕ) (m : Station → Outcome) → ((s : Station) → Balanced fd s (m s)) → Runs fd → Runs fd
before fd m h (f, k) = (λ s. m s >>= f, λ s. Balanced-then fd s (m s) (f (m s).0) (h s) (k (m s).0))

-- What a round closes and what it leaves listed is what was listed before.
pub process-Balanced : (fd : ℕ) (r : Round) (st : Station) → Balanced fd st (process r st)
unfolding process parse_commands
process-Balanced fd r st =
    let from_9 : Runs fd =
      (cleanup_sms_files r.cleanup_fired, λ s. cleanup_sms-Balanced fd s r.cleanup_fired) in
    let from_8 =
      before fd (send_boot_msg r.boot_fired) (λ s. send_boot_msg-Balanced fd s r.boot_fired)
        from_9 in
    let from_7 =
      before fd (check_sms_daemon r.daemon_fired r.daemon_running)
        (λ s. check_sms_daemon-Balanced fd s r.daemon_fired r.daemon_running) from_8 in
    let from_6 =
      before fd (check_3g r.module_fired r.module_present r.modem_status)
        (λ s. check_3g-Balanced fd s r.module_fired r.module_present r.modem_status) from_7 in
    let from_5 =
      before fd (check_lost_devices r.lost_fired r.time_now)
        (λ s. check_lost-Balanced fd s r.lost_fired r.time_now) from_6 in
    let from_4 =
      before fd (check_wifi r.wifi_fired r.wifi_flags)
        (λ s. check_wifi-Balanced fd s r.wifi_fired r.wifi_flags) from_5 in
    let from_3 =
      before fd (check_stale_connections r.stale_fired r.steady_now)
        (λ s. check_stale-Balanced fd r.stale_fired r.steady_now s) from_4 in
    let from_2 =
      before fd (parse_commands r.probe) (λ s. run_queue-Balanced fd r.probe s.commands s) from_3 in
    let from_1 =
      before fd (handle_connections r.ready) (λ s. handle_connections-Balanced fd r.ready s)
        from_2 in
    from_1.1 st
