-- ===== src/BaseStation/Page/Devices.antt =====
-- What devices have sent holds no tag, whatever they send.
use iot_heater.Prelude.{
  ℕ, Bool, true, false, List, [], ◌∷◌, ◌≡◌, refl, ◌∙◌, sym, arith, All, Option, if_intro, ◌==◌,
  Option-cases, inl, inr, subst, not, drop,
}
use iot_heater.OrdMap.{Map}
use iot_heater.OrdMap.Laws.{insert-All}
use iot_heater.OrdMap.Keys.{mac_order, str_order}
use iot_heater.Text.{Bytes, is_alnum, check_heater_name}
use iot_heater.Text.Laws.{all_bytes-All}
use iot_heater.Text.Lines.{Free}
use iot_heater.Wire.{Header, parse_header, req_heater_state}
use iot_heater.BaseStation.State.{Station, Heater, Outcome, DeviceConnection, new_heater, update}
use iot_heater.BaseStation.Messages.{
  Arrival, parse_message, on_header, answer_request, send_heater_state, scan_name, checked_name,
}
use iot_heater.BaseStation.Commands.Classify.{Command, classify, normalise}
use iot_heater.BaseStation.Commands.Execute.{Probes, rest_of, Probe, execute}
use iot_heater.BaseStation.Commands.Queue.{parse_commands, run_queue, obey, is_refused}
use iot_heater.BaseStation.Connections.{
  ReadOutcome, complete, failed, closed, blocked, Ready, serve, serve_all, has_fd, read_loop,
  handle_connections, check_stale_connections,
}
use iot_heater.BaseStation.Modem.{ModemStatus}
use iot_heater.BaseStation.Checks.{
  check_wifi, on_wifi, check_3g, on_3g, check_sms_daemon, on_daemon, check_lost_devices, split_lost,
  is_alive, send_boot_msg, cleanup_sms_files,
}
use iot_heater.BaseStation.Process.{Round, process}
use iot_heater.BaseStation.Page.Markup.{PlainHeaters}

-- Letters and digits are no `<`.
alnum-no_tag : (s : Bytes) → All (λ c. is_alnum c ≡ true) s → Free b'<' s
unfolding is_alnum
alnum-no_tag [] h = tt
alnum-no_tag (c ∷ s) h = (ground arith, alnum-no_tag s h.1)

checked_name-no_tag : (name : Bytes) → Free b'<' (checked_name name)
unfolding check_heater_name
checked_name-no_tag [] = tt
checked_name-no_tag (c ∷ s) =
    if_intro (Free b'<') (check_heater_name (c ∷ s))
      (λ h. alnum-no_tag (c ∷ s) (all_bytes-All is_alnum (c ∷ s) h)) (λ _. tt)

abbrev pub IsPlain : Station → Type 0
IsPlain st = PlainHeaters st.heaters

module _ (a : Arrival) (fd : ℕ) (ip : Free b'<' a.peer_ip) where
  answer_request-IsPlain :
      (h : Header) (name : Bytes) (st : Station)
      → Free b'<' name
      → IsPlain st
      → IsPlain (answer_request a fd h name st).0
  unfolding answer_request send_heater_state update new_heater
  answer_request-IsPlain h name st n p = insert-All _ _ _ st.heaters (n, ip) p

  on_header-IsPlain :
      (h : Header) (payload : Bytes) (st : Station)
      → IsPlain st
      → IsPlain (on_header a fd h payload st).0
  unfolding on_header
  on_header-IsPlain h payload st p =
      let P = λ (o : Outcome). IsPlain o.0 in
      if_intro P (not (h.version == 1)) (λ _. p)
        (λ _.
          if_intro P (h.msg_type == req_heater_state)
            (λ _. elim (Option-cases (scan_name payload)) [
              | inl e ↦ rw (e, on_header) p
              | inr (name, e) ↦
                  rw (e, on_header)
                    (answer_request-IsPlain h (checked_name name) st (checked_name-no_tag name) p)
            ])
            (λ _. p))

  parse_message-IsPlain :
      (message : Bytes) (st : Station) → IsPlain st → IsPlain (parse_message a fd message st).0
  unfolding parse_message
  parse_message-IsPlain message st p =
      on_header-IsPlain (parse_header message) (drop 16 message) st p

execute-heaters :
    (p : Probe) (from : Bytes) (c : Command) (st : Station)
    → (execute p from c st).0.heaters ≡ st.heaters
unfolding execute
execute-heaters p from c st = ground arith

-- Text messages do not touch the list of devices.
run_queue-heaters :
    (p : Probes) (q : List (Bytes × Bytes)) (st : Station)
    → (run_queue p q st).0.heaters ≡ st.heaters
unfolding run_queue
run_queue-heaters p [] st = refl
run_queue-heaters p ((from, content) ∷ q) st =
    let done = (obey (p 0) from content st).0 in
    let same : done.heaters ≡ st.heaters =
      unfold obey in execute-heaters (p 0) from (classify (normalise content)) st in
    if_intro (λ (o : Outcome). o.0.heaters ≡ st.heaters) (is_refused from st) (λ _. refl)
      (λ _. run_queue-heaters (rest_of p) q done ∙ same)

serve-IsPlain :
    (r : Ready) (o : ReadOutcome) (st : Station)
    → Free b'<' r.arrival.peer_ip
    → IsPlain st
    → IsPlain (serve r o st).0
unfolding serve
serve-IsPlain r (complete message) st ip p = parse_message-IsPlain r.arrival r.fd ip message st p
serve-IsPlain r failed st ip p = p
serve-IsPlain r closed st ip p = p
serve-IsPlain r blocked st ip p = p

-- The addresses of the peers, as `inet_ntoa` writes them.
abbrev pub PlainPeers : List Ready → Type 0
PlainPeers rs = All (λ r. Free b'<' r.arrival.peer_ip) rs

serve_all-IsPlain :
    (rs : List Ready) (st : Station) → PlainPeers rs → IsPlain st → IsPlain (serve_all rs st).0
unfolding serve_all
serve_all-IsPlain [] st f p = p
serve_all-IsPlain (r ∷ rs) st f p = serve_all-IsPlain rs _ f.1 (
    if_intro (λ (o : Outcome). IsPlain o.0) (has_fd r.fd st.connections)
      (λ _. serve-IsPlain r (read_loop r.reads []) st f.0 p) (λ _. p))

handle_connections-IsPlain :
    (rs : List Ready) (st : Station)
    → PlainPeers rs
    → IsPlain st
    → IsPlain (handle_connections rs st).0
unfolding handle_connections
handle_connections-IsPlain rs st f p = go st.connections
  where
    go :
        (cs : List DeviceConnection)
        → IsPlain (elim cs as (λ _. Outcome) [ [] ↦ (st, []) | c ∷ cs ↦ serve_all rs st ]).0
    go [] = p
    go (c ∷ cs) = serve_all-IsPlain rs st f p

split_lost-plain : (now : ℕ) (m : Map ℕ Heater) → PlainHeaters m → PlainHeaters (split_lost now m).0
unfolding split_lost
split_lost-plain now [] p = tt
split_lost-plain now ((mac, h) ∷ m) p =
    if_intro (λ (x : Map ℕ Heater × Map ℕ Bytes). PlainHeaters x.0) (is_alive now h)
      (λ _. (p.0, split_lost-plain now m p.1)) (λ _. split_lost-plain now m p.1)

check_lost-IsPlain :
    (fired : Bool) (now : ℕ) (st : Station)
    → IsPlain st
    → IsPlain (check_lost_devices fired now st).0
unfolding check_lost_devices
check_lost-IsPlain false now st p = p
check_lost-IsPlain true now st p = split_lost-plain now st.heaters p

check_stale-heaters :
    (fired : Bool) (now : ℕ) (st : Station)
    → (check_stale_connections fired now st).0.heaters ≡ st.heaters
unfolding check_stale_connections
check_stale-heaters fired now st = ground arith

check_wifi-heaters :
    (fired : Bool) (flags : Option Bool) (st : Station)
    → (check_wifi fired flags st).0.heaters ≡ st.heaters
unfolding check_wifi on_wifi
check_wifi-heaters fired flags st = ground arith

check_3g-heaters :
    (fired present : Bool) (status : ModemStatus) (st : Station)
    → (check_3g fired present status st).0.heaters ≡ st.heaters
unfolding check_3g on_3g
check_3g-heaters fired present status st = ground arith

check_sms_daemon-heaters :
    (fired running : Bool) (st : Station)
    → (check_sms_daemon fired running st).0.heaters ≡ st.heaters
unfolding check_sms_daemon on_daemon
check_sms_daemon-heaters fired running st = ground arith

pub process-IsPlain :
    (r : Round) (st : Station) → PlainPeers r.ready → IsPlain st → IsPlain (process r st).0
unfolding process send_boot_msg cleanup_sms_files
process-IsPlain r st f p =
    let a : Station = (handle_connections r.ready st).0 in
    let b : Station = (parse_commands r.probe a).0 in
    let c : Station = (check_stale_connections r.stale_fired r.steady_now b).0 in
    let d : Station = (check_wifi r.wifi_fired r.wifi_flags c).0 in
    let e : Station = (check_lost_devices r.lost_fired r.time_now d).0 in
    let g : Station = (check_3g r.module_fired r.module_present r.modem_status e).0 in
    let p1 : IsPlain a = handle_connections-IsPlain r.ready st f p in
    let e1 : b.heaters ≡ a.heaters =
      unfold parse_commands in run_queue-heaters r.probe a.commands a in
    let e2 : d.heaters ≡ a.heaters =
      check_wifi-heaters r.wifi_fired r.wifi_flags c
      ∙ check_stale-heaters r.stale_fired r.steady_now b
      ∙ e1 in
    let p2 : IsPlain e =
      check_lost-IsPlain r.lost_fired r.time_now d (subst PlainHeaters (sym e2) p1) in
    let e3 : (check_sms_daemon r.daemon_fired r.daemon_running g).0.heaters ≡ e.heaters =
      check_sms_daemon-heaters r.daemon_fired r.daemon_running g
      ∙ check_3g-heaters r.module_fired r.module_present r.modem_status e in
    subst PlainHeaters (sym e3) p2
