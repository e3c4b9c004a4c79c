-- ===== src/BaseStation/Process/Frame.antt =====
-- What the methods of a round leave alone.
use iot_heater.Prelude.{
  ℕ, Bool, List, [], ◌∷◌, Option, ◌≡◌, refl, ◌∙◌, arith, if_intro, ◌==◌, if◌then◌else◌,
  Option-cases, inl, inr, not, drop,
}
use iot_heater.Text.{Bytes}
use iot_heater.Wire.{Header, parse_header, req_heater_state}
use iot_heater.BaseStation.State.{Station, Outcome, DeviceConnection}
use iot_heater.BaseStation.Messages.{
  Arrival, parse_message, on_header, answer_request, send_heater_state, scan_name,
}
use iot_heater.BaseStation.Commands.Classify.{Command, classify, normalise}
use iot_heater.BaseStation.Commands.Execute.{Probes, rest_of, Probe, execute}
use iot_heater.BaseStation.Commands.Queue.{run_queue, obey, is_refused}
use iot_heater.BaseStation.Connections.{
  ReadOutcome, complete, failed, closed, blocked, Ready, serve, serve_all, has_fd, read_loop,
  handle_connections, check_stale_connections,
}
use iot_heater.BaseStation.Checks.{check_wifi, on_wifi, check_lost_devices}

-- The members that the two fallbacks and the messages of users stand on.
abbrev pub Keeps : Station → Station → Type 0
Keeps st st' =
    (st'.heater_state ≡ st.heater_state)
    × (st'.heater_default_state ≡ st.heater_default_state)
    × (st'.commands ≡ st.commands)
    × (st'.module_error_counter ≡ st.module_error_counter)
    × (st'.daemon_error_counter ≡ st.daemon_error_counter)

Keeps-refl : (st : Station) → Keeps st st
Keeps-refl st = (refl, refl, refl, refl, refl)

pub Keeps-trans : (a b c : Station) → Keeps a b → Keeps b c → Keeps a c
Keeps-trans a b c p q = (q.0 ∙ p.0, q.1 ∙ p.1, q.2 ∙ p.2, q.3 ∙ p.3, q.4 ∙ p.4)

on_header-Keeps :
    (a : Arrival) (fd : ℕ) (h : Header) (payload : Bytes) (st : Station)
    → Keeps st (on_header a fd h payload st).0
unfolding on_header answer_request send_heater_state
on_header-Keeps a fd h payload st =
    let P = λ (o : Outcome). Keeps st o.0 in
    if_intro P (not (h.version == 1)) (λ _. Keeps-refl st)
      (λ _.
        if_intro P (h.msg_type == req_heater_state)
          (λ _. elim (Option-cases (scan_name payload)) [
            | inl e ↦ rw (e, on_header) (Keeps-refl st)
            | inr (name, e) ↦ rw (e, on_header) (refl, refl, refl, refl, refl)
          ])
          (λ _. Keeps-refl st))

serve-Keeps : (r : Ready) (o : ReadOutcome) (st : Station) → Keeps st (serve r o st).0
unfolding serve parse_message
serve-Keeps r (complete message) st =
    on_header-Keeps r.arrival r.fd (parse_header message) (drop 16 message) st
serve-Keeps r failed st = Keeps-refl st
serve-Keeps r closed st = (refl, refl, refl, refl, refl)
serve-Keeps r blocked st = Keeps-refl st

serve_all-Keeps : (rs : List Ready) (st : Station) → Keeps st (serve_all rs st).0
unfolding serve_all
serve_all-Keeps [] st = Keeps-refl st
serve_all-Keeps (r ∷ rs) st =
    let found = serve r (read_loop r.reads []) st in
    let next : Station = (if has_fd r.fd st.connections then found else (st, [])).0 in
    let first : Keeps st next =
      if_intro (λ (o : Outcome). Keeps st o.0) (has_fd r.fd st.connections)
        (λ _. serve-Keeps r (read_loop r.reads []) st) (λ _. Keeps-refl st) in
    Keeps-trans st next (serve_all rs next).0 first (serve_all-Keeps rs next)

pub handle_connections-Keeps :
    (rs : List Ready) (st : Station) → Keeps st (handle_connections rs st).0
unfolding handle_connections
handle_connections-Keeps rs st = go st.connections
  where
    go :
        (cs : List DeviceConnection)
        → Keeps st (elim cs as (λ _. Outcome) [ [] ↦ (st, []) | c ∷ cs ↦ serve_all rs st ]).0
    go [] = Keeps-refl st
    go (c ∷ cs) = serve_all-Keeps rs st

pub check_stale-Keeps :
    (fired : Bool) (now : ℕ) (st : Station) → Keeps st (check_stale_connections fired now st).0
unfolding check_stale_connections
check_stale-Keeps fired now st = ground arith

pub check_wifi-Keeps :
    (fired : Bool) (flags : Option Bool) (st : Station) → Keeps st (check_wifi fired flags st).0
unfolding check_wifi on_wifi
check_wifi-Keeps fired flags st = ground arith

pub check_lost-Keeps :
    (fired : Bool) (now : ℕ) (st : Station) → Keeps st (check_lost_devices fired now st).0
unfolding check_lost_devices
check_lost-Keeps fired now st = ground arith

-- Messages leave the two counters alone.
abbrev pub SameCounters : Station → Station → Type 0
SameCounters st st' =
    (st'.module_error_counter ≡ st.module_error_counter)
    × (st'.daemon_error_counter ≡ st.daemon_error_counter)

execute-SameCounters :
    (p : Probe) (from : Bytes) (c : Command) (st : Station)
    → SameCounters st (execute p from c st).0
unfolding execute
execute-SameCounters p from c st = ground arith

pub run_queue-SameCounters :
    (p : Probes) (q : List (Bytes × Bytes)) (st : Station) → SameCounters st (run_queue p q st).0
unfolding run_queue
run_queue-SameCounters p [] st = (refl, refl)
run_queue-SameCounters p ((from, content) ∷ q) st =
    let done : Station = (obey (p 0) from content st).0 in
    let first : SameCounters st done =
      unfold obey in execute-SameCounters (p 0) from (classify (normalise content)) st in
    let rest = run_queue-SameCounters (rest_of p) q done in
    if_intro (λ (o : Outcome). SameCounters st o.0) (is_refused from st) (λ _. (refl, refl))
      (λ _. (rest.0 ∙ first.0, rest.1 ∙ first.1))
