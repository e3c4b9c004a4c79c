-- ===== src/BaseStation/Connections/Balance.antt =====
-- The descriptors that are listed and those that are closed.
use iot_heater.Prelude.{
  ℕ, ◌+◌, Bool, true, List, [], ◌∷◌, ◌++◌, ◌≡◌, refl, arith, if_intro, ◌==◌, if◌then◌else◌, map,
  Option-cases, Bool-cases, inl, inr, not, drop,
}
use iot_heater.Text.{Bytes}
use iot_heater.Wire.{Header, parse_header, req_heater_state}
use iot_heater.BaseStation.State.{
  Station, DeviceConnection, Effect, send_sms, save_file, write_fd, close_fd, cleanup_sms, reboot,
  out_of_bounds, stall, Outcome,
}
use iot_heater.BaseStation.Messages.{
  Arrival, touch, answer_request, send_heater_state, scan_name, on_header, checked_name,
  parse_message,
}
use iot_heater.BaseStation.Connections.{
  ReadOutcome, complete, failed, closed, blocked, Ready, read_loop, has_fd, remove_fd, serve,
  serve_all, handle_connections, drop_stale, is_stale, check_stale_connections, destroy,
}

-- How often a descriptor is listed.
abbrev pub listed : ℕ → List DeviceConnection → ℕ
listed fd [] = 0
listed fd (c ∷ cs) = (if c.fd == fd then 1 else 0) + listed fd cs

-- How often it is closed.
abbrev pub closes : ℕ → List Effect → ℕ
closes fd [] = 0
closes fd (close_fd k ∷ e) = (if k == fd then 1 else 0) + closes fd e
closes fd (send_sms to text ∷ e) = closes fd e
closes fd (save_file text ∷ e) = closes fd e
closes fd (write_fd k b ∷ e) = closes fd e
closes fd (cleanup_sms ∷ e) = closes fd e
closes fd (reboot ∷ e) = closes fd e
closes fd (out_of_bounds ∷ e) = closes fd e
closes fd (stall ∷ e) = closes fd e

pub closes-append : (fd : ℕ) (a b : List Effect) → closes fd (a ++ b) ≡ closes fd a + closes fd b
closes-append fd [] b = omega arith
closes-append fd (close_fd k ∷ a) b = omega (arith, closes-append fd a b)
closes-append fd (send_sms to text ∷ a) b = closes-append fd a b
closes-append fd (save_file text ∷ a) b = closes-append fd a b
closes-append fd (write_fd k c ∷ a) b = closes-append fd a b
closes-append fd (cleanup_sms ∷ a) b = closes-append fd a b
closes-append fd (reboot ∷ a) b = closes-append fd a b
closes-append fd (out_of_bounds ∷ a) b = closes-append fd a b
closes-append fd (stall ∷ a) b = closes-append fd a b

-- What is closed and what is listed after is what was listed before.
abbrev pub Balanced : ℕ → Station → Outcome → Type 0
Balanced fd st o = closes fd o.1 + listed fd o.0.connections ≡ listed fd st.connections

-- One step behind another.
pub Balanced-then :
    (fd : ℕ) (st : Station) (o o' : Outcome)
    → Balanced fd st o
    → Balanced fd o.0 o'
    → Balanced fd st (o'.0, o.1 ++ o'.1)
Balanced-then fd st o o' h h' = omega (arith, h, h', closes-append fd o.1 o'.1)

listed-touch :
    (fd k now : ℕ) (cs : List DeviceConnection) → listed fd (touch k now cs) ≡ listed fd cs
unfolding touch
listed-touch fd k now [] = refl
listed-touch fd k now (c ∷ cs) = ground (arith, listed-touch fd k now cs)

listed-remove_fd :
    (fd k : ℕ) (cs : List DeviceConnection)
    → has_fd k cs ≡ true
    → (if k == fd then 1 else 0) + listed fd (remove_fd k cs) ≡ listed fd cs
unfolding has_fd remove_fd
listed-remove_fd fd k [] h = cc
listed-remove_fd fd k (c ∷ cs) h = ground (arith, listed-remove_fd fd k cs)

drop_stale-listed :
    (fd now : ℕ) (cs : List DeviceConnection)
    → closes fd (drop_stale now cs).1 + listed fd (drop_stale now cs).0 ≡ listed fd cs
unfolding drop_stale
drop_stale-listed fd now [] = refl
drop_stale-listed fd now (c ∷ cs) =
    if_intro
      (λ (r : List DeviceConnection × List Effect).
        closes fd r.1 + listed fd r.0 ≡ listed fd (c ∷ cs))
      (is_stale now c) (λ _. omega (arith, drop_stale-listed fd now cs))
      (λ _. omega (arith, drop_stale-listed fd now cs))

pub check_stale-Balanced :
    (fd : ℕ) (fired : Bool) (now : ℕ) (st : Station)
    → Balanced fd st (check_stale_connections fired now st)
unfolding check_stale_connections
check_stale-Balanced fd fired now st =
    if_intro (Balanced fd st) fired (λ _. drop_stale-listed fd now st.connections)
      (λ _. omega arith)

-- At the end all that was listed is closed.
pub destroy-listed : (fd : ℕ) (st : Station) → closes fd (destroy st) ≡ listed fd st.connections
unfolding destroy
destroy-listed fd st = go st.connections
  where
    go :
        (cs : List DeviceConnection)
        → closes fd (map (λ (c : DeviceConnection). close_fd c.fd) cs) ≡ listed fd cs
    go [] = refl
    go (c ∷ cs) = omega (arith, go cs)

answer_request-Balanced :
    (fd : ℕ) (a : Arrival) (k : ℕ) (h : Header) (name : Bytes) (st : Station)
    → Balanced fd st (answer_request a k h name st)
unfolding answer_request send_heater_state
answer_request-Balanced fd a k h name st =
    ground (arith, listed-touch fd k a.steady_now st.connections)

on_header-Balanced :
    (fd : ℕ) (a : Arrival) (k : ℕ) (h : Header) (payload : Bytes) (st : Station)
    → Balanced fd st (on_header a k h payload st)
unfolding on_header
on_header-Balanced fd a k h payload st =
    let idle : Balanced fd st (st, []) = omega arith in
    if_intro (Balanced fd st) (not (h.version == 1)) (λ _. idle)
      (λ _.
        if_intro (Balanced fd st) (h.msg_type == req_heater_state)
          (λ _. elim (Option-cases (scan_name payload)) [
            | inl e ↦ rw (e, on_header) idle
            | inr (name, e) ↦
                rw (e, on_header) (answer_request-Balanced fd a k h (checked_name name) st)
          ])
          (λ _. idle))

-- A descriptor that is served is one that is listed.
serve-Balanced :
    (fd : ℕ) (r : Ready) (o : ReadOutcome) (st : Station)
    → has_fd r.fd st.connections ≡ true
    → Balanced fd st (serve r o st)
unfolding serve parse_message
serve-Balanced fd r (complete message) st h =
    on_header-Balanced fd r.arrival r.fd (parse_header message) (drop 16 message) st
serve-Balanced fd r failed st h = omega arith
serve-Balanced fd r closed st h = omega (arith, listed-remove_fd fd r.fd st.connections h)
serve-Balanced fd r blocked st h = omega arith

serve_all-Balanced : (fd : ℕ) (rs : List Ready) (st : Station) → Balanced fd st (serve_all rs st)
unfolding serve_all
serve_all-Balanced fd [] st = omega arith
serve_all-Balanced fd (r ∷ rs) st =
    let found = serve r (read_loop r.reads []) st in
    let next : Outcome = if has_fd r.fd st.connections then found else (st, []) in
    let first : Balanced fd st next = elim (Bool-cases (has_fd r.fd st.connections)) [
      | inl e ↦ rw e (serve-Balanced fd r (read_loop r.reads []) st e)
      | inr e ↦ rw e (omega arith)
    ] in
    Balanced-then fd st next (serve_all rs next.0) first (serve_all-Balanced fd rs next.0)

pub handle_connections-Balanced :
    (fd : ℕ) (rs : List Ready) (st : Station) → Balanced fd st (handle_connections rs st)
unfolding handle_connections
handle_connections-Balanced fd rs st = go st.connections
  where
    go :
        (cs : List DeviceConnection)
        → Balanced fd st (elim cs as (λ _. Outcome) [ [] ↦ (st, []) | c ∷ cs ↦ serve_all rs st ])
    go [] = omega arith
    go (c ∷ cs) = serve_all-Balanced fd rs st
