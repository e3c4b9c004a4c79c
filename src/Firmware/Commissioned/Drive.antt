-- ===== src/Firmware/Commissioned/Drive.antt =====
-- The output pins show the state of the heater, which is one of the four, at any time.
use iot_heater.Wire.{off, defrost, eco, state_byte}
use iot_heater.Prelude.{
  if◌then◌else◌, ◌||◌, ℕ, ◌≤◌, true, false, not, ◌&&◌, [], ◌≡◌, refl, arith, if_intro, leb, ◌==◌,
}
use iot_heater.Text.{Bytes}
use iot_heater.Firmware.Settings.{Platform, Settings, settings_check}
use iot_heater.Firmware.Commissioned.Device.{
  Device, ErrorQueue, cannot_connect_to_base_station, pin_levels, apply_heater_state, fail,
  record_error,
}
use iot_heater.Firmware.Commissioned.Talk.{
  Turn, Verdict, fails, wants, judge, receive_loop, talk, try_connect, conclude, request_state,
}
use iot_heater.Firmware.Commissioned.Loop.{
  Ending, running, restarting, elapsed, start, setup_commissioned, request_if_due, check_failures,
  serve_base_station, continue, loop_commissioned,
}

-- The levels of the two output pins: the positive one is up for OFF and ECO, the negative one for
-- DEFROST and ECO, and none for COMFORT.
abbrev pub positive_half : ℕ → ℕ
positive_half s = if s == state_byte off || s == state_byte eco then 1 else 0

abbrev pub negative_half : ℕ → ℕ
negative_half s = if s == state_byte defrost || s == state_byte eco then 1 else 0

-- The pins show the state, and the state is one of the four.
abbrev pub IsDriven : {Q : Type 0} → Device Q → Type 0
IsDriven d =
    (d.heater_state ≤ 3)
    × (d.positive ≡ positive_half d.heater_state)
    × (d.negative ≡ negative_half d.heater_state)

pin_levels-halves :
    (s : ℕ) → s ≤ 3 → ((pin_levels s).0 ≡ positive_half s) × ((pin_levels s).1 ≡ negative_half s)
unfolding pin_levels
pin_levels-halves s h = ground arith

judge-wants : (b : Bytes) (s : ℕ) → judge b ≡ wants s → s ≤ 3
unfolding judge
judge-wants b s e = ground arith

talk-wants : {Q : Type 0} (t : Turn) (d : Device Q) (s : ℕ) → (talk t d).1 ≡ wants s → s ≤ 3
unfolding talk
talk-wants t d s e = ground (arith, judge-wants (receive_loop t.reads []) s)

conclude-IsDriven :
    (eq : ErrorQueue) (t : Turn) (v : Verdict) (d : Device eq.Queue)
    → ((s : ℕ) → v ≡ wants s → s ≤ 3)
    → IsDriven d
    → IsDriven (conclude eq t v d)
unfolding conclude fail record_error apply_heater_state
conclude-IsDriven eq t (fails code) d k h = h
conclude-IsDriven eq t (wants s) d k h =
    if_intro IsDriven (d.heater_state == s) (λ _. h)
      (λ _.
        let (positive, negative) = pin_levels-halves s (k s refl) in (k s refl, positive, negative))

request_if_due-IsDriven :
    (p : Platform) (eq : ErrorQueue) (t : Turn) (d : Device eq.Queue)
    → IsDriven d
    → IsDriven (request_if_due p eq t d).0
unfolding request_if_due request_state
request_if_due-IsDriven p eq t d h =
    let called : Device eq.Queue = record d { request_event = false } in
    if_intro (λ (r : Device eq.Queue × Bytes). IsDriven r.0) (t.online && d.request_event)
      (λ _.
        if_intro (λ (r : Device eq.Queue × Bytes). IsDriven r.0) (try_connect 3 t.connects)
          (λ _. conclude-IsDriven eq t (talk t called).1 _ (talk-wants t called) h)
          (λ _.
            conclude-IsDriven eq t (fails cannot_connect_to_base_station) called
              (λ s e. absurd (cc)) h))
      (λ _. h)

check_failures-IsDriven :
    (p : Platform) (eq : ErrorQueue) (d : Device eq.Queue)
    → IsDriven d
    → IsDriven (check_failures p eq d)
unfolding check_failures apply_heater_state
check_failures-IsDriven p eq d h =
    if_intro IsDriven (d.failure_count == 15) (λ _. (omega arith, refl, refl)) (λ _. h)

-- A pass that goes on leaves the pins driven.
unfoldable pub EndsDriven : (p : Platform) (eq : ErrorQueue) → Ending p eq → Type 0
EndsDriven p eq (running d sent) = IsDriven d
EndsDriven p eq (restarting m) = Unit

continue-IsDriven :
    (p : Platform) (eq : ErrorQueue) (t : Turn) (d : Device eq.Queue)
    → IsDriven d
    → EndsDriven p eq (continue p eq t d)
unfolding continue serve_base_station EndsDriven
continue-IsDriven p eq t d h = check_failures-IsDriven p eq _ (request_if_due-IsDriven p eq t d h)

-- `setup_commissioned` ends in a restart, or with the pins at the levels of one of the four states.
pub setup-IsDriven :
    (p : Platform) (eq : ErrorQueue) (random : ℕ) (s : Settings) (m : p.Memory)
    → EndsDriven p eq (setup_commissioned p eq random s m)
unfolding setup_commissioned start apply_heater_state EndsDriven
setup-IsDriven p eq random s m =
    if_intro (EndsDriven p eq) (settings_check s) (λ _. (omega arith, refl, refl)) (λ _. tt)

-- If the heater is in one of the four states, with the positive pin up for OFF and ECO and the
-- negative one for DEFROST and ECO only, a pass of `loop_commissioned` ends in a restart or with pins
-- and state in that relation again, whatever the network gives.
pub loop-IsDriven :
    (p : Platform) (eq : ErrorQueue) (t : Turn) (d : Device eq.Queue) (m : p.Memory)
    → IsDriven d
    → EndsDriven p eq (loop_commissioned p eq t d m)
unfolding loop_commissioned EndsDriven
loop-IsDriven p eq t d m h =
    let held : Device eq.Queue = record d { button_pressed = true; button_pressed_start = t.now } in
    let up : Device eq.Queue = record d { button_pressed = false } in
    if_intro (EndsDriven p eq) (t.button == 0)
      (λ _.
        if_intro (EndsDriven p eq) (not d.button_pressed) (λ _. continue-IsDriven p eq t held h)
          (λ _.
            if_intro (EndsDriven p eq) (leb 10_000 (elapsed t.now d.button_pressed_start)) (λ _. tt)
              (λ _. continue-IsDriven p eq t d h)))
      (λ _. continue-IsDriven p eq t up h)
