-- ===== src/Services/Timing.antt =====
-- `Timer` of base_station/src/timer.cpp and `wait_ms` of main.cpp.
use iot_heater.Prelude.{
  ℕ, zero, suc, ◌+◌, ◌-◌, ◌*◌, ◌/◌, ◌<◌, Bool, true, false, Option, none, some, ◌≡◌, refl, arith,
  if◌then◌else◌, Option-cases, inl, inr, ◌∙◌, ◌≢◌, List, [], ◌∷◌,
}

-- `struct itimerspec`.
pub record Spec : Type 0 where
  pub value_sec : ℕ
  pub value_nsec : ℕ
  pub interval_sec : ℕ
  pub interval_nsec : ℕ

-- The descriptor, and what the timer was last set to.
pub record Timer : Type 0 where
  pub fd : Option ℕ
  pub setting : Option Spec

-- The constructor.
unfoldable pub created : Timer
created = record { fd = none; setting = none }

unfoldable pub spec_of : ℕ → Bool → Spec
spec_of period_ms periodic =
    let sec = period_ms / 1000 in
    let nsec = (period_ms - sec * 1000) * 1000 * 1000 in
    record {
      value_sec = sec;
      value_nsec = nsec;
      interval_sec = if periodic then sec else 0;
      interval_nsec = if periodic then nsec else 0;
    }

-- `start`; the first argument is what `timerfd_create` gives, and `none` a thrown exception.
unfoldable pub start : Option ℕ → ℕ → Bool → Timer → Option Timer
unfolding spec_of
start new_fd period_ms periodic t =
    let setting = some (spec_of period_ms periodic) in
    elim t.fd [
      | some fd ↦ some (record { fd = some fd; setting = setting })
      | none ↦ elim new_fd [
        | none ↦ none
        | some fd ↦ some (record { fd = some fd; setting = setting })
      ]
    ]

abbrev pub disarmed : Spec
disarmed = record { value_sec = 0; value_nsec = 0; interval_sec = 0; interval_nsec = 0 }

unfoldable pub stop : Timer → Timer
stop t = elim t.fd [ none ↦ t | some fd ↦ record t { setting = some disarmed } ]

-- `getFD`.
unfoldable pub get_fd : Timer → Option ℕ
get_fd t = t.fd

-- The time in nanoseconds that a `timespec` stands for.
abbrev pub nanoseconds : ℕ → ℕ → ℕ
nanoseconds sec nsec = sec * 1_000_000_000 + nsec

-- The request of `wait_ms`.
unfoldable pub wait_request : ℕ → ℕ
wait_request ms = let sec = ms / 1000 in nanoseconds sec ((ms - sec * 1000) * 1000 * 1000)

-- `while (nanosleep(&req, &rem)) req = rem;`, on fuel, with what each call sleeps, in order. The
-- argument `interrupt` gives, for the number of the call and the time asked for, the time that
-- remains, or nothing for a call that is not interrupted.
unfoldable pub sleep_loop : ℕ → (ℕ → ℕ → Option ℕ) → ℕ → ℕ → Option (List ℕ)
sleep_loop zero interrupt call req = none
sleep_loop (suc fuel) interrupt call req = elim (interrupt call req) [
  | none ↦ some (req ∷ [])
  | some rem ↦ elim (sleep_loop fuel interrupt (suc call) rem) [
    | none ↦ none
    | some slept ↦ some ((req - rem) ∷ slept)
  ]
]

-- `wait_ms`: the time it sleeps, in nanoseconds, call by call. Each interruption takes a nanosecond
-- at least, so the time asked for is enough fuel.
unfoldable pub wait_ms : (ℕ → ℕ → Option ℕ) → ℕ → Option (List ℕ)
unfolding sleep_loop wait_request
wait_ms interrupt ms = sleep_loop (suc (wait_request ms)) interrupt 0 (wait_request ms)

period_exact :
    (period_ms : ℕ) (periodic : Bool)
    → let s = spec_of period_ms periodic in
      (nanoseconds s.value_sec s.value_nsec ≡ period_ms * 1_000_000)
      × (s.value_nsec < 1_000_000_000)
      × (nanoseconds s.interval_sec s.interval_nsec
          ≡ (if periodic then period_ms * 1_000_000 else 0))
      × (s.interval_nsec < 1_000_000_000)
unfolding spec_of
period_exact period_ms true = omega arith
period_exact period_ms false = omega arith

start-setting :
    (new_fd : Option ℕ) (period_ms : ℕ) (periodic : Bool) (t t' : Timer)
    → start new_fd period_ms periodic t ≡ some t'
    → (t'.setting ≡ some (spec_of period_ms periodic)) × (t'.fd ≢ none)
unfolding start
start-setting new_fd period_ms periodic t t' e = ground arith

-- A timer that `start` returns is set to expire after exactly the period in milliseconds, and again
-- after each such period if it is periodic, else never; the nanoseconds stay below a second, as
-- `timerfd_settime` demands.
pub timer_period :
    (new_fd : Option ℕ) (period_ms : ℕ) (periodic : Bool) (t t' : Timer)
    → start new_fd period_ms periodic t ≡ some t'
    → (s : Spec) × (t'.setting ≡ some s)
      × (nanoseconds s.value_sec s.value_nsec ≡ period_ms * 1_000_000)
      × (s.value_nsec < 1_000_000_000)
      × (nanoseconds s.interval_sec s.interval_nsec
          ≡ (if periodic then period_ms * 1_000_000 else 0))
      × (s.interval_nsec < 1_000_000_000)
timer_period new_fd period_ms periodic t t' e =
    let exact = period_exact period_ms periodic in
    (
      spec_of period_ms periodic,
      (start-setting new_fd period_ms periodic t t' e).0,
      exact.0,
      exact.1,
      exact.2,
      exact.3,
    )

abbrev pub total : List ℕ → ℕ
total [] = 0
total (x ∷ xs) = x + total xs

-- What a call of `nanosleep` leaves is less than what it was asked for.
abbrev pub Progresses : (ℕ → ℕ → Option ℕ) → Type 0
Progresses interrupt = (call req rem : ℕ) → interrupt call req ≡ some rem → rem < req

sleep_loop-total :
    (fuel : ℕ) (interrupt : ℕ → ℕ → Option ℕ) (call req : ℕ)
    → Progresses interrupt
    → req < fuel
    → (slept : List ℕ) × (sleep_loop fuel interrupt call req ≡ some slept) × (total slept ≡ req)
unfolding sleep_loop
sleep_loop-total zero interrupt call req p h = elim h [ ]
sleep_loop-total (suc fuel) interrupt call req p h = elim (Option-cases (interrupt call req)) [
  | inl e ↦ (req ∷ [], rw (e, sleep_loop) refl, omega arith)
  | inr (rem, e) ↦
      let less = p call req rem e in
      let (slept, done, sum) =
        sleep_loop-total fuel interrupt (suc call) rem p (omega (arith, less)) in
      (
        (req - rem) ∷ slept,
        rw (e, sleep_loop) (rw (done, sleep_loop) refl),
        omega (arith, less, sum),
      )
]

-- If each interrupted `nanosleep` leaves less than it was asked for, `wait_ms` ends, after as many
-- calls as it takes, and has slept the time asked for in all.
pub wait_ms-ends :
    (interrupt : ℕ → ℕ → Option ℕ) (ms : ℕ)
    → Progresses interrupt
    → (slept : List ℕ) × (wait_ms interrupt ms ≡ some slept) × (total slept ≡ ms * 1_000_000)
unfolding wait_ms wait_request
wait_ms-ends interrupt ms p =
    let (slept, done, sum) =
      sleep_loop-total (suc (wait_request ms)) interrupt 0 (wait_request ms) p (omega arith) in
    (slept, done, sum ∙ omega arith)
