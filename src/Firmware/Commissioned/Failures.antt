-- ===== src/Firmware/Commissioned/Failures.antt =====
-- Requests that fail one after the other.
use iot_heater.Prelude.{
  suc, ◌+◌, ◌^◌, ◌%◌, ◌<◌, true, false, Bool, not, ◌⊎◌, List, [], ◌∷◌, ◌≡◌, refl, ap, ◌∙◌, arith,
  All, length, ltb, ◌==◌, if◌then◌else◌, Bool-cases, inl, inr,
}
use iot_heater.Firmware.Settings.{Platform}
use iot_heater.Firmware.Commissioned.Device.{
  Device, ErrorCode, cannot_connect_to_base_station, reply_timeout, request_write_failure,
  ErrorQueue, fail, record_error, send_heater_state_req_callback, apply_heater_state,
}
use iot_heater.Firmware.Commissioned.Talk.{
  Turn, fails, send_loop, request_message, talk, judge, receive_loop, try_connect, conclude,
  request_state,
}
use iot_heater.Firmware.Commissioned.Loop.{
  default_heater_state, request_state_failure_threshold, request_if_due, check_failures,
  serve_base_station,
}

-- A pass that is online and gets no state: no attempt connects, or the reply is late, or what is
-- read is no good reply.
pub record IsSilent (t : Turn) : Type 0 where
  pub online : t.online ≡ true
  pub no_answer :
      (try_connect 3 t.connects ≡ false)
      ⊎ ((t.in_time ≡ false)
          ⊎ ((code : ErrorCode) × (judge (receive_loop t.reads []) ≡ fails code)))

-- A talk with a late or bad reply ends with an error, whether the request was sent whole or not.
talk-fails :
    {Q : Type 0} (t : Turn) (d : Device Q)
    → (t.in_time ≡ false) ⊎ ((code : ErrorCode) × (judge (receive_loop t.reads []) ≡ fails code))
    → (code : ErrorCode) × ((talk t d).1 ≡ fails code)
unfolding talk
talk-fails t d bad = elim (Bool-cases (send_loop (request_message t d) t.writes).1) [
  | inr cut ↦ (request_write_failure, rw cut refl)
  | inl whole ↦ elim (Bool-cases t.in_time) [
    | inr late ↦ (reply_timeout, rw (whole, late) refl)
    | inl early ↦ elim bad [
      | inl late ↦ absurd (ground arith)
      | inr b ↦ (
        b.0,
        ap
              (λ (w : Bool).
                if not w
                then fails request_write_failure
                else if not t.in_time
                then fails reply_timeout
                else judge (receive_loop t.reads []))
              whole
            ∙ ap
                (λ (w : Bool).
                  if not w then fails reply_timeout else judge (receive_loop t.reads []))
                early
            ∙ b.1,
      )
    ]
  ]
]

module _ (p : Platform) (eq : ErrorQueue) where
  -- Passes one after the other, each after the ticker has asked for a request.
  unfoldable pub passes : List Turn → Device eq.Queue → Device eq.Queue
  unfolding serve_base_station send_heater_state_req_callback
  passes [] d = d
  passes (t ∷ ts) d = passes ts (serve_base_station p eq t (send_heater_state_req_callback d)).0

  -- What a failure leaves of the controller, and what it counts.
  abbrev HasFailed : Device eq.Queue → Device eq.Queue → Type 0
  HasFailed d d' =
      (d'.heater_state ≡ d.heater_state) × (d'.failure_count ≡ (d.failure_count + 1) % 2 ^ 32)

  conclude-fails :
      (t : Turn) (code : ErrorCode) (d : Device eq.Queue)
      → HasFailed d (conclude eq t (fails code) d)
  unfolding conclude fail record_error
  conclude-fails t code d = (refl, refl)

  request-fails :
      (t : Turn) (d : Device eq.Queue) → IsSilent t → HasFailed d (request_state eq t d).0
  unfolding request_state
  request-fails t d s = elim (Bool-cases (try_connect 3 t.connects)) [
    | inl up ↦
        let (code, e) = talk-fails t d (answered up s.no_answer) in
        let counted : Device eq.Queue = record d { msg_counter = (d.msg_counter + 1) % 2 ^ 64 } in
        rw (up, e) (conclude-fails t code counted)
    | inr down ↦ rw down (conclude-fails t cannot_connect_to_base_station d)
  ]
    where
      answered : {b : Bool} {A : Type 0} → b ≡ true → (b ≡ false) ⊎ A → A
      answered up (inl down) = absurd (ground arith)
      answered up (inr a) = a

  -- A silent pass counts, and falls back when the count reaches the threshold.
  silent-pass :
      (t : Turn) (d : Device eq.Queue)
      → IsSilent t
      → let d' = (serve_base_station p eq t (send_heater_state_req_callback d)).0 in
        (d'.failure_count ≡ (d.failure_count + 1) % 2 ^ 32)
        × (d'.heater_state ≡ (
            if (d.failure_count + 1) % 2 ^ 32 == 15 then default_heater_state else d.heater_state))
  unfolding serve_base_station request_if_due check_failures send_heater_state_req_callback
      apply_heater_state
  silent-pass t d s =
      let called : Device eq.Queue = record d { request_event = false } in
      let (state, counted) = request-fails t called s in
      rw s.online (ground (arith, state, counted))

  -- Once in the default state, silence leaves the heater there.
  silence_stays :
      (ts : List Turn) (d : Device eq.Queue)
      → All IsSilent ts
      → d.heater_state ≡ default_heater_state
      → (passes ts d).heater_state ≡ default_heater_state
  unfolding passes
  silence_stays [] d s e = e
  silence_stays (t ∷ ts) d s e = silence_stays ts _ s.1 (ground (arith, (silent-pass t d s.0).1))

  -- A controller with fewer than 15 failures in a row keeps its state while its next requests get no
  -- connection, a late reply, or a reply that is cut short, of another version or type or with an
  -- unknown state, until the failures are 15, and has gone to DEFROST from then on. The count stays
  -- below 2 ^ 32.
  pub silence :
      (ts : List Turn) (d : Device eq.Queue)
      → All IsSilent ts
      → d.failure_count + length ts < 2 ^ 32
      → d.failure_count < 15
      → (passes ts d).heater_state ≡ (
          if ltb (d.failure_count + length ts) request_state_failure_threshold
          then d.heater_state
          else default_heater_state)
  unfolding passes
  silence [] d s small few = ground arith
  silence (t ∷ ts) d s small few =
      let d' : Device eq.Queue = (serve_base_station p eq t (send_heater_state_req_callback d)).0 in
      let (counted, state) = silent-pass t d s.0 in
      let counted' : d'.failure_count ≡ suc d.failure_count = counted ∙ omega arith in
      elim (Bool-cases (ltb (suc d.failure_count) 15)) [
        | inl more ↦
            let kept : d'.heater_state ≡ d.heater_state = state ∙ ground arith in
            let total : d'.failure_count + length ts ≡ d.failure_count + suc (length ts) =
              omega arith in
            let rest = silence ts d' s.1 (omega (arith, total)) (ground (arith, counted', more)) in
            rest ∙ (λ i.
              if ltb (total i) request_state_failure_threshold
              then kept i
              else default_heater_state)
        | inr last ↦
            let fallen : d'.heater_state ≡ default_heater_state = state ∙ ground arith in
            silence_stays ts d' s.1 fallen ∙ ground arith
      ]
