-- ===== src/BaseStation/Checks/Fallback.antt =====
-- The counters of the checks over rounds that fail one after the other.
use iot_heater.Prelude.{
  ℕ, zero, suc, ◌+◌, ◌%◌, ◌^◌, ◌<◌, true, false, [], ◌∷◌, ◌++◌, ◌≡◌, refl, ap, ◌∙◌, arith, List,
  if◌then◌else◌, ltb, ◌==◌, append-nil,
}
use iot_heater.OrdMap.Laws.{find-map_values}
use iot_heater.OrdMap.Keys.{str_order}
use iot_heater.Text.{Bytes}
use iot_heater.Wire.{defrost}
use iot_heater.BaseStation.State.{Station, Effect, Outcome}
use iot_heater.BaseStation.Messages.{wanted_state}
use iot_heater.BaseStation.Modem.{ModemStatus}
use iot_heater.BaseStation.Checks.{
  on_wifi, on_3g, on_daemon, fall_back, sms_if_phone, wifi_lost_text, module_recovered_text,
  module_3g_error_threshold, daemon_error_threshold, wifi_error_threshold,
}

pub wanted_state-fall_back :
    (name : Bytes) (st : Station) → wanted_state name (fall_back st) ≡ defrost
unfolding wanted_state
wanted_state-fall_back [] st = refl
wanted_state-fall_back (c ∷ n) st =
    ground (arith, find-map_values (λ _. defrost) (c ∷ n) st.heater_state)

-- `n` checks that do not find the module, one after the other.
pub without_module : ModemStatus → ℕ → Station → Station
without_module status zero st = st
without_module status (suc n) st = (on_3g false status (without_module status n st)).0

without_module-counter :
    (status : ModemStatus) (n : ℕ) (st : Station)
    → st.module_error_counter ≡ 0
    → n < 2 ^ 32
    → (without_module status n st).module_error_counter ≡ n
unfolding without_module on_3g
without_module-counter status zero st z lt = z
without_module-counter status (suc n) st z lt =
    ground (arith, without_module-counter status n st z (omega arith))

-- One such check sets every heater to DEFROST, or none.
on_3g-wanted_state :
    (status : ModemStatus) (name : Bytes) (st : Station)
    → wanted_state name (on_3g false status st).0
      ≡ (if (st.module_error_counter + 1) % 2 ^ 32 == 6 then defrost else wanted_state name st)
unfolding on_3g wanted_state
on_3g-wanted_state status [] st = ground arith
on_3g-wanted_state status (c ∷ n) st =
    ground (arith, find-map_values (λ _. defrost) (c ∷ n) st.heater_state)

-- From a counter of zero, `n` checks in a row that miss the 3G module, `n` below 2 ^ 32, leave the
-- state wanted for each name as it was while `n` is below six, and DEFROST from six on.
pub module_fallback :
    (status : ModemStatus) (n : ℕ) (name : Bytes) (st : Station)
    → st.module_error_counter ≡ 0
    → n < 2 ^ 32
    → wanted_state name (without_module status n st)
      ≡ (if ltb n module_3g_error_threshold then wanted_state name st else defrost)
unfolding without_module
module_fallback status zero name st z lt = refl
module_fallback status (suc n) name st z lt = ground (
  arith,
  on_3g-wanted_state status name (without_module status n st),
  without_module-counter status n st z (omega arith),
  module_fallback status n name st z (omega arith),
)

-- `n` checks that do not find the daemon, one after the other.
pub without_daemon : ℕ → Station → Station
without_daemon zero st = st
without_daemon (suc n) st = (on_daemon false (without_daemon n st)).0

without_daemon-counter :
    (n : ℕ) (st : Station)
    → st.daemon_error_counter ≡ 0
    → n < 2 ^ 32
    → (without_daemon n st).daemon_error_counter ≡ n
unfolding without_daemon on_daemon
without_daemon-counter zero st z lt = z
without_daemon-counter (suc n) st z lt = ground (arith, without_daemon-counter n st z (omega arith))

on_daemon-wanted_state :
    (name : Bytes) (st : Station)
    → wanted_state name (on_daemon false st).0
      ≡ (if (st.daemon_error_counter + 1) % 2 ^ 32 == 6 then defrost else wanted_state name st)
unfolding on_daemon wanted_state
on_daemon-wanted_state [] st = ground arith
on_daemon-wanted_state (c ∷ n) st =
    ground (arith, find-map_values (λ _. defrost) (c ∷ n) st.heater_state)

-- From a counter of zero, `n` checks in a row that miss the daemon, `n` below 2 ^ 32, leave the
-- state wanted for each name as it was while `n` is below six, and DEFROST from six on.
pub daemon_fallback :
    (n : ℕ) (name : Bytes) (st : Station)
    → st.daemon_error_counter ≡ 0
    → n < 2 ^ 32
    → wanted_state name (without_daemon n st)
      ≡ (if ltb n daemon_error_threshold then wanted_state name st else defrost)
unfolding without_daemon
daemon_fallback zero name st z lt = refl
daemon_fallback (suc n) name st z lt = ground (
  arith,
  on_daemon-wanted_state name (without_daemon n st),
  without_daemon-counter n st z (omega arith),
  daemon_fallback n name st z (omega arith),
)

without_daemon-emergency :
    (n : ℕ) (st : Station) → (without_daemon n st).emergency_phone ≡ st.emergency_phone
unfolding without_daemon on_daemon
without_daemon-emergency zero st = refl
without_daemon-emergency (suc n) st = ground (arith, without_daemon-emergency n st)

-- After one to five checks that missed the daemon, from a counter of zero, every wanted state is as
-- before; the next check that finds it still tells the emergency number, if one is set, that all
-- heaters were set to DEFROST.
pub daemon_false_alarm :
    (n : ℕ) (name : Bytes) (st : Station)
    → st.daemon_error_counter ≡ 0
    → 0 < n
    → n < daemon_error_threshold
    → (wanted_state name (without_daemon n st) ≡ wanted_state name st)
      × ((on_daemon true (without_daemon n st)).1
          ≡ sms_if_phone st.emergency_phone module_recovered_text)
daemon_false_alarm n name st z pos few = (
  ground (arith, daemon_fallback n name st z),
  unfold on_daemon in ground (arith, without_daemon-counter n st z, without_daemon-emergency n st),
)

-- `n` checks with the interface down, one after the other, and their messages.
pub without_wifi : ℕ → Station → Outcome
without_wifi zero st = (st, [])
without_wifi (suc n) st =
    let (st', e) = without_wifi n st in let (st'', e') = on_wifi false st' in (st'', e ++ e')

without_wifi-state :
    (n : ℕ) (st : Station)
    → st.wifi_error_counter ≡ 0
    → n < 2 ^ 32
    → (without_wifi n st).0 ≡ record st { wifi_error_counter = n }
unfolding without_wifi on_wifi
without_wifi-state zero st z lt = λ i. record st { wifi_error_counter = z i }
without_wifi-state (suc n) st z lt =
    let e : (n + 1) % 2 ^ 32 ≡ suc n = omega arith in
    rw (without_wifi-state n st z (omega arith)) (λ i. record st { wifi_error_counter = e i })

-- The alarm goes off in the round that brings the counter to the threshold, and in no other.
alarm_once :
    (n : ℕ) (alarm : List Effect)
    → suc n < 2 ^ 32
    → (if ltb n 15 then [] else alarm) ++ (if (n + 1) % 2 ^ 32 == 15 then alarm else [])
      ≡ (if ltb (suc n) 15 then [] else alarm)
alarm_once n alarm lt = ground (arith, append-nil alarm)

on_wifi-effects :
    (n : ℕ) (st : Station)
    → (on_wifi false (record st { wifi_error_counter = n })).1 ≡ (
        if (n + 1) % 2 ^ 32 == wifi_error_threshold
        then sms_if_phone st.emergency_phone wifi_lost_text
        else [])
unfolding on_wifi
on_wifi-effects n st = refl

-- From a counter of zero, the messages of `n` checks in a row that find the interface down, `n`
-- below 2 ^ 32: none while `n` is below 15, and from then on the one alarm, if an emergency number
-- is set.
pub wifi_alarm :
    (n : ℕ) (st : Station)
    → st.wifi_error_counter ≡ 0
    → n < 2 ^ 32
    → (without_wifi n st).1
      ≡ (if ltb n wifi_error_threshold then [] else sms_if_phone st.emergency_phone wifi_lost_text)
unfolding without_wifi
wifi_alarm zero st z lt = refl
wifi_alarm (suc n) st z lt =
    let alarm : List Effect = sms_if_phone st.emergency_phone wifi_lost_text in
    ap (λ (st' : Station). (without_wifi n st).1 ++ (on_wifi false st').1)
      (without_wifi-state n st z (omega arith))
    ∙ ap (λ (e : List Effect). (without_wifi n st).1 ++ e) (on_wifi-effects n st)
    ∙ ap (λ (e : List Effect). e ++ (if (n + 1) % 2 ^ 32 == 15 then alarm else []))
        (wifi_alarm n st z (omega arith))
    ∙ alarm_once n alarm lt
