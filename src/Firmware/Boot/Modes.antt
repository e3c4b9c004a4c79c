-- ===== src/Firmware/Boot/Modes.antt =====
-- Which mode a controller starts in after it was commissioned, and after a factory reset.
use iot_heater.Prelude.{
  ℕ, ◌≤◌, Bool, true, false, [], ◌≡◌, ◌≢◌, refl, ap, ◌∙◌, arith, ◌==◌, leb, if◌then◌else◌,
}
use iot_heater.Firmware.Settings.{
  Platform, Settings, settings_load, settings_check, settings_get_name, settings_erase, c_str,
}
use iot_heater.Firmware.Settings.Storage.{settings_load-erase}
use iot_heater.Firmware.Uncommissioned
use iot_heater.Firmware.Uncommissioned.{check_params, Setup, Pass, loop_uncommissioned}
use iot_heater.Firmware.Uncommissioned.Commissioning.{IsCStr, commissioning}
use iot_heater.Firmware.Commissioned.Device.{Device, ErrorQueue}
use iot_heater.Firmware.Commissioned.Talk.{Turn}
use iot_heater.Firmware.Commissioned.Loop.{
  running, restarting, elapsed, start, setup_commissioned, loop_commissioned,
}
use iot_heater.Firmware.Boot.{uncommissioned, commissioned, enter, setup}

enter-valid :
    (p : Platform) (eq : ErrorQueue) (random : ℕ) (s : Settings) (valid : Bool) (m : p.Memory)
    → valid ≡ true
    → settings_check s ≡ true
    → enter p eq random s valid m ≡ commissioned (running (start p eq random s) [])
unfolding enter setup_commissioned
enter-valid p eq random s valid m v ok =
    ap
      (λ (b : Bool).
        if b then commissioned (setup_commissioned p eq random s m) else uncommissioned m)
      v
    ∙ ap
        (λ (b : Bool).
          commissioned
            (if b then running (start p eq random s) [] else restarting (settings_erase p m).1))
        ok

enter-invalid :
    (p : Platform) (eq : ErrorQueue) (random : ℕ) (s : Settings) (valid : Bool) (m : p.Memory)
    → valid ≡ false
    → enter p eq random s valid m ≡ uncommissioned m
unfolding enter
enter-invalid p eq random s valid m v =
    ap
      (λ (b : Bool).
        if b then commissioned (setup_commissioned p eq random s m) else uncommissioned m)
      v

-- A controller that is joining a network with parameters that pass `check_params`, none of them
-- with a zero byte, and has joined it with the button up, restarts; `setup` then enters the control
-- loop, with settings that pass `settings_check` and hold its name.
pub setup-commissioning :
    (p : Platform) (eq : ErrorQueue) (random : ℕ) (i : Pass) (s : Setup) (m : p.Memory)
    → s.joining ≡ true
    → i.joined ≡ true
    → i.button ≢ 0
    → check_params s.params ≡ true
    → IsCStr s.params.wifi_ssid
    → IsCStr s.params.wifi_password
    → IsCStr s.params.basestation_addr
    → (m' : p.Memory) × (loop_uncommissioned p i s m ≡ Uncommissioned.restarting m')
      × (d : Device eq.Queue) × (setup p eq random (p.restart m') ≡ commissioned (running d []))
      × (c_str (settings_get_name d.settings) ≡ s.params.device_name)
unfolding setup start
setup-commissioning p eq random i s m joining joined up ok w k b =
    let (m', e, valid, checked, named) = commissioning p i s m joining joined up ok w k b in
    let found = settings_load p (p.restart m') in
    (m', e, _, enter-valid p eq random found.0 found.1 found.2 valid checked, named)

held_resets :
    (p : Platform) (eq : ErrorQueue) (t : Turn) (d : Device eq.Queue) (m : p.Memory)
    → t.button ≡ 0
    → d.button_pressed ≡ true
    → 10_000 ≤ elapsed t.now d.button_pressed_start
    → loop_commissioned p eq t d m ≡ restarting (settings_erase p m).1
unfolding loop_commissioned
held_resets p eq t d m down held long =
    let pressed : (t.button == 0) ≡ true = ground arith in
    let enough : leb 10_000 (elapsed t.now d.button_pressed_start) ≡ true = ground arith in
    rw (pressed, held, enough) refl

-- A controller whose button has been down for ten seconds restarts, and `setup` then waits for the
-- web form again.
pub setup-reset :
    (p : Platform) (eq : ErrorQueue) (random : ℕ) (t : Turn) (d : Device eq.Queue) (m : p.Memory)
    → t.button ≡ 0
    → d.button_pressed ≡ true
    → 10_000 ≤ elapsed t.now d.button_pressed_start
    → (m' : p.Memory) × (loop_commissioned p eq t d m ≡ restarting m')
      × (m'' : p.Memory) × (setup p eq random (p.restart m') ≡ uncommissioned m'')
unfolding setup
setup-reset p eq random t d m down held long =
    let found = settings_load p (p.restart (settings_erase p m).1) in
    (
      _,
      held_resets p eq t d m down held long,
      _,
      enter-invalid p eq random found.0 found.1 found.2 (settings_load-erase p m).1,
    )
