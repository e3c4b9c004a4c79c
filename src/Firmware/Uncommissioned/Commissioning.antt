-- ===== src/Firmware/Uncommissioned/Commissioning.antt =====
-- From the form to the settings that the controller starts with.
use iot_heater.Prelude.{
  ℕ, ◌<◌, true, false, [], some, ◌≡◌, ◌≢◌, refl, ap, ◌∙◌, arith, All, All-imp, length, ◌==◌,
}
use iot_heater.Text.{Bytes, is_alnum, all_bytes}
use iot_heater.Text.Laws.{all_bytes-All}
use iot_heater.Firmware.Settings.{
  Platform, Settings, settings_check, created, settings_create, settings_load, settings_get_name,
  c_str,
}
use iot_heater.Firmware.Settings.Storage.{settings_load-create}
use iot_heater.Firmware.Settings.Check.{settings_check-created, c_str-char_array}
use iot_heater.Firmware.Uncommissioned.{
  Params, check_params, Setup, Form, accept, register, Pass, restarting, loop_uncommissioned, join,
  blink_led,
}

-- A string that C can hold: no zero byte.
abbrev pub IsCStr : Bytes → Type 0
IsCStr s = All (λ c. (0 < c) × (c < 256)) s

pub check_params-bounds :
    (q : Params)
    → check_params q ≡ true
    → (length q.device_name < 31)
      × (length q.wifi_ssid < 63)
      × (length q.basestation_addr < 31)
      × (q.device_name ≢ [])
      × (q.wifi_ssid ≢ [])
      × (q.basestation_addr ≢ [])
      × (all_bytes is_alnum q.device_name ≡ true)
unfolding check_params
check_params-bounds q h = ground arith

-- Letters and digits are neither zero nor wider than a byte.
pub is_alnum-CStr : (s : Bytes) → all_bytes is_alnum s ≡ true → IsCStr s
unfolding is_alnum
is_alnum-CStr s h =
    All-imp _ _ (λ c a. (ground (arith, a), ground (arith, a))) s (all_bytes-All is_alnum s h)

-- `/register` makes a controller that was not joining a network start to join one only for a form
-- that gives the name and the address of the base station and whose values pass `check_params`.
pub register-joining :
    (now : ℕ) (form : Form) (s : Setup)
    → (register now form s).0.joining ≡ true
    → s.joining ≡ false
    → (check_params (register now form s).0.params ≡ true)
      × (form.name ≡ some (register now form s).0.params.device_name)
      × (form.basestation ≡ some (register now form s).0.params.basestation_addr)
unfolding register accept
register-joining now form s h idle = ground arith

blink_led-keeps :
    (i : Pass) (s : Setup)
    → ((blink_led i s).params ≡ s.params) × ((blink_led i s).joining ≡ s.joining)
unfolding blink_led
blink_led-keeps i s = ground arith

-- With the button up, a pass that has joined the network stores the parameters and restarts.
stores :
    (p : Platform) (i : Pass) (s : Setup) (m : p.Memory)
    → s.joining ≡ true
    → i.joined ≡ true
    → (i.button == 0) ≡ false
    → loop_uncommissioned p i s m
      ≡ restarting
          (settings_create p s.params.device_name s.params.wifi_ssid s.params.wifi_password
            s.params.basestation_addr m).1
unfolding loop_uncommissioned join
stores p i s m joining joined up =
    let (same, still) = blink_led-keeps i s in rw (up, same, still, joining, joined) refl

-- A controller that is joining a network with parameters that pass `check_params`, none of them
-- with a zero byte, and has joined it with the button up, restarts with settings that load, pass
-- `settings_check` and hold its name.
pub commissioning :
    (p : Platform) (i : Pass) (s : Setup) (m : p.Memory)
    → s.joining ≡ true
    → i.joined ≡ true
    → i.button ≢ 0
    → check_params s.params ≡ true
    → IsCStr s.params.wifi_ssid
    → IsCStr s.params.wifi_password
    → IsCStr s.params.basestation_addr
    → (m' : p.Memory) × (loop_uncommissioned p i s m ≡ restarting m')
      × ((settings_load p (p.restart m')).1 ≡ true)
      × (settings_check (settings_load p (p.restart m')).0 ≡ true)
      × (c_str (settings_get_name (settings_load p (p.restart m')).0) ≡ s.params.device_name)
commissioning p i s m joining joined up ok w k b =
    let q = s.params in
    let (l1, l2, l3, n1, n2, n3, al) = check_params-bounds q ok in
    let n : IsCStr q.device_name = is_alnum-CStr q.device_name al in
    let (loaded, valid) =
      settings_load-create p q.device_name q.wifi_ssid q.wifi_password q.basestation_addr m
        (All-imp _ _ (λ c h. h.1) q.device_name n) (All-imp _ _ (λ c h. h.1) q.wifi_ssid w)
        (All-imp _ _ (λ c h. h.1) q.wifi_password k)
        (All-imp _ _ (λ c h. h.1) q.basestation_addr b) in
    let z : All (λ c. 0 < c) q.device_name = All-imp _ _ (λ c h. h.0) q.device_name n in
    let checked =
      settings_check-created p q.device_name q.wifi_ssid q.wifi_password q.basestation_addr
        (omega arith) (omega arith) (omega arith) n1 n2 n3 al z
        (All-imp _ _ (λ c h. h.0) q.wifi_ssid w) (All-imp _ _ (λ c h. h.0) q.basestation_addr b) in
    let named = c_str-char_array p q.device_name 32 (omega arith) z in
    (
      _,
      stores p i s m joining joined (ground (arith, up)),
      valid,
      ap settings_check loaded ∙ (unfold settings_create in checked),
      ap (λ (t : Settings). c_str (settings_get_name t)) loaded
          ∙ (unfold settings_create created in named),
    )
