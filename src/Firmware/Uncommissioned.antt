-- ===== src/Firmware/Uncommissioned.antt =====
-- heater_firmware/uncommissioned.cpp: the controller waits for its settings from a web form.
pub mod Commissioning
pub mod AccessPoint
use iot_heater.Prelude.{
  ℕ, ◌+◌, ◌-◌, ◌^◌, ◌%◌, Bool, true, false, not, ◌&&◌, ◌||◌, [], ◌∷◌, Option, none, some,
  if◌then◌else◌, leb, ltb, ◌==◌, length,
}
use iot_heater.Text.{Bytes, is_alnum, all_bytes}
use iot_heater.Firmware.Settings.{Platform, Settings, settings_create, settings_erase}

-- The strings of the form.
pub record Params : Type 0 where
  pub device_name : Bytes
  pub wifi_ssid : Bytes
  pub wifi_password : Bytes
  pub basestation_addr : Bytes

-- `check_params`.
unfoldable pub check_params : Params → Bool
unfolding is_alnum all_bytes
check_params q =
    if leb 31 (length q.device_name)
      || leb 63 (length q.wifi_ssid)
      || leb 63 (length q.wifi_password)
      || leb 31 (length q.basestation_addr)
    then false
    else if (length q.device_name == 0)
        || (length q.wifi_ssid == 0)
        || (length q.basestation_addr == 0)
    then false
    else all_bytes is_alnum q.device_name

-- The static variables of the file; `led` is the level of the LED pin, `blink` the time of the
-- last change.
pub record Setup : Type 0 where
  pub button_pressed : Bool
  pub button_pressed_start : ℕ
  pub joining : Bool
  pub joining_start : ℕ
  pub params : Params
  pub led : ℕ
  pub blink : ℕ

-- What the handler of a request answers; `null_access` is a use of the null pointer that
-- `getParam` returns for a parameter that is not there.
pub data Reply : Type 0 where
  page nothing null_access : Reply

-- The parameters of a POST request: each is there or not.
pub record Form : Type 0 where
  pub name : Option Bytes
  pub ssid : Option Bytes
  pub password : Option Bytes
  pub basestation : Option Bytes

-- The handler behind the tests: all four values are there and no network is being joined.
unfoldable pub accept : ℕ → Params → Setup → Setup × Reply
unfolding check_params
accept now q s =
    let s' = record s { params = q } in
    if check_params q
    then (record s' { joining = true; joining_start = now }, nothing)
    else (s', page)

-- The handler of `/register`.
unfoldable pub register : ℕ → Form → Setup → Setup × Reply
unfolding accept
register now form s = elim form.name [
  | none ↦ (s, page)
  | some n ↦ elim form.ssid [
    | none ↦ (s, page)
    | some w ↦ elim form.password [
      | none ↦ (s, page)
      | some k ↦
          let read : Setup × Reply = elim form.basestation [
            | none ↦ (s, null_access)
            | some b ↦
                accept now
                  (record {
                    device_name = n;
                    wifi_ssid = w;
                    wifi_password = k;
                    basestation_addr = b;
                  })
                  s
          ] in
          if s.joining then (s, nothing) else read
    ]
  ]
]

-- What one pass of the loop meets. `joined` is that the status is `WL_CONNECTED` when the wait for
-- the network ends.
pub record Pass : Type 0 where
  pub stations : ℕ
  pub button : ℕ
  pub now : ℕ
  pub joined : Bool

-- `millis() - start`, on 32 bits.
abbrev pub elapsed : ℕ → ℕ → ℕ
elapsed now start = (now + 2 ^ 32 - start) % 2 ^ 32

-- The blinking of the LED while someone is connected.
unfoldable pub blink_led : Pass → Setup → Setup
blink_led i s =
    if i.stations == 0
    then record s { led = 1; blink = 0 }
    else if ltb 100 (elapsed i.now s.blink)
    then record s { led = 1 - s.led; blink = i.now }
    else s

module _ (p : Platform) where
  -- Where a pass of the loop ends: at its end, or in `ESP.restart` with what the EEPROM holds.
  pub data Ending : Type 0 where
    running : Setup → Ending
    restarting : p.Memory → Ending

  -- The end of the loop: joining the network.
  unfoldable pub join : Pass → Setup → p.Memory → Ending
  unfolding settings_create
  join i s m =
      let q = s.params in
      let stored =
        settings_create p q.device_name q.wifi_ssid q.wifi_password q.basestation_addr m in
      if s.joining then restarting (if i.joined then stored.1 else m) else running s

  -- `loop_uncommissioned`.
  unfoldable pub loop_uncommissioned : Pass → Setup → p.Memory → Ending
  unfolding blink_led join settings_erase
  loop_uncommissioned i s m =
      let s1 = blink_led i s in
      let pressed = record s1 { button_pressed = true; button_pressed_start = i.now } in
      if i.button == 0
      then (if not s1.button_pressed
          then join i pressed m
          else if leb 10_000 (elapsed i.now s1.button_pressed_start)
          then restarting (settings_erase p m).1
          else join i s1 m)
      else join i (record s1 { button_pressed = false }) m
