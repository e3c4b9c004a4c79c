-- ===== src/Firmware/Settings/Storage.antt =====
-- What `settings_create` writes, `settings_load` reads after a restart; and nothing after
-- `settings_erase`.
pub mod Cells
pub mod Layout
use iot_heater.Prelude.{
  ℕ, zero, suc, ◌+◌, ◌-◌, ◌/◌, ◌^◌, ◌≤◌, ◌<◌, true, false, [], ◌∷◌, ◌++◌, ◌≡◌, refl, ap, ◌∙◌, arith,
  All, All-append, length, length-append, length-replicate, length-take, length-drop, All-take,
  All-drop, All-replicate, take, drop, take-append, take-all, drop-append, replicate, if◌then◌else◌,
}
use iot_heater.Text.{Bytes}
use iot_heater.Wire.{le_bytes, le_value, overwrite}
use iot_heater.Wire.Laws.{le_value-le_bytes, length-le_bytes}
use iot_heater.Firmware.Settings.{
  Platform, Settings, settings_bytes, settings_of, zero_settings, settings_is_valid, settings_size,
  read_bytes, write_bytes, erase_eeprom, settings_load, settings_erase, created, settings_create,
}
use iot_heater.Firmware.Settings.Storage.Cells.{
  AllBytes, read_bytes-write_bytes, read_bytes-restart,
}
use iot_heater.Firmware.Settings.Storage.Layout.{
  HasSizes, settings_of-settings_bytes, length-settings_bytes, settings_bytes-AllBytes, made,
  created-HasSizes, char_array-AllBytes,
}

-- What is in the EEPROM when it was written and committed is what is loaded after a restart.
load-stored :
    (p : Platform) (s : Settings) (m : p.Memory)
    → HasSizes s
    → AllBytes (settings_bytes s)
    → settings_is_valid s ≡ true
    → ((settings_load p (p.restart (p.commit (write_bytes p (settings_bytes s) 0 m)))).0 ≡ s)
      × ((settings_load p (p.restart (p.commit (write_bytes p (settings_bytes s) 0 m)))).1 ≡ true)
unfolding settings_load
load-stored p s m h small ok =
    let m' : p.Memory = write_bytes p (settings_bytes s) 0 m in
    let len = length-settings_bytes s h in
    let r1 : read_bytes p 200 0 (p.begin (p.restart (p.commit m'))) ≡ read_bytes p 200 0 m' =
      read_bytes-restart p 200 0 m' (omega arith) in
    let r2 : read_bytes p 200 0 m' ≡ settings_bytes s =
      read_bytes-write_bytes p 200 (settings_bytes s) 0 m (omega arith) (omega arith) small
      ∙ take-all 200 (settings_bytes s) (omega arith) in
    let e = ap settings_of (r1 ∙ r2) ∙ settings_of-settings_bytes s h in
    let chosen : (if settings_is_valid s then s else zero_settings) ≡ s = rw ok refl in
    (
      ap (λ (t : Settings). if settings_is_valid t then t else zero_settings) e ∙ chosen,
      ap settings_is_valid e ∙ ok,
    )

-- What `settings_create` stored, for four strings of bytes of any lengths, is what `settings_load`
-- reads after a restart, and it is valid.
pub settings_load-create :
    (p : Platform) (name ssid password basestation : Bytes) (m : p.Memory)
    → All (λ c. c < 256) name
    → All (λ c. c < 256) ssid
    → All (λ c. c < 256) password
    → All (λ c. c < 256) basestation
    → ((settings_load p (p.restart (settings_create p name ssid password basestation m).1)).0
        ≡ (settings_create p name ssid password basestation m).0)
      × ((settings_load p (p.restart (settings_create p name ssid password basestation m).1)).1
          ≡ true)
unfolding settings_create created
settings_load-create p name ssid password basestation m n w q b =
    load-stored p (made p name ssid password basestation) (p.commit (erase_eeprom p m))
      (created-HasSizes p name ssid password basestation)
      (settings_bytes-AllBytes (made p name ssid password basestation)
        (char_array-AllBytes p name 32 (omega arith) n)
        (char_array-AllBytes p ssid 64 (omega arith) w)
        (char_array-AllBytes p password 64 (omega arith) q)
        (char_array-AllBytes p basestation 32 (omega arith) b))
      refl

erased_bytes :
    (p : Platform) (m : p.Memory)
    → read_bytes p settings_size 0 (p.begin (p.restart (settings_erase p m).1)) ≡ replicate 200 0xFF
unfolding settings_erase
erased_bytes p m =
    let all : Bytes = replicate 512 0xFF in
    read_bytes-restart p 200 0 (erase_eeprom p m) (omega arith)
    ∙ read_bytes-write_bytes p 200 all 0 m (omega arith) (omega arith)
        (All-replicate (λ (c : ℕ). c < 256) 512 0xFF (omega arith))

-- After `settings_erase` and a restart, `settings_load` finds no valid settings and leaves zeros.
pub settings_load-erase :
    (p : Platform) (m : p.Memory)
    → ((settings_load p (p.restart (settings_erase p m).1)).0 ≡ zero_settings)
      × ((settings_load p (p.restart (settings_erase p m).1)).1 ≡ false)
unfolding settings_load le_value
settings_load-erase p m =
    let e = ap settings_of (erased_bytes p m) in
    (
      ap (λ (t : Settings). if settings_is_valid t then t else zero_settings) e,
      ap settings_is_valid e,
    )
