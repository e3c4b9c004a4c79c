-- ===== src/Firmware/Commissioned/Index.antt =====
-- The handler of `/` in commissioned.cpp: the page goes into a buffer of 2048 bytes.
use iot_heater.Prelude.{
  ℕ, suc, ◌+◌, ◌^◌, ◌≤◌, ◌<◌, Bool, true, List, [], ◌∷◌, ◌≡◌, refl, arith, All, length, ltb, ◌==◌,
  if◌then◌else◌, ℤ, pos, negsuc, if_intro, replicate, length-replicate,
}
use iot_heater.Text.{Bytes, codes, decimal, hex_byte}
use iot_heater.Wire.{Mac, off, defrost, eco, comfort, state_byte}
use iot_heater.BaseStation.Messages.{mac_str}
use iot_heater.Firmware.Settings.{
  Settings, c_str, settings_get, settings_is_valid, settings_get_name, settings_get_basestation,
}
use iot_heater.Firmware.Webpages.{commissioned_index_html, fill, hex_word, length-fill}
use iot_heater.Firmware.Commissioned.Device.{Device, ErrorRecord}
use iot_heater.Firmware.Commissioned.Page.{
  build_errors_webpage, IsStamped, page-fits, length-decimal_onto,
}

unfoldable pub heater_state_str : ℕ → Bytes
heater_state_str s =
    if s == state_byte defrost
    then codes "DEFROST"
    else if s == state_byte eco
    then codes "ECO"
    else if s == state_byte comfort
    then codes "COMFORT/ON"
    else if s == state_byte off
    then codes "OFF"
    else codes "UNKNOWN"

-- `rssi > -k`.
abbrev above_minus : ℤ → ℕ → Bool
above_minus (pos n) k = true
above_minus (negsuc n) k = ltb (suc n) k

unfoldable pub wifi_level : ℤ → Bytes
wifi_level rssi =
    if above_minus rssi 67
    then codes "excellent"
    else if above_minus rssi 70
    then codes "very good"
    else if above_minus rssi 80
    then codes "okay"
    else if above_minus rssi 90
    then codes "not good"
    else codes "unusable"

-- `%d`.
unfoldable pub signed_decimal : ℤ → Bytes
unfolding decimal
signed_decimal (pos n) = decimal n
signed_decimal (negsuc n) = b'-' ∷ decimal (suc n)

-- What a visit to the page reads of the chip and of the libraries.
pub record Visit : Type 0 where
  pub chip_id : ℕ
  pub fw_version : Bytes
  pub mac : Mac
  pub uptime : Bytes
  pub rssi : ℤ

-- The handler, on the static variables and what the queue of errors holds.
unfoldable pub index_page : {Q : Type 0} → Visit → Device Q → List ErrorRecord → Bytes
unfolding heater_state_str wifi_level signed_decimal fill hex_word decimal mac_str
index_page v d errors =
    let name = c_str (settings_get_name d.settings) in
    fill commissioned_index_html (
      name
      ∷ name
      ∷ hex_word v.chip_id
      ∷ v.fw_version
      ∷ mac_str v.mac
      ∷ v.uptime
      ∷ signed_decimal v.rssi
      ∷ wifi_level v.rssi
      ∷ c_str (settings_get_basestation d.settings)
      ∷ heater_state_str d.heater_state
      ∷ decimal d.last_state_timestamp
      ∷ decimal d.failures_since_boot
      ∷ build_errors_webpage errors
      ∷ [])

heater_state_str-fits : (s : ℕ) → length (heater_state_str s) ≤ 10
unfolding heater_state_str
heater_state_str-fits s = ground arith

wifi_level-fits : (rssi : ℤ) → length (wifi_level rssi) ≤ 9
unfolding wifi_level
wifi_level-fits (pos n) = omega arith
wifi_level-fits (negsuc n) = ground arith

decimal-fits : (n : ℕ) → n < 2 ^ 32 → length (decimal n) ≤ 10
unfolding decimal
decimal-fits n lt = omega (arith, length-decimal_onto 20 9 n [] (omega (arith, lt)))

-- A `long`, which has 32 bits here.
abbrev pub IsLong : ℤ → Type 0
IsLong (pos n) = n < 2 ^ 31
IsLong (negsuc n) = n < 2 ^ 31

signed_decimal-fits : (z : ℤ) → IsLong z → length (signed_decimal z) ≤ 11
unfolding signed_decimal
signed_decimal-fits (pos n) lt = omega (arith, decimal-fits n (omega arith))
signed_decimal-fits (negsuc n) lt = omega (arith, decimal-fits (suc n) (omega arith))

c_str-fits : (s : Bytes) → length (c_str s) ≤ length s
unfolding c_str
c_str-fits [] = omega arith
c_str-fits (c ∷ s) = ground (arith, c_str-fits s)

c_str-settings :
    (s : Settings) (field : Bytes) (size : ℕ)
    → length field ≡ size
    → length (c_str (settings_get s field size)) ≤ size
c_str-settings s field size e =
    if_intro (λ (t : Bytes). length (c_str t) ≤ size) (settings_is_valid s)
      (λ _. omega (arith, c_str-fits field, e))
      (λ _. omega (arith, c_str-fits (replicate size 0), length-replicate {A = ℕ} size 0))

hex_word-length : (n : ℕ) → length (hex_word n) ≡ 8
unfolding hex_word hex_byte
hex_word-length n = refl

mac_str-length : (m : Mac) → length (mac_str m) ≡ 17
unfolding mac_str hex_byte
mac_str-length m = refl

-- The page of a controller, with any state, any signal, a list of up to five errors with times on 32
-- bits and arrays of 32 bytes for its name and host, fits in the 2048 bytes of `webpage_buffer` with
-- its closing zero byte, if the version and the uptime have at most 600 bytes together.
pub index_page-fits :
    {Q : Type 0}
    → (v : Visit) (d : Device Q) (errors : List ErrorRecord) → length errors ≤ 5
    → All IsStamped errors
    → length d.settings.name ≡ 32
    → length d.settings.basestation ≡ 32
    → d.last_state_timestamp < 2 ^ 32
    → d.failures_since_boot < 2 ^ 32
    → IsLong v.rssi
    → length v.fw_version + length v.uptime ≤ 600
    → length (index_page v d errors) < 2048
unfolding index_page
index_page-fits v d errors few stamped n b last count long short =
    let name : Bytes = c_str (settings_get_name d.settings) in
    let base : Bytes = c_str (settings_get_basestation d.settings) in
    let args : List Bytes =
      name
      ∷ name
      ∷ hex_word v.chip_id
      ∷ v.fw_version
      ∷ mac_str v.mac
      ∷ v.uptime
      ∷ signed_decimal v.rssi
      ∷ wifi_level v.rssi
      ∷ base
      ∷ heater_state_str d.heater_state
      ∷ decimal d.last_state_timestamp
      ∷ decimal d.failures_since_boot
      ∷ build_errors_webpage errors
      ∷ [] in
    let name-fits : length name ≤ 32 = c_str-settings d.settings d.settings.name 32 n in
    let base-fits : length base ≤ 32 = c_str-settings d.settings d.settings.basestation 32 b in
    omega (
      arith,
      length-fill commissioned_index_html args,
      name-fits,
      base-fits,
      hex_word-length v.chip_id,
      mac_str-length v.mac,
      signed_decimal-fits v.rssi long,
      wifi_level-fits v.rssi,
      heater_state_str-fits d.heater_state,
      decimal-fits d.last_state_timestamp last,
      decimal-fits d.failures_since_boot count,
      page-fits errors stamped few,
    )
