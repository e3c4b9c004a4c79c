-- ===== src/Firmware/Settings/Storage/Layout.antt =====
-- The settings as the bytes of the packed struct, and back.
use iot_heater.Prelude.{
  ℕ, zero, suc, ◌+◌, ◌-◌, ◌/◌, ◌^◌, ◌≤◌, ◌<◌, [], ◌∷◌, ◌++◌, ◌≡◌, ap, ◌∙◌, arith, All-append,
  length, length-append, length-replicate, length-take, length-drop, All-take, All-drop,
  All-replicate, take, drop, take-append, take-all, drop-append, replicate,
}
use iot_heater.Text.{Bytes}
use iot_heater.Wire.{le_bytes, le_value, overwrite}
use iot_heater.Wire.Laws.{le_value-le_bytes, length-le_bytes}
use iot_heater.Firmware.Settings.{
  Platform, Settings, settings_bytes, settings_of, settings_size, created,
}
use iot_heater.Firmware.Settings.Storage.Cells.{AllBytes}

-- The sizes of the struct's members.
pub record HasSizes (s : Settings) : Type 0 where
  pub magic0_lt : s.magic0 < 256 ^ 4
  pub name_size : length s.name ≡ 32
  pub ssid_size : length s.ssid ≡ 64
  pub password_size : length s.password ≡ 64
  pub basestation_size : length s.basestation ≡ 32
  pub magic1_lt : s.magic1 < 256 ^ 4

pub settings_of-settings_bytes : (s : Settings) → HasSizes s → settings_of (settings_bytes s) ≡ s
settings_of-settings_bytes s h =
    let r4 : Bytes = s.basestation ++ le_bytes 4 s.magic1 in
    let r3 : Bytes = s.password ++ r4 in
    let r2 : Bytes = s.ssid ++ r3 in
    let r1 : Bytes = s.name ++ r2 in
    let b : Bytes = settings_bytes s in
    let l0 = length-le_bytes 4 s.magic0 in
    let d1 : drop 4 b ≡ r1 = drop-append 4 (le_bytes 4 s.magic0) r1 l0 in
    let d2 : drop 32 (drop 4 b) ≡ r2 = rw d1 (drop-append 32 s.name r2 h.name_size) in
    let d3 : drop 64 (drop 32 (drop 4 b)) ≡ r3 = rw d2 (drop-append 64 s.ssid r3 h.ssid_size) in
    let d4 : drop 64 (drop 64 (drop 32 (drop 4 b))) ≡ r4 =
      rw d3 (drop-append 64 s.password r4 h.password_size) in
    let d5 : drop 32 (drop 64 (drop 64 (drop 32 (drop 4 b)))) ≡ le_bytes 4 s.magic1 =
      rw d4 (drop-append 32 s.basestation (le_bytes 4 s.magic1) h.basestation_size) in
    let e0 =
      ap le_value (take-append 4 (le_bytes 4 s.magic0) r1 l0)
      ∙ le_value-le_bytes 4 s.magic0 h.magic0_lt in
    let e1 = ap (take 32) d1 ∙ take-append 32 s.name r2 h.name_size in
    let e2 = ap (take 64) d2 ∙ take-append 64 s.ssid r3 h.ssid_size in
    let e3 = ap (take 64) d3 ∙ take-append 64 s.password r4 h.password_size in
    let e4 = ap (take 32) d4 ∙ take-append 32 s.basestation _ h.basestation_size in
    let whole = take-all 4 (le_bytes 4 s.magic1) (omega (arith, length-le_bytes 4 s.magic1)) in
    let e5 =
      ap (λ (x : Bytes). le_value (take 4 x)) d5
      ∙ ap le_value whole
      ∙ le_value-le_bytes 4 s.magic1 h.magic1_lt in
    λ i. record {
      magic0 = e0 i;
      name = e1 i;
      ssid = e2 i;
      password = e3 i;
      basestation = e4 i;
      magic1 = e5 i;
    }

le_bytes-AllBytes : (k n : ℕ) → AllBytes (le_bytes k n)
unfolding le_bytes
le_bytes-AllBytes zero n = tt
le_bytes-AllBytes (suc k) n = (omega arith, le_bytes-AllBytes k (n / 256))

length-overwrite :
    (buf src : Bytes) → length src ≤ length buf → length (overwrite buf 0 src) ≡ length buf
length-overwrite buf src fits =
    let rest : Bytes = drop (0 + length src) buf in
    omega (arith, length-append src rest, length-drop (0 + length src) buf)

-- A character array of `n` bytes, filled from a string of any length.
module _ (p : Platform) (s : Bytes) (n : ℕ) (pos : 0 < n) where
  pub length-char_array : length (overwrite (replicate n 0) 0 (p.to_char_array s n)) ≡ n
  length-char_array =
      let zeros : Bytes = replicate n 0 in
      let all_zeros : length zeros ≡ n = length-replicate n 0 in
      let short : length (p.to_char_array s n) ≤ n =
        rw (p.to_char_array-take s n pos)
          (omega (arith, length-append (take (n - 1) s) (0 ∷ []), length-take (n - 1) s)) in
      length-overwrite zeros (p.to_char_array s n) (omega arith) ∙ all_zeros

  pub char_array-AllBytes :
      AllBytes s → AllBytes (overwrite (replicate n 0) 0 (p.to_char_array s n))
  char_array-AllBytes small = rw (p.to_char_array-take s n pos) (
      All-append _ (take (n - 1) s ++ (0 ∷ [])) _
        (All-append _ (take (n - 1) s) (0 ∷ []) (All-take _ (n - 1) s small) (omega arith, tt))
        (All-drop _ _ (replicate n 0) (All-replicate _ n 0 (omega arith))))

module _ (p : Platform) (name ssid password basestation : Bytes) where
  abbrev pub made : Settings
  made = created p name ssid password basestation

  pub created-HasSizes : HasSizes made
  unfolding created
  created-HasSizes = record {
    magic0_lt = omega arith;
    name_size = length-char_array p name 32 (omega arith);
    ssid_size = length-char_array p ssid 64 (omega arith);
    password_size = length-char_array p password 64 (omega arith);
    basestation_size = length-char_array p basestation 32 (omega arith);
    magic1_lt = omega arith;
  }

pub length-settings_bytes : (s : Settings) → HasSizes s → length (settings_bytes s) ≡ settings_size
length-settings_bytes s h =
    let r4 : Bytes = s.basestation ++ le_bytes 4 s.magic1 in
    let r3 : Bytes = s.password ++ r4 in
    let r2 : Bytes = s.ssid ++ r3 in
    omega (
      arith,
      h.name_size,
      h.ssid_size,
      h.password_size,
      h.basestation_size,
      length-le_bytes 4 s.magic0,
      length-le_bytes 4 s.magic1,
      length-append (le_bytes 4 s.magic0) (s.name ++ r2),
      length-append s.name r2,
      length-append s.ssid r3,
      length-append s.password r4,
      length-append s.basestation (le_bytes 4 s.magic1),
    )

pub settings_bytes-AllBytes :
    (s : Settings)
    → AllBytes s.name
    → AllBytes s.ssid
    → AllBytes s.password
    → AllBytes s.basestation
    → AllBytes (settings_bytes s)
settings_bytes-AllBytes s n w q b =
    All-append _ (le_bytes 4 s.magic0) _ (le_bytes-AllBytes 4 s.magic0) (
      All-append _ s.name _ n (
        All-append _ s.ssid _ w (
          All-append _ s.password _ q
            (All-append _ s.basestation _ b (le_bytes-AllBytes 4 s.magic1)))))
