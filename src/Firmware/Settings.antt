-- ===== src/Firmware/Settings.antt =====
-- heater_firmware/settings.cpp: the settings in memory and in the EEPROM. The EEPROM class and the
-- `String` class are not part of the repository: they are the interface `Platform`, whose laws
-- state what their documentation promises.
pub mod Storage
pub mod Check
use iot_heater.Prelude.{
  ℕ, zero, suc, ◌+◌, ◌-◌, ◌<◌, Bool, true, false, not, ◌&&◌, ◌||◌, [], ◌∷◌, ◌++◌, ◌≡◌,
  if◌then◌else◌, leb, ◌==◌, replicate, take, drop,
}
unfoldable pub use iot_heater.Text.{c_str}
use iot_heater.Text.{Bytes, is_alnum, all_bytes}
use iot_heater.Wire.{le_bytes, le_value, overwrite}

abbrev pub eeprom_len : ℕ
eeprom_len = 512

abbrev pub settings_size : ℕ
settings_size = 200

abbrev pub magic0_value : ℕ
magic0_value = 0xf177_2e9a

abbrev pub magic1_value : ℕ
magic1_value = 0x86b8_1fcb

-- `restart` is what the memory of the EEPROM class is when the chip has started again: only what
-- `commit` wrote is left. `to_char_array s n` is what `s.toCharArray(buf, n)` puts at the start of
-- `buf`.
pub record Platform : Type 1 where
  pub Memory : Type 0
  pub begin : Memory → Memory
  pub read : ℕ → Memory → ℕ
  pub write : ℕ → ℕ → Memory → Memory
  pub commit : Memory → Memory
  pub restart : Memory → Memory
  pub to_char_array : Bytes → ℕ → Bytes
  pub read-write :
      (i j v : ℕ) (m : Memory)
      → i < 512
      → j < 512
      → v < 256
      → read i (write j v m) ≡ (if i == j then v else read i m)
  pub read-restart : (i : ℕ) (m : Memory) → i < 512 → read i (begin (restart (commit m))) ≡ read i m
  pub to_char_array-take :
      (s : Bytes) (n : ℕ) → 0 < n → to_char_array s n ≡ take (n - 1) s ++ (0 ∷ [])

-- `struct settings_t`; the four arrays hold 32, 64, 64 and 32 bytes.
pub record Settings : Type 0 where
  pub magic0 : ℕ
  pub name : Bytes
  pub ssid : Bytes
  pub password : Bytes
  pub basestation : Bytes
  pub magic1 : ℕ

-- The struct as its bytes; it is packed and the chip is little-endian.
abbrev pub settings_bytes : Settings → Bytes
settings_bytes s =
    le_bytes 4 s.magic0
    ++ (s.name ++ (s.ssid ++ (s.password ++ (s.basestation ++ le_bytes 4 s.magic1))))

-- The bytes as the struct.
abbrev pub settings_of : Bytes → Settings
settings_of b =
    let b1 = drop 4 b in
    let b2 = drop 32 b1 in
    let b3 = drop 64 b2 in
    let b4 = drop 64 b3 in
    let b5 = drop 32 b4 in
    record {
      magic0 = le_value (take 4 b);
      name = take 32 b1;
      ssid = take 64 b2;
      password = take 64 b3;
      basestation = take 32 b4;
      magic1 = le_value (take 4 b5);
    }

-- `memset(&settings, 0, sizeof(settings))`.
abbrev pub zero_settings : Settings
zero_settings = record {
  magic0 = 0;
  name = replicate 32 0;
  ssid = replicate 64 0;
  password = replicate 64 0;
  basestation = replicate 32 0;
  magic1 = 0;
}

-- `is_valid`.
abbrev pub settings_is_valid : Settings → Bool
settings_is_valid s = s.magic0 == magic0_value && s.magic1 == magic1_value

-- `settings_get_name`, and its three likes with their array.
abbrev pub settings_get : Settings → Bytes → ℕ → Bytes
settings_get s field size = if settings_is_valid s then field else replicate size 0

abbrev pub settings_get_name : Settings → Bytes
settings_get_name s = settings_get s s.name 32

abbrev pub settings_get_ssid : Settings → Bytes
settings_get_ssid s = settings_get s s.ssid 64

abbrev pub settings_get_password : Settings → Bytes
settings_get_password s = settings_get s s.password 64

abbrev pub settings_get_basestation : Settings → Bytes
settings_get_basestation s = settings_get s s.basestation 32

abbrev is_empty : Bytes → Bool
is_empty [] = true
is_empty (c ∷ s) = false

-- The struct from a field on: `strlen` of an array without a zero byte reads on there. What lies
-- behind the struct is left out.
abbrev pub from_basestation : Settings → Bytes
from_basestation s = s.basestation ++ le_bytes 4 s.magic1

abbrev pub from_ssid : Settings → Bytes
from_ssid s = s.ssid ++ (s.password ++ from_basestation s)

abbrev pub from_name : Settings → Bytes
from_name s = s.name ++ from_ssid s

-- `settings_check`.
unfoldable pub settings_check : Settings → Bool
unfolding c_str is_alnum all_bytes le_bytes
settings_check s =
    let name = c_str (from_name s) in
    not (is_empty name || is_empty (c_str (from_ssid s)) || is_empty (c_str (from_basestation s)))
    && all_bytes is_alnum name
    && settings_is_valid s

module _ (p : Platform) where
  -- The loop that reads `count` bytes from an address on.
  unfoldable pub read_bytes : ℕ → ℕ → p.Memory → Bytes
  read_bytes zero addr m = []
  read_bytes (suc count) addr m = p.read addr m ∷ read_bytes count (suc addr) m

  -- The loop that writes bytes from an address on.
  unfoldable pub write_bytes : Bytes → ℕ → p.Memory → p.Memory
  write_bytes [] addr m = m
  write_bytes (b ∷ s) addr m = write_bytes s (suc addr) (p.write addr b m)

  -- `for (int i = 0; i < EEPROM_LEN; ++i) EEPROM.write(i, 0xFF)`.
  abbrev pub erase_eeprom : p.Memory → p.Memory
  erase_eeprom m = write_bytes (replicate eeprom_len 0xFF) 0 m

  -- `settings_load`: the settings, whether they are valid, and the memory.
  unfoldable pub settings_load : p.Memory → Settings × Bool × p.Memory
  unfolding read_bytes le_value
  settings_load m =
      let m' = p.begin m in
      let s = settings_of (read_bytes settings_size 0 m') in
      let valid = settings_is_valid s in (if valid then s else zero_settings, valid, m')

  -- `settings_erase`.
  unfoldable pub settings_erase : p.Memory → Settings × p.Memory
  unfolding write_bytes
  settings_erase m = (zero_settings, p.commit (erase_eeprom m))

  -- The settings that `settings_create` fills in.
  unfoldable pub created : Bytes → Bytes → Bytes → Bytes → Settings
  created name ssid password basestation = record {
    magic0 = magic0_value;
    name = overwrite (replicate 32 0) 0 (p.to_char_array name 32);
    ssid = overwrite (replicate 64 0) 0 (p.to_char_array ssid 64);
    password = overwrite (replicate 64 0) 0 (p.to_char_array password 64);
    basestation = overwrite (replicate 32 0) 0 (p.to_char_array basestation 32);
    magic1 = magic1_value;
  }

  -- `settings_create`.
  unfoldable pub settings_create : Bytes → Bytes → Bytes → Bytes → p.Memory → Settings × p.Memory
  unfolding write_bytes created le_bytes
  settings_create name ssid password basestation m =
      let s = created name ssid password basestation in
      (s, p.commit (write_bytes (settings_bytes s) 0 (p.commit (erase_eeprom m))))
