-- ===== src/Firmware/Settings/Check.antt =====
-- `settings_check` and the getters on settings that `settings_create` made.
use iot_heater.Prelude.{
  ℕ, ◌+◌, ◌-◌, ◌<◌, true, [], ◌∷◌, ◌++◌, ◌≡◌, ◌≢◌, refl, ap, ◌∙◌, arith, All, length, drop,
  take-all, replicate, append_assoc,
}
use iot_heater.Text.{Bytes, is_alnum, all_bytes}
use iot_heater.Wire.{overwrite, le_bytes}
use iot_heater.Firmware.Settings.{
  Platform, Settings, c_str, created, settings_check, from_ssid, from_basestation,
}

c_str-append : (s r : Bytes) → All (λ c. 0 < c) s → c_str (s ++ (0 ∷ r)) ≡ s
unfolding c_str
c_str-append [] r h = refl
c_str-append (c ∷ s) r h = ground (arith, c_str-append s r h.1, h.0)

-- A string that fits is in its array up to the zero byte that ends it.
pub char_array-shape :
    (p : Platform) (s : Bytes) (n : ℕ)
    → length s < n
    → overwrite (replicate n 0) 0 (p.to_char_array s n)
      ≡ s ++ (0 ∷ drop (0 + length (p.to_char_array s n)) (replicate n 0))
char_array-shape p s n fits =
    let r : Bytes = drop (0 + length (p.to_char_array s n)) (replicate n 0) in
    let shape : p.to_char_array s n ≡ s ++ (0 ∷ []) =
      p.to_char_array-take s n (omega arith)
      ∙ ap (λ (x : Bytes). x ++ (0 ∷ [])) (take-all (n - 1) s (omega arith)) in
    ap (λ (x : Bytes). x ++ r) shape ∙ append_assoc s (0 ∷ []) r

-- It is read back from there.
pub c_str-char_array :
    (p : Platform) (s : Bytes) (n : ℕ)
    → length s < n
    → All (λ c. 0 < c) s
    → c_str (overwrite (replicate n 0) 0 (p.to_char_array s n)) ≡ s
c_str-char_array p s n fits pos = ap c_str (char_array-shape p s n fits) ∙ c_str-append s _ pos

-- And so it is if more bytes are behind the array.
c_str-array_append :
    (p : Platform) (s : Bytes) (n : ℕ) (behind : Bytes)
    → length s < n
    → All (λ c. 0 < c) s
    → c_str (overwrite (replicate n 0) 0 (p.to_char_array s n) ++ behind) ≡ s
c_str-array_append p s n behind fits pos =
    let r : Bytes = drop (0 + length (p.to_char_array s n)) (replicate n 0) in
    ap (λ (b : Bytes). c_str (b ++ behind)) (char_array-shape p s n fits)
    ∙ ap c_str (append_assoc s (0 ∷ r) behind)
    ∙ c_str-append s (r ++ behind) pos

pub settings_check-created :
    (p : Platform) (name ssid password basestation : Bytes)
    → length name < 32
    → length ssid < 64
    → length basestation < 32
    → name ≢ []
    → ssid ≢ []
    → basestation ≢ []
    → all_bytes is_alnum name ≡ true
    → All (λ c. 0 < c) name
    → All (λ c. 0 < c) ssid
    → All (λ c. 0 < c) basestation
    → settings_check (created p name ssid password basestation) ≡ true
unfolding settings_check created
settings_check-created p name ssid password basestation l1 l2 l3 n1 n2 n3 al z1 z2 z3 =
    let made : Settings = created p name ssid password basestation in
    rw
      (
        c_str-array_append p name 32 (from_ssid made) l1 z1,
        c_str-array_append p ssid 64 (made.password ++ from_basestation made) l2 z2,
        c_str-array_append p basestation 32 (le_bytes 4 made.magic1) l3 z3,
      )
      (ground (arith, n1, n2, n3, al))
