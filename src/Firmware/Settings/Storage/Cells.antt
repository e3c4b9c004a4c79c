-- ===== src/Firmware/Settings/Storage/Cells.antt =====
-- Reading and writing ranges of the EEPROM.
use iot_heater.Prelude.{
  ℕ, zero, suc, ◌+◌, ◌≤◌, ◌<◌, [], ◌∷◌, ◌≡◌, refl, ◌∙◌, arith, All, length, take,
}
use iot_heater.Text.{Bytes}
use iot_heater.Firmware.Settings.{Platform, read_bytes, write_bytes}

abbrev pub AllBytes : Bytes → Type 0
AllBytes s = All (λ c. c < 256) s

module _ (p : Platform) where
  -- A write does not touch the bytes before its range.
  read-write_bytes :
      (s : Bytes) (i a : ℕ) (m : p.Memory)
      → i < a
      → a + length s ≤ 512
      → AllBytes s
      → p.read i (write_bytes p s a m) ≡ p.read i m
  unfolding write_bytes
  read-write_bytes [] i a m lt fits small = refl
  read-write_bytes (b ∷ s) i a m lt fits small =
      read-write_bytes s i (suc a) (p.write a b m) (omega arith) (omega arith) small.1
      ∙ p.read-write i a b m (omega arith) (omega arith) small.0
      ∙ ground arith

  pub read_bytes-write_bytes :
      (n : ℕ) (s : Bytes) (a : ℕ) (m : p.Memory)
      → n ≤ length s
      → a + length s ≤ 512
      → AllBytes s
      → read_bytes p n a (write_bytes p s a m) ≡ take n s
  unfolding write_bytes read_bytes
  read_bytes-write_bytes zero s a m le fits small = refl
  read_bytes-write_bytes (suc n) [] a m le fits small = absurd (omega arith)
  read_bytes-write_bytes (suc n) (b ∷ s) a m le fits small =
      let first : p.read a (write_bytes p s (suc a) (p.write a b m)) ≡ b =
        read-write_bytes s a (suc a) (p.write a b m) (omega arith) (omega arith) small.1
        ∙ p.read-write a a b m (omega arith) (omega arith) small.0
        ∙ ground arith in
      λ i.
        first i
        ∷ read_bytes-write_bytes n s (suc a) (p.write a b m) (omega arith) (omega arith) small.1 i

  pub read_bytes-restart :
      (n a : ℕ) (m : p.Memory)
      → a + n ≤ 512
      → read_bytes p n a (p.begin (p.restart (p.commit m))) ≡ read_bytes p n a m
  unfolding read_bytes
  read_bytes-restart zero a m fits = refl
  read_bytes-restart (suc n) a m fits =
      λ i. p.read-restart a m (omega arith) i ∷ read_bytes-restart n (suc a) m (omega arith) i
