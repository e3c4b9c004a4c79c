-- ===== src/Wire/Laws.antt =====
-- What is written into a message is what is read from it.
use native.Mathlib.Nat.{pow-suc}
use iot_heater.Prelude.{ℕ, zero, suc, ◌*◌, ◌/◌, ◌^◌, ◌<◌, ◌++◌, ◌≡◌, refl, arith, length, drop, ap}
use iot_heater.Text.{Bytes}
use iot_heater.Wire.{Mac, Header, le_bytes, le_value, parse_header, header_bytes, mac_value}

pub length-le_bytes : (k n : ℕ) → length (le_bytes k n) ≡ k
unfolding le_bytes
length-le_bytes zero n = refl
length-le_bytes (suc k) n = ap suc (length-le_bytes k (n / 256))

pub le_value-le_bytes : (k n : ℕ) → n < 256 ^ k → le_value (le_bytes k n) ≡ n
unfolding le_bytes le_value
le_value-le_bytes zero n h = omega arith
le_value-le_bytes (suc k) n h =
    let h' : n < 256 ^ k * 256 = rw (pow-suc 256 k) at h in
    omega (arith, le_value-le_bytes k (n / 256) (omega arith))

-- The receiver reads the header that the sender wrote, whatever follows it.
pub parse_header-header_bytes :
    (h : Header) (rest : Bytes) → h.counter < 2 ^ 64 → parse_header (header_bytes h ++ rest) ≡ h
unfolding parse_header le_bytes
parse_header-header_bytes h rest lt =
    ap (λ n. record h { counter = n }) (le_value-le_bytes 8 h.counter lt)

pub drop-header_bytes : (h : Header) (rest : Bytes) → drop 16 (header_bytes h ++ rest) ≡ rest
unfolding le_bytes
drop-header_bytes h rest = refl

-- Two six-byte addresses are told apart by their numbers.
pub record IsMac (m : Mac) : Type 0 where
  pub b0_lt : m.b0 < 256
  pub b1_lt : m.b1 < 256
  pub b2_lt : m.b2 < 256
  pub b3_lt : m.b3 < 256
  pub b4_lt : m.b4 < 256
  pub b5_lt : m.b5 < 256

pub mac_value-injective : (m n : Mac) → IsMac m → IsMac n → mac_value m ≡ mac_value n → m ≡ n
unfolding mac_value
mac_value-injective m n hm hn e = ground arith
