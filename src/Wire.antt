-- ===== src/Wire.antt =====
-- The 64-byte messages that heater controllers and the base station exchange: the packed structs
-- `message_header_t` of base_station/src/base_station.cpp and `message_t` of
-- heater_firmware/commissioned.cpp. Both sides keep `counter` in their memory order, which is
-- little-endian on the Raspberry Pi and on the ESP8266.
pub mod Laws
use iot_heater.Prelude.{
  ℕ, zero, suc, ◌+◌, ◌*◌, ◌/◌, ◌%◌, [], ◌∷◌, ◌++◌, Option, none, some, get_elem?, take, drop,
  length,
}
use iot_heater.Text.{Bytes}

abbrev pub message_size : ℕ
message_size = 64

-- `enum HeaterState` of the base station, `heater_state_t` of the firmware.
pub data HeaterState : Type 0 where
  off defrost eco comfort : HeaterState

-- The value of an enumerator, as the byte that is sent.
abbrev pub state_byte : HeaterState → ℕ
state_byte off = 0
state_byte defrost = 1
state_byte eco = 2
state_byte comfort = 3

abbrev pub req_heater_state : ℕ
req_heater_state = 1

abbrev pub heater_state_reply : ℕ
heater_state_reply = 2

-- `uint8_t mac_addr[6]`.
pub record Mac : Type 0 where
  pub b0 : ℕ
  pub b1 : ℕ
  pub b2 : ℕ
  pub b3 : ℕ
  pub b4 : ℕ
  pub b5 : ℕ

pub record Header : Type 0 where
  pub version : ℕ
  pub msg_type : ℕ
  pub mac : Mac
  pub counter : ℕ

-- The bytes of an unsigned integer in memory, lowest first, and back.
unfoldable pub le_bytes : ℕ → ℕ → Bytes
le_bytes zero n = []
le_bytes (suc k) n = n % 256 ∷ le_bytes k (n / 256)

unfoldable pub le_value : Bytes → ℕ
le_value [] = 0
le_value (b ∷ s) = b + 256 * le_value s

abbrev pub mac_bytes : Mac → Bytes
mac_bytes m = m.b0 ∷ m.b1 ∷ m.b2 ∷ m.b3 ∷ m.b4 ∷ m.b5 ∷ []

-- `memcpy(&buf[pos], src, sizeof src)`.
abbrev pub overwrite : Bytes → ℕ → Bytes → Bytes
overwrite buf pos src = take pos buf ++ (src ++ drop (pos + length src) buf)

-- The header as it lies in memory: the struct is packed.
abbrev pub header_bytes : Header → Bytes
header_bytes h = h.version ∷ h.msg_type ∷ (mac_bytes h.mac ++ le_bytes 8 h.counter)

-- The byte at a place of a buffer; the callers read within the 64 bytes of a message.
abbrev pub byte_at : Bytes → ℕ → ℕ
byte_at s i = elim (get_elem? s i) [ none ↦ 0 | some b ↦ b ]

-- The header at the start of a message.
unfoldable pub parse_header : Bytes → Header
parse_header d = record {
  version = byte_at d 0;
  msg_type = byte_at d 1;
  mac = record {
    b0 = byte_at d 2;
    b1 = byte_at d 3;
    b2 = byte_at d 4;
    b3 = byte_at d 5;
    b4 = byte_at d 6;
    b5 = byte_at d 7;
  };
  counter = le_value (take 8 (drop 8 d));
}

-- The MAC address as a number. The six shifted bytes share no bit, so `|` is `+`.
unfoldable pub mac_value : Mac → ℕ
mac_value m =
    m.b0 * 0x100_0000_0000
    + m.b1 * 0x1_0000_0000
    + m.b2 * 0x100_0000
    + m.b3 * 0x1_0000
    + m.b4 * 0x100
    + m.b5
