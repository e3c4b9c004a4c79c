-- ===== src/Exchange/Request.antt =====
-- The request of a controller as it lies in its 64 bytes.
use iot_heater.Prelude.{
  ℕ, ◌+◌, ◌<◌, ◌∷◌, ◌++◌, ◌≡◌, refl, ap, ◌∙◌, arith, length, length-append, length-drop, drop,
  append_assoc, replicate,
}
use iot_heater.Text.{Bytes}
use iot_heater.Wire.{Header, message_size, req_heater_state, overwrite, header_bytes, le_bytes}
use iot_heater.Firmware.Settings.{Platform, created, settings_get_name}
use iot_heater.Firmware.Settings.Check.{char_array-shape}
use iot_heater.Firmware.Settings.Storage.Layout.{length-char_array}
use iot_heater.Firmware.Commissioned.Device.{Device}
use iot_heater.Firmware.Commissioned.Talk.{Turn, request_message}

-- The header of a request.
abbrev pub request_header : {Q : Type 0} → Turn → Device Q → Header
request_header t d = record {
  version = 1;
  msg_type = req_heater_state;
  mac = t.mac;
  counter = d.msg_counter;
}

-- The request as it lies in memory.
request_message-shape :
    {Q : Type 0} (t : Turn) (d : Device Q)
    → request_message t d
      ≡ header_bytes (request_header t d)
        ++ (settings_get_name d.settings
            ++ drop
                (16 + length (settings_get_name d.settings))
                (header_bytes (request_header t d) ++ replicate 48 0xFF))
unfolding request_message le_bytes
request_message-shape t d = refl

created-name :
    (p : Platform) (name ssid password addr : Bytes)
    → settings_get_name (created p name ssid password addr)
      ≡ overwrite (replicate 32 0) 0 (p.to_char_array name 32)
unfolding created
created-name p name ssid password addr = refl

-- The request of a controller that was set up under a name: the name ends with a zero byte.
pub named_request :
    {Q : Type 0} (p : Platform) (t : Turn) (d : Device Q) (name ssid password addr : Bytes)
    → d.settings ≡ created p name ssid password addr
    → length name < 32
    → (rest : Bytes) × (request_message t d
        ≡ header_bytes (request_header t d) ++ (name ++ 0 ∷ rest))
      × (length (request_message t d) ≡ message_size)
named_request p t d name ssid password addr e short =
    let h : Bytes = header_bytes (request_header t d) in
    let field : Bytes = settings_get_name d.settings in
    let made : field ≡ overwrite (replicate 32 0) 0 (p.to_char_array name 32) =
      ap settings_get_name e ∙ created-name p name ssid password addr in
    let size : length field ≡ 32 = ap length made ∙ length-char_array p name 32 (omega arith) in
    let tail : Bytes = drop (16 + length field) (h ++ replicate 48 0xFF) in
    let r : Bytes = drop (0 + length (p.to_char_array name 32)) (replicate 32 0) in
    let shape : request_message t d ≡ h ++ (field ++ tail) = request_message-shape t d in
    let head : length h ≡ 16 = unfold le_bytes in refl in
    let ones : length (replicate {A = ℕ} 48 0xFF) ≡ 48 = refl in
    (
      r ++ tail,
      shape
          ∙ ap (λ (x : Bytes). h ++ (x ++ tail)) (made ∙ char_array-shape p name 32 short)
          ∙ ap (λ (x : Bytes). h ++ x) (append_assoc name (0 ∷ r) tail),
      ap length shape
          ∙ omega (
            arith,
            head,
            ones,
            size,
            length-append h (field ++ tail),
            length-append field tail,
            length-drop (16 + length field) (h ++ replicate 48 0xFF),
            length-append h (replicate 48 0xFF),
          ),
    )
