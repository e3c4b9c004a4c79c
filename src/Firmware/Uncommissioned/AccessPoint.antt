-- ===== src/Firmware/Uncommissioned/AccessPoint.antt =====
-- `setup_uncommissioned`: the pins, the access point, the two pages.
use iot_heater.Prelude.{
  ℕ, ◌+◌, ◌≤◌, ◌<◌, false, List, [], ◌∷◌, ◌++◌, ◌≡◌, refl, arith, length, none,
}
use iot_heater.Text.{Bytes, codes, hex_byte}
use iot_heater.Wire.{Mac}
use iot_heater.BaseStation.Messages.{mac_str}
use iot_heater.Firmware.Webpages.{uncommissioned_index_html, fill, hex_word, length-fill}
use iot_heater.Firmware.Uncommissioned.{Setup, Form, Reply, page, nothing, null_access, register}

pub data PinMode : Type 0 where
  input output input_pullup : PinMode

-- What the setup leaves of the board: the modes of the four pins, and the access point.
pub record Board : Type 0 where
  pub led_pin : PinMode
  pub button_pin : PinMode
  pub positive_pin : PinMode
  pub negative_pin : PinMode
  pub ssid : Bytes
  pub password : Bytes
  pub address : List ℕ
  pub netmask : List ℕ
  pub domain : Bytes

-- `%02X` of the six bytes, without colons.
unfoldable pub mac_digits : Mac → Bytes
unfolding hex_byte
mac_digits m =
    hex_byte m.b0
    ++ (hex_byte m.b1 ++ (hex_byte m.b2 ++ (hex_byte m.b3 ++ (hex_byte m.b4 ++ hex_byte m.b5))))

unfoldable pub board_of : Mac → Board
unfolding mac_digits
board_of mac = record {
  led_pin = output;
  button_pin = input_pullup;
  positive_pin = input;
  negative_pin = input;
  ssid = codes "heater-" ++ mac_digits mac;
  password = mac_digits mac;
  address = 192 ∷ 168 ∷ 1 ∷ 1 ∷ [];
  netmask = 255 ∷ 255 ∷ 255 ∷ 0 ∷ [];
  domain = codes "www.heater.local";
}

-- The static variables behind the setup: zeros and empty strings, and the LED on.
unfoldable pub fresh_setup : Setup
fresh_setup = record {
  button_pressed = false;
  button_pressed_start = 0;
  joining = false;
  joining_start = 0;
  params = record { device_name = []; wifi_ssid = []; wifi_password = []; basestation_addr = [] };
  led = 1;
  blink = 0;
}

-- What a visit to the page reads.
pub record Visit : Type 0 where
  pub chip_id : ℕ
  pub fw_version : Bytes
  pub mac : Mac
  pub uptime : Bytes

-- The handler of `/`.
unfoldable pub index_page : Visit → Bytes
unfolding fill hex_word mac_str
index_page v =
    fill uncommissioned_index_html
      (hex_word v.chip_id ∷ v.fw_version ∷ mac_str v.mac ∷ v.uptime ∷ [])

-- The requests that the server gets: `webpage_buffer` keeps the page of the last visit, and is what
-- `/register` answers with.
pub data Web : Type 0 where
  visit : Visit → Web
  post : ℕ → Form → Web

pub record Site : Type 0 where
  pub statics : Setup
  pub buffer : Bytes

-- A request's answer; `none` is no answer.
pub data Answer : Type 0 where
  sent : Bytes → Answer
  unanswered crashed : Answer

abbrev answer_of : Reply → Bytes → Answer
answer_of page buffer = sent buffer
answer_of nothing buffer = unanswered
answer_of null_access buffer = crashed

unfoldable pub handle_web : Web → Site → Site × Answer
unfolding index_page register
handle_web (visit v) s = let text = index_page v in (record s { buffer = text }, sent text)
handle_web (post now form) s =
    let (statics', reply) = register now form s.statics in
    (record s { statics = statics' }, answer_of reply s.buffer)

-- The array `ssid` has 32 bytes, and so has `password`; a WPA password has 8 bytes at least.
pub board-fits :
    (mac : Mac)
    → (length (board_of mac).ssid < 32)
      × (length (board_of mac).password < 32)
      × (8 ≤ length (board_of mac).password)
unfolding board_of mac_digits hex_byte
board-fits mac = (omega arith, omega arith, omega arith)

-- The page of the access point fits in the 2048 bytes of `webpage_buffer` with its closing zero
-- byte, if the version and the uptime have at most 1000 bytes together.
pub form_page-fits :
    (v : Visit) → length v.fw_version + length v.uptime ≤ 1000 → length (index_page v) < 2048
unfolding index_page
form_page-fits v short =
    let args : List Bytes = hex_word v.chip_id ∷ v.fw_version ∷ mac_str v.mac ∷ v.uptime ∷ [] in
    let chip : length (hex_word v.chip_id) ≡ 8 = unfold hex_word hex_byte in refl in
    let address : length (mac_str v.mac) ≡ 17 = unfold mac_str hex_byte in refl in
    omega (arith, length-fill uncommissioned_index_html args, chip, address)

-- A form that is turned down before anyone has looked at the page is answered with nothing.
rejected_first :
    (now : ℕ) (form : Form)
    → form.name ≡ none
    → (handle_web (post now form) (record { statics = fresh_setup; buffer = [] })).1 ≡ sent []
unfolding handle_web register
rejected_first now form e = rw e refl
