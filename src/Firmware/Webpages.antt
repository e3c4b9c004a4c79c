-- ===== src/Firmware/Webpages.antt =====
-- heater_firmware/webpages.cpp: the two pages, each as the texts between its conversions, in order,
-- and what `sprintf` makes of them.
use iot_heater.Prelude.{ℕ, ◌+◌, ◌≤◌, ◌/◌, ◌%◌, List, [], ◌∷◌, ◌++◌, arith, length, length-append}
use iot_heater.Text.{Bytes, codes, hex_byte}

-- The texts with the arguments between them.
unfoldable pub fill : List Bytes → List Bytes → Bytes
fill [] args = []
fill (text ∷ texts) [] = text ++ fill texts []
fill (text ∷ texts) (arg ∷ args) = text ++ (arg ++ fill texts args)

-- `%08X` on 32 bits.
unfoldable pub hex_word : ℕ → Bytes
unfolding hex_byte
hex_word n =
    hex_byte (n / 0x100_0000 % 256)
    ++ (hex_byte (n / 0x1_0000 % 256) ++ (hex_byte (n / 0x100 % 256) ++ hex_byte (n % 256)))

-- The page of the access point: chip, version, address, uptime.
abbrev pub uncommissioned_index_html : List Bytes
uncommissioned_index_html =
    codes
      "\n<!DOCTYPE HTML>\n<html>\n<head>\n    <meta name=\"viewport\" content=\"width=device-width, initial-scale=1\">\n    <title>Heater registration</title>\n</head>\n<body>\n    <h1>Heater controller</h1>\n    <h2>Device information</h2>\n    ESP8266 chip ID: "
    ∷ codes "\n    <br>\n    Firmware version: "
    ∷ codes "\n    <br>\n    AP MAC address: "
    ∷ codes "\n    <br>\n    Uptime: "
    ∷ codes
        "\n    <h2>Registration</h2>\n    <form action=\"/register\" method=\"post\">\n        Name:<br>\n        <input type=\"text\" name=\"name\" maxlength=\"31\" required=\"required\" pattern=\"[A-Za-z0-9]+\">\n        <br>\n        WiFi name:<br>\n        <input type=\"text\" name=\"ssid\" maxlength=\"63\" required=\"required\">\n        <br>\n        WiFi password:<br>\n        <input type=\"password\" name=\"password\" maxlength=\"63\">\n        <br>\n        Base station hostname/IP address:<br>\n        <input type=\"text\" name=\"basestation\" value=\"basestation\" maxlength=\"63\">\n        <br>\n        <input type=\"submit\" value=\"Register\">\n    </form>\n</body>\n</html>\n"
    ∷ []

-- The page of a controller in service: name, name, chip, version, address, uptime, signal strength,
-- level, base station, state, time of the last reply, count of errors, list of errors.
abbrev pub commissioned_index_html : List Bytes
commissioned_index_html =
    codes
      "\n<!DOCTYPE HTML>\n<html>\n<head>\n  <meta name=\"viewport\" content=\"width=device-width, initial-scale=1\">\n  <title>Heater - "
    ∷ codes "</title>\n</head>\n<body>\n  <h1>Heater controller - "
    ∷ codes "</h1>\n  <h2>Device information</h2>\n  ESP8266 chip ID: "
    ∷ codes "\n  <br>\n  Firmware version: "
    ∷ codes "\n  <br>\n  MAC address: "
    ∷ codes "\n  <br>\n  Uptime: "
    ∷ codes "\n  <br>\n  WiFi signal strength (RSSI): "
    ∷ codes " dBm ("
    ∷ codes ")\n  <br>\n  Base station addr: "
    ∷ codes "\n  <br>\n  Heater state: "
    ∷ codes "\n  <br>\n  Last heater state reply from base station: "
    ∷ codes "\n  <br>\n  Error count since boot: "
    ∷ codes
        "\n  <br>\n  <br>\n  <form action=\"/unregister\" method=\"post\">\n      <button name=\"unregister\" value=\"unregister\">Reset configuration</button>\n  </form>\n  <h2>Errors</h2>\n  "
    ∷ codes "\n</body>\n</html>\n"
    ∷ []

abbrev pub total : List Bytes → ℕ
total [] = 0
total (s ∷ ss) = length s + total ss

pub length-fill : (texts args : List Bytes) → length (fill texts args) ≤ total texts + total args
unfolding fill
length-fill [] args = omega arith
length-fill (text ∷ texts) [] =
    omega (arith, length-append text (fill texts []), length-fill texts [])
length-fill (text ∷ texts) (arg ∷ args) = omega (
  arith,
  length-append text (arg ++ fill texts args),
  length-append arg (fill texts args),
  length-fill texts args,
)
