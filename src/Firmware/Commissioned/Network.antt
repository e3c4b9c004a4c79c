-- ===== src/Firmware/Commissioned/Network.antt =====
-- The rest of `setup_commissioned`: the network that the controller joins and the handler of
-- `/unregister`; and `wifi_got_ip`.
use iot_heater.Prelude.{◌<◌, true, ◌++◌, ◌≡◌, refl, ap, ◌∙◌, arith, All, All-imp, length, take}
use iot_heater.Text.{Bytes, codes}
use iot_heater.Firmware.Settings.{
  Platform, Settings, settings_create, settings_load, settings_erase, settings_get_name,
  settings_get_ssid, settings_get_password, settings_get_basestation, c_str, created,
}
use iot_heater.Firmware.Settings.Check.{c_str-char_array}
use iot_heater.Firmware.Settings.Storage.{settings_load-create}
use iot_heater.Firmware.Uncommissioned.{Params, check_params}
use iot_heater.Firmware.Uncommissioned.Commissioning.{IsCStr, check_params-bounds, is_alnum-CStr}

-- What is handed to the WiFi library: the arguments of `WiFi.hostname` and `WiFi.begin`.
pub record WifiConfig : Type 0 where
  pub hostname : Bytes
  pub ssid : Bytes
  pub password : Bytes

-- The getters copy the arrays to the stack, and the library reads them up to the zero byte.
unfoldable pub station_of : Settings → WifiConfig
unfolding c_str
station_of s = record {
  hostname = codes "heater-" ++ c_str (settings_get_name s);
  ssid = c_str (settings_get_ssid s);
  password = c_str (settings_get_password s);
}

-- The host that a request is sent to: `basestation_addr`.
unfoldable pub base_station_host : Settings → Bytes
unfolding c_str
base_station_host s = c_str (settings_get_basestation s)

-- `wifi_got_ip`: the line of the log, of which `buf2` takes 30 bytes, and the name under which the
-- controller is announced.
unfoldable pub wifi_got_ip : Bytes → Settings → Bytes × Bytes
unfolding c_str
wifi_got_ip ip s = (codes "IP: " ++ take 30 ip, c_str (settings_get_name s))

-- The handler of `/unregister`: what the EEPROM holds at the restart.
unfoldable pub unregister : (p : Platform) → p.Memory → p.Memory
unfolding settings_erase
unregister p m = (settings_erase p m).1

check_params-password : (q : Params) → check_params q ≡ true → length q.wifi_password < 63
unfolding check_params
check_params-password q h = ground arith

-- The four strings, read back from what `settings_create` fills in.
module _ (p : Platform) (name ssid password basestation : Bytes) where
  station_of-created :
      length name < 32
      → length ssid < 64
      → length password < 64
      → All (λ c. 0 < c) name
      → All (λ c. 0 < c) ssid
      → All (λ c. 0 < c) password
      → station_of (created p name ssid password basestation)
        ≡ record { hostname = codes "heater-" ++ name; ssid = ssid; password = password }
  unfolding station_of created
  station_of-created l1 l2 l3 z1 z2 z3 =
      rw
        (
          c_str-char_array p name 32 l1 z1,
          c_str-char_array p ssid 64 l2 z2,
          c_str-char_array p password 64 l3 z3,
        )
        refl

  host-created :
      length basestation < 32
      → All (λ c. 0 < c) basestation
      → base_station_host (created p name ssid password basestation) ≡ basestation
  unfolding base_station_host created
  host-created l z = c_str-char_array p basestation 32 l z

IsCStr-positive : (s : Bytes) → IsCStr s → All (λ c. 0 < c) s
IsCStr-positive s h = All-imp _ _ (λ c x. x.0) s h

IsCStr-bytes : (s : Bytes) → IsCStr s → All (λ c. c < 256) s
IsCStr-bytes s h = All-imp _ _ (λ c x. x.1) s h

-- For parameters that pass `check_params`, none of them with a zero byte: after `settings_create`, a
-- restart and `settings_load`, the controller joins the network of that name with that password
-- under `heater-<name>`, and sends its requests to that host.
pub network-created :
    (p : Platform) (q : Params) (m : p.Memory)
    → check_params q ≡ true
    → IsCStr q.wifi_ssid
    → IsCStr q.wifi_password
    → IsCStr q.basestation_addr
    → let m' =
        (settings_create p q.device_name q.wifi_ssid q.wifi_password q.basestation_addr m).1 in
      let s = (settings_load p (p.restart m')).0 in
      (station_of s ≡ record {
        hostname = codes "heater-" ++ q.device_name;
        ssid = q.wifi_ssid;
        password = q.wifi_password;
      })
      × (base_station_host s ≡ q.basestation_addr)
network-created p q m ok w k b =
    let (l1, l2, l3, n1, n2, n3, al) = check_params-bounds q ok in
    let n : IsCStr q.device_name = is_alnum-CStr q.device_name al in
    let loaded =
      (settings_load-create p q.device_name q.wifi_ssid q.wifi_password q.basestation_addr m
        (IsCStr-bytes q.device_name n) (IsCStr-bytes q.wifi_ssid w) (IsCStr-bytes q.wifi_password k)
        (IsCStr-bytes q.basestation_addr b)).0 in
    let joined =
      station_of-created p q.device_name q.wifi_ssid q.wifi_password q.basestation_addr
        (omega arith) (omega arith) (omega (arith, check_params-password q ok))
        (IsCStr-positive q.device_name n) (IsCStr-positive q.wifi_ssid w)
        (IsCStr-positive q.wifi_password k) in
    let host =
      host-created p q.device_name q.wifi_ssid q.wifi_password q.basestation_addr (omega arith)
        (IsCStr-positive q.basestation_addr b) in
    (
      ap station_of loaded ∙ (unfold settings_create in joined),
      ap base_station_host loaded ∙ (unfold settings_create in host),
    )
