-- ===== src/BaseStation/Page.antt =====
-- `buildWebpage` of base_station/src/base_station.cpp, with `get_uptime_str`, `get_machineinfo_str`
-- and `get_ip_address_str`.
pub mod Clock
pub mod Markup
pub mod Devices
use iot_heater.Prelude.{
  ℕ, ◌+◌, ◌-◌, ◌*◌, ◌/◌, ◌%◌, ◌^◌, Bool, true, false, List, [], ◌∷◌, ◌++◌, Option, none, some, leb,
  if◌then◌else◌,
}
use iot_heater.OrdMap.{Map}
use iot_heater.Text.{Bytes, codes, decimal}
use iot_heater.BaseStation.State.{Station, Heater, state_label}
use iot_heater.BaseStation.Messages.{mac_str}
use iot_heater.BaseStation.Modem.{
  ModemStatus, coms_failure, sim_error, not_registered, denied, registered, searching, unknown,
  roaming, SerialPort, ProcEntry, check_3g_module_presence, check_3g_connection, is_process_running,
}
use iot_heater.BaseStation.Checks.{mac_of_value}

-- `get_uptime_str`: days, hours, minutes and seconds of an `unsigned int`.
pub record Uptime : Type 0 where
  pub days : ℕ
  pub hours : ℕ
  pub minutes : ℕ
  pub seconds : ℕ

unfoldable pub split_uptime : ℕ → Uptime
split_uptime uptime =
    let secs = uptime % 2 ^ 32 in
    let days = secs / (60 * 60 * 24) in
    let day_left = secs - days * (60 * 60 * 24) in
    let hours = day_left / (60 * 60) in
    let hour_left = day_left - hours * (60 * 60) in
    let minutes = hour_left / 60 in
    record { days = days; hours = hours; minutes = minutes; seconds = hour_left - minutes * 60 }

unfoldable pub uptime_text : Uptime → Bytes
unfolding decimal
uptime_text u =
    decimal u.days
    ++ ((if leb u.days 1 then codes " day " else codes " days ")
        ++ (decimal u.hours
            ++ (codes "h "
                ++ (decimal u.minutes ++ (codes "m " ++ (decimal u.seconds ++ codes "s"))))))

-- `none` is a `sysinfo` that fails.
unfoldable pub get_uptime_str : Option ℕ → Bytes
unfolding split_uptime uptime_text
get_uptime_str none = codes "unknown"
get_uptime_str (some uptime) = uptime_text (split_uptime uptime)

-- `struct utsname`.
pub record MachineInfo : Type 0 where
  pub sysname : Bytes
  pub nodename : Bytes
  pub release : Bytes
  pub version : Bytes
  pub machine : Bytes

unfoldable pub get_machineinfo_str : Option MachineInfo → Bytes
get_machineinfo_str none = codes "unknown"
get_machineinfo_str (some u) =
    u.sysname
    ++ (b'-' ∷ (u.nodename ++ (b'-' ∷ (u.release ++ (b'-' ∷ (u.version ++ (b'-' ∷ u.machine)))))))

-- `get_ip_address_str`: what `inet_ntoa` makes of the address, if the socket opens and `ioctl`
-- finds the interface.
unfoldable pub get_ip_address_str : Bool → Option Bytes → Bytes
get_ip_address_str false address = codes "unknown"
get_ip_address_str true none = codes "unknown"
get_ip_address_str true (some address) = address

-- What the page reads of the system. `time_text` is `strftime` on the local time.
pub record Machine : Type 0 where
  pub version_str : Bytes
  pub uptime : Option ℕ
  pub machine_info : Option MachineInfo
  pub socket_opens : Bool
  pub own_address : Option Bytes
  pub usb2 : Bool
  pub usb3 : Bool
  pub port : SerialPort
  pub processes : Option (List ProcEntry)
  pub time_text : ℕ → Bytes

abbrev pub red : Bytes → Bytes
red text = codes "<span style=\"color:red\">" ++ (text ++ codes "</span>")

unfoldable pub status_text : ModemStatus → Bytes
status_text coms_failure = red (codes "comms failure")
status_text sim_error = red (codes "SIM card error")
status_text not_registered = codes "<p style=\"color:red\">not registered</span>"
status_text denied = red (codes "denied")
status_text registered = codes "OK"
status_text searching = codes "connecting"
status_text unknown = red (codes "unknown")
status_text roaming = codes "roaming"

unfoldable pub module_text : Machine → Bytes
unfolding status_text check_3g_connection check_3g_module_presence
module_text m =
    let detected = check_3g_module_presence m.usb2 m.usb3 in
    codes "3G module detected: "
    ++ ((if detected then codes "yes" else red (codes "no"))
        ++ (codes "<br>"
            ++ (if detected
                then codes "3G module network status: " ++ status_text (check_3g_connection m.port)
                else [])))

abbrev pub page_head : Bytes
page_head =
    codes
      "<html><head>        <style>        table, td, th {        border: 1px solid black;        }        table {        width: 100%;        border-collapse: collapse;        }        </style>        <title>Base station</title>        </head><body><h1>Base station</h1><h2>Device information</h2>Software version: "

unfoldable pub device_text : Machine → Bytes
unfolding get_uptime_str get_machineinfo_str get_ip_address_str module_text is_process_running
device_text m =
    m.version_str
    ++ (codes "<br>Uptime: "
        ++ (get_uptime_str m.uptime
            ++ (codes "<br>Machine info: "
                ++ (get_machineinfo_str m.machine_info
                    ++ (codes "<br>IP address: "
                        ++ (get_ip_address_str m.socket_opens m.own_address
                            ++ (codes "<br>"
                                ++ (module_text m
                                    ++ (codes "<br>SMS daemon: "
                                        ++ (if is_process_running (codes "smsd") m.processes
                                            then codes "running"
                                            else red (codes "not running")))))))))))

abbrev pub table_head : Bytes
table_head =
    codes
      "<br><table><tr><th>Name</th><th>MAC address</th><th>IP address</th><th>State</th><th>Last request timestamp</th></tr>"

abbrev pub shown_name : Bytes → Bytes
shown_name [] = codes "?"
shown_name (c ∷ s) = c ∷ s

-- A row of the table of heaters.
unfoldable pub row : (ℕ → Bytes) → ℕ → Heater → Bytes
unfolding mac_str mac_of_value
row time_text mac h =
    codes "<tr><td>"
    ++ (shown_name h.name
        ++ (codes "</td><td>"
            ++ (mac_str (mac_of_value mac)
                ++ (codes "</td><td><a href=\"http://"
                    ++ (h.ip_addr
                        ++ (codes "\">"
                            ++ (h.ip_addr
                                ++ (codes "</a></td><td>"
                                    ++ (state_label h.state
                                        ++ (codes "</td><td>"
                                            ++ (time_text h.last_request_timestamp
                                                ++ codes "</td></tr>")))))))))))

unfoldable pub rows : (ℕ → Bytes) → Map ℕ Heater → Bytes
unfolding row
rows time_text [] = []
rows time_text ((mac, h) ∷ m) = row time_text mac h ++ rows time_text m

-- `buildWebpage`.
unfoldable pub build_webpage : Machine → Station → Bytes
unfolding device_text rows
build_webpage m st =
    page_head
    ++ (device_text m
        ++ (codes "<h2>Heaters</h2>Default heater state: "
            ++ (state_label st.heater_default_state
                ++ (table_head
                    ++ (rows m.time_text st.heaters ++ codes "</table></body></html>")))))
