-- ===== src/BaseStation/Page/Clock.antt =====
-- The uptime of the page and of `DEBUG UPTIME`.
use iot_heater.Prelude.{ℕ, ◌+◌, ◌*◌, ◌%◌, ◌^◌, ◌<◌, ◌≡◌, some, arith, refl}
use iot_heater.BaseStation.Page.{Uptime, split_uptime, uptime_text, get_uptime_str}

-- The page shows days, hours below 24, minutes below 60 and seconds below 60 that come to the uptime
-- in seconds, modulo 2 ^ 32.
pub uptime_exact :
    (uptime : ℕ)
    → (u : Uptime) × (get_uptime_str (some uptime) ≡ uptime_text u)
      × (u.days * 86_400 + u.hours * 3600 + u.minutes * 60 + u.seconds ≡ uptime % 2 ^ 32)
      × (u.hours < 24)
      × (u.minutes < 60)
      × (u.seconds < 60)
unfolding get_uptime_str split_uptime
uptime_exact uptime =
    (split_uptime uptime, refl, omega arith, omega arith, omega arith, omega arith)
