-- ===== src/Tests/Texts.antt =====
-- Text messages.
use iot_heater.Prelude.{none, true, [], ◌∷◌, some, ◌≡◌, refl, arith, inr}
use iot_heater.OrdMap.{find, contains}
use iot_heater.OrdMap.Keys.{str_order}
use iot_heater.Text.{
  codes, to_upper, is_alnum, all_bytes, check_heater_name, check_phone_number_format, is_digit,
  str_lt,
}
use iot_heater.BaseStation.State.{Station, initial}
use iot_heater.BaseStation.Validity.{IsName, IsValid}
use iot_heater.BaseStation.Persist.{render, load_state}
use iot_heater.BaseStation.Persist.RoundTrip.{restored, load_state-render}
use iot_heater.BaseStation.Commands.Classify.{normalise}
use iot_heater.BaseStation.Commands.Queue.{obey, parse_commands}
use iot_heater.BaseStation.Commands.Effects.{AllProper, obey-AllProper}
use iot_heater.BaseStation.Commands.Access.{Outsiders, run_rounds, run_rounds-Outsiders, behind}
use iot_heater.BaseStation.Commands.Synced.{IsSynced, file_after}
use iot_heater.BaseStation.Commands.Restart.{parse_commands-IsSynced, removal_not_saved}
use iot_heater.BaseStation.Process.{process}
use iot_heater.BaseStation.Persist.{construct}
use iot_heater.BaseStation.Commands.Queue.{handle_sms_command}
use iot_heater.BaseStation.Process.Reach.{started, stepped, message, round, IsReachable-IsValid}
use iot_heater.Tests.Samples.{station, probe, probes, phone, stranger, kitchen, quiet_round}

station-IsValid : IsValid station
unfolding check_heater_name check_phone_number_format to_upper is_alnum all_bytes is_digit str_lt
station-IsValid = record {
  names_sorted = ((refl, tt), (tt, tt));
  names = (
    record { checked = refl; capitals = refl },
    (record { checked = refl; capitals = refl }, tt),
  );
  phones_sorted = (tt, tt);
  phones = (refl, tt);
  emergency = inr refl;
}

kitchen-IsName : IsName kitchen
unfolding check_heater_name to_upper is_alnum all_bytes
kitchen-IsName = record { checked = refl; capitals = refl }

load_state-render_example : load_state (render station) initial ≡ restored station initial
load_state-render_example = load_state-render station station-IsValid

obey-AllProper_example : AllProper phone (obey probe phone (codes "UNLOCK 1234") station)
obey-AllProper_example = obey-AllProper probe phone (codes "UNLOCK 1234") station

abbrev locked_station : Station
locked_station = record station {
  locked = true;
  commands = (stranger, codes "ALL ON") ∷ (stranger, codes "UNLOCK 1234") ∷ [];
}

locked-Outsiders : Outsiders locked_station locked_station.commands
unfolding contains find str_lt
locked-Outsiders = (refl, (refl, tt))

run_rounds-Outsiders_example : run_rounds (probes ∷ probes ∷ []) locked_station ≡ (
  record locked_station { commands = behind (probes ∷ probes ∷ []) locked_station.commands },
  [],
)
run_rounds-Outsiders_example =
    run_rounds-Outsiders (probes ∷ probes ∷ []) locked_station refl (λ e. ground arith)
      locked-Outsiders

station-IsSynced : IsSynced (some (render station)) station
station-IsSynced = (render station, refl, load_state-render station station-IsValid)

abbrev busy_station : Station
busy_station = record station { commands = (phone, codes "ALL ON") ∷ [] }

busy-IsValid : IsValid busy_station
busy-IsValid = record {
  names_sorted = station-IsValid.names_sorted;
  names = station-IsValid.names;
  phones_sorted = station-IsValid.phones_sorted;
  phones = station-IsValid.phones;
  emergency = station-IsValid.emergency;
}

parse_commands-IsSynced_example :
    IsSynced
      (file_after (some (render station)) (parse_commands probes busy_station).1)
      (parse_commands probes busy_station).0
unfolding normalise
parse_commands-IsSynced_example =
    parse_commands-IsSynced (some (render station)) probes busy_station ((λ e. cc), tt) busy-IsValid
      station-IsSynced

removal_not_saved_example :
    ((obey probe phone (codes "remove emergency phone") station).0.emergency_phone ≡ [])
    × (file_after
          (some (render station))
          (obey probe phone (codes "remove emergency phone") station).1
        ≡ some (render station))
    × ¬ IsSynced
        (file_after
          (some (render station))
          (obey probe phone (codes "remove emergency phone") station).1)
        (obey probe phone (codes "remove emergency phone") station).0
unfolding normalise
removal_not_saved_example =
    removal_not_saved (some (render station)) probe phone (codes "remove emergency phone") station
      refl (λ e. cc) station-IsSynced

IsReachable-IsValid_example :
    IsValid
      (process quiet_round
        (handle_sms_command phone (codes "ADD PHONE 4410203040506") (construct none 3).0)).0
IsReachable-IsValid_example = IsReachable-IsValid (
    stepped (stepped (started none 3) (message phone (codes "ADD PHONE 4410203040506")))
      (round quiet_round))
