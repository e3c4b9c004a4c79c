-- ===== src/BaseStation/Process/Reach.antt =====
-- The main loop with the threads around it: between two rounds the thread of the device server may
-- hand over a connection and the thread of the receiver a text message, in any order. Each
-- of the three is taken to run whole, although `parseCommands` does not take the queue's mutex.
use iot_heater.Prelude.{ℕ, Option}
use iot_heater.Text.{Bytes}
use iot_heater.BaseStation.State.{Station}
use iot_heater.BaseStation.Validity.{IsValid}
use iot_heater.BaseStation.Persist.{construct}
use iot_heater.BaseStation.Persist.Loaded.{construct-IsValid}
use iot_heater.BaseStation.Commands.Queue.{handle_sms_command}
use iot_heater.BaseStation.Connections.{handle_new_device}
use iot_heater.BaseStation.Process.{Round, process}
use iot_heater.BaseStation.Process.Invariant.{process-IsValid}

-- One step of the program.
pub data Step : Station → Station → Type 0 where
  round : {st : Station} (r : Round) → Step st (process r st).0
  connection : {st : Station} (fd now : ℕ) → Step st (handle_new_device fd now st)
  message : {st : Station} (from content : Bytes) → Step st (handle_sms_command from content st)

-- The stations that the program can reach from a start on some state file.
pub data IsReachable : Station → Type 0 where
  started : (file : Option Bytes) (word : ℕ) → IsReachable (construct file word).0
  stepped : {st st' : Station} → IsReachable st → Step st st' → IsReachable st'

Step-IsValid : {st st' : Station} → Step st st' → IsValid st → IsValid st'
unfolding handle_new_device handle_sms_command
Step-IsValid {st} (round r) v = process-IsValid r st v
Step-IsValid {st} (connection fd now) v = record {
  names_sorted = v.names_sorted;
  names = v.names;
  phones_sorted = v.phones_sorted;
  phones = v.phones;
  emergency = v.emergency;
}
Step-IsValid {st} (message from content) v = record {
  names_sorted = v.names_sorted;
  names = v.names;
  phones_sorted = v.phones_sorted;
  phones = v.phones;
  emergency = v.emergency;
}

-- Every station that the program reaches, from a start on any state file or none, by rounds of the
-- main loop, new connections and new text messages in any order, has well-formed settings: maps in
-- order, names of letters and digits in capitals, numbers in the checked format.
pub IsReachable-IsValid : {st : Station} → IsReachable st → IsValid st
IsReachable-IsValid (started file word) = construct-IsValid file word
IsReachable-IsValid (stepped r s) = Step-IsValid s (IsReachable-IsValid r)
