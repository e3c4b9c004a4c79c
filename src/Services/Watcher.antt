-- ===== src/Services/Watcher.antt =====
-- `SMSReceiver` of base_station/src/sms_receiver.cpp around `parseSMS`: the thread that watches the
-- directory of incoming text messages with inotify.
pub mod Delivery
use iot_heater.Prelude.{
  ℕ, Bool, true, false, List, [], ◌∷◌, ◌++◌, Option, none, some, if◌then◌else◌,
}
use iot_heater.Text.{Bytes, codes}
use iot_heater.Sms.Receiver.{parse_sms}

pub record Receiver : Type 0 where
  pub running : Bool
  pub has_thread : Bool

-- The constructor.
unfoldable pub created : Receiver
created = record { running = false; has_thread = false }

unfoldable pub start : Receiver → Receiver
start r = if r.running then r else record { running = true; has_thread = true }

unfoldable pub stop : Receiver → Receiver
stop r = if r.running then record { running = false; has_thread = false } else r

-- The destructor ends the thread and joins it, and leaves the pointer.
unfoldable pub destroy : Receiver → Receiver
destroy r = if r.running then record r { running = false } else r

abbrev pub incoming_dir : Bytes
incoming_dir = codes "/var/spool/sms/incoming/"

-- A turn of the loop: its test finds the flag cleared, or `poll` fails or times out, or `read`
-- fails, or gives the names of the changed files, one event at least, with what the files hold by
-- then; `none` is a file that does not open.
pub data Turn : Type 0 where
  cleared poll_failed timeout read_failed : Turn
  changed : Bytes → List Bytes → (Bytes → Option Bytes) → Turn

-- How the thread ends: `no_inotify` and the two failures are exceptions.
pub data Ending : Type 0 where
  stopped no_inotify no_watch threw waiting : Ending

pub record Watched (S : Type 0) : Type 0 where
  pub state : S
  pub watching : Bool
  pub ending : Ending

-- `parseSMS` with its callback, on the file of an event.
unfoldable pub take_message :
    {S : Type 0} → (Bytes → Bytes → S → S) → Bytes → (Bytes → Option Bytes) → S → S
unfolding parse_sms
take_message callback name files s = elim (parse_sms (files (incoming_dir ++ name))) [
  | none ↦ s
  | some (from, text) ↦ callback from text s
]

-- The loop. Of the events that a `read` gives, only the first is looked at. The descriptor is
-- closed behind the loop, and stays open where an exception leaves it.
unfoldable pub watch : {S : Type 0} → (Bytes → Bytes → S → S) → List Turn → S → Watched S
unfolding take_message
watch callback [] s = record { state = s; watching = true; ending = waiting }
watch callback (cleared ∷ ts) s = record { state = s; watching = false; ending = stopped }
watch callback (poll_failed ∷ ts) s = record { state = s; watching = true; ending = threw }
watch callback (timeout ∷ ts) s = watch callback ts s
watch callback (read_failed ∷ ts) s = watch callback ts s
watch callback (changed name others files ∷ ts) s =
    watch callback ts (take_message callback name files s)

-- `run`: what `inotify_init` and `inotify_add_watch` give, and the loop.
unfoldable pub run :
    {S : Type 0} → (Bytes → Bytes → S → S) → Bool → Bool → List Turn → S → Watched S
unfolding watch
run callback init_works watch_works ts s =
    if init_works
    then (if watch_works
        then watch callback ts s
        else record { state = s; watching = false; ending = no_watch })
    else record { state = s; watching = false; ending = no_inotify }
