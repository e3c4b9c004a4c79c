-- ===== src/Services/Watcher/Delivery.antt =====
-- From a file of the incoming directory to the state of a heater, through the queue.
use iot_heater.Prelude.{
  true, false, List, [], ◌∷◌, ◌++◌, Option, none, some, ◌≡◌, ◌≢◌, refl, ap, ◌∙◌, arith, append-nil,
  append_assoc, All, if◌then◌else◌, Option-cases, inl, inr,
}
use iot_heater.OrdMap.{same}
use iot_heater.OrdMap.Keys.{str_order}
use iot_heater.Text.{Bytes}
use iot_heater.Text.Lines.{Free}
use iot_heater.Sms.Receiver.{parse_sms, join_lines}
use iot_heater.Sms.Receiver.Incoming.{sms_file, Digits, parse_sms-sms_file}
use iot_heater.BaseStation.State.{Station}
use iot_heater.Wire.{HeaterState}
use iot_heater.BaseStation.Validity.{IsName}
use iot_heater.BaseStation.Messages.{wanted_state}
use iot_heater.BaseStation.Commands.Classify.{normalise}
use iot_heater.BaseStation.Commands.Execute.{Probes}
use iot_heater.BaseStation.Commands.Queue.{
  parse_commands, run_queue, handle_sms_command, is_refused, obey,
}
use iot_heater.BaseStation.Commands.Grammar.{Suffix, suffix_state, heater_text}
use iot_heater.BaseStation.Commands.Results.{heater_command}
use iot_heater.Services.Watcher.{
  Turn, cleared, poll_failed, timeout, read_failed, changed, incoming_dir, take_message, watch, run,
}

-- The messages that the turns bring, in order: the first file of each event.
abbrev pub received : List Turn → List (Bytes × Bytes)
received [] = []
received (cleared ∷ ts) = []
received (poll_failed ∷ ts) = []
received (timeout ∷ ts) = received ts
received (read_failed ∷ ts) = received ts
received (changed name others files ∷ ts) = elim (parse_sms (files (incoming_dir ++ name))) [
  | none ↦ received ts
  | some m ↦ m ∷ received ts
]

take_message-queue :
    (name : Bytes) (files : Bytes → Option Bytes) (st : Station)
    → take_message handle_sms_command name files st
      ≡ elim (parse_sms (files (incoming_dir ++ name))) [
        | none ↦ st
        | some m ↦ record st { commands = st.commands ++ m ∷ [] }
      ]
unfolding take_message handle_sms_command
take_message-queue name files st = ground arith

-- The loop puts the first message of each event, if its file parses, at the end of the queue, in
-- order, and changes nothing else.
pub watch-queue :
    (ts : List Turn) (st : Station)
    → (watch handle_sms_command ts st).state ≡ record st { commands = st.commands ++ received ts }
unfolding watch
watch-queue [] st = rw (append-nil st.commands) refl
watch-queue (cleared ∷ ts) st = rw (append-nil st.commands) refl
watch-queue (poll_failed ∷ ts) st = rw (append-nil st.commands) refl
watch-queue (timeout ∷ ts) st = watch-queue ts st
watch-queue (read_failed ∷ ts) st = watch-queue ts st
watch-queue (changed name others files ∷ ts) st =
    watch-queue ts (take_message handle_sms_command name files st)
    ∙ (elim (Option-cases (parse_sms (files (incoming_dir ++ name)))) [
      | inl e ↦ rw (take_message-queue name files st) (rw (e, received) refl)
      | inr (m, e) ↦ rw (take_message-queue name files st) (rw (e, received) (rw append_assoc refl))
    ])

-- The queue is no part of what a device is answered.
wanted_state-commands :
    (name : Bytes) (q : List (Bytes × Bytes)) (st : Station)
    → wanted_state name (record st { commands = q }) ≡ wanted_state name st
unfolding wanted_state
wanted_state-commands [] q st = refl
wanted_state-commands (c ∷ s) q st = refl

-- A message that is alone in the queue, and not refused, is obeyed.
parse_commands-one :
    (p : Probes) (from text : Bytes) (st : Station)
    → st.commands ≡ (from, text) ∷ []
    → is_refused from st ≡ false
    → (parse_commands p st).0 ≡ record (obey (p 0) from text st).0 { commands = [] }
unfolding parse_commands run_queue
parse_commands-one p from text st q nr = rw (q, run_queue) (rw (nr, run_queue) refl)

-- A file with a message from a sender of digits, reported while no message waits: the receiver puts
-- its message into the queue.
pub message_file-queued :
    (from name : Bytes) (header text : List Bytes) (others : List Bytes)
    (files : Bytes → Option Bytes) (st : Station)
    → Digits from
    → All (Free b'\n') header
    → All (λ l. l ≢ []) header
    → All (Free b'\n') text
    → files (incoming_dir ++ name) ≡ some (sms_file from header text)
    → st.commands ≡ []
    → (run handle_sms_command true true (changed name others files ∷ []) st).state
      ≡ record st { commands = (from, join_lines text) ∷ [] }
unfolding run
message_file-queued from name header text others files st d f1 f2 f3 e q =
    let m : Bytes × Bytes = (from, join_lines text) in
    let parsed : parse_sms (files (incoming_dir ++ name)) ≡ some m =
      ap parse_sms e ∙ parse_sms-sms_file from header text d f1 f2 f3 in
    watch-queue (changed name others files ∷ []) st ∙ rw (parsed, received) (rw q refl)

-- A file of the incoming directory that names a sender of digits and holds, behind its header,
-- lines that come to `HEATER <name> <state>` with a well-formed name: when inotify reports it and no
-- message waits, the receiver hands it over, and the next `parseCommands` empties the queue and sets
-- the state wanted for that name, and for no other, unless the sender is refused.
pub message_file-obeyed :
    (p : Probes) (from name : Bytes) (header text : List Bytes) (others : List Bytes)
    (files : Bytes → Option Bytes) (w : Suffix) (heater other : Bytes) (st : Station)
    → Digits from
    → All (Free b'\n') header
    → All (λ l. l ≢ []) header
    → All (Free b'\n') text
    → files (incoming_dir ++ name) ≡ some (sms_file from header text)
    → st.commands ≡ []
    → is_refused from st ≡ false
    → IsName heater
    → normalise (join_lines text) ≡ heater_text heater w
    → let st' =
        (parse_commands p
          (run handle_sms_command true true (changed name others files ∷ []) st).state).0 in
      (st'.commands ≡ [])
      × (wanted_state other st'
          ≡ (if same other heater then suffix_state w else wanted_state other st))
unfolding run is_refused
message_file-obeyed p from name header text others files w heater other st d f1 f2 f3 e q nr n c =
    let m : Bytes × Bytes = (from, join_lines text) in
    let queued : Station = record st { commands = m ∷ [] } in
    let arrived = message_file-queued from name header text others files st d f1 f2 f3 e q in
    let done = parse_commands-one p from (join_lines text) queued refl nr in
    rw arrived (
      rw done (
        refl,
        wanted_state-commands other [] (obey (p 0) from (join_lines text) queued).0
            ∙ heater_command (p 0) from (join_lines text) heater other w queued n c
            ∙ ap (λ (s : HeaterState). if same other heater then suffix_state w else s)
                (wanted_state-commands other (m ∷ []) st),
      ))
