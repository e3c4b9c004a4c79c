-- ===== src/Lib.antt =====
-- A model of iot-heater: a base station that tells the controllers of electric heaters what to do,
-- and takes its orders as text messages (base_station/src), and the firmware of the controllers
-- (heater_firmware). Paths are from the root of the repository.
--
-- The parts and how they interact. The main loop of the base station calls one method after the
-- other (`BaseStation::process`): it reads the requests that controllers send and answers each with
-- a state, obeys the text messages that wait in a queue, and runs checks on timers. A controller
-- asks for its state each minute and drives two pins; before that, a web form gives it the settings
-- that it keeps in its EEPROM.
--
--   Prelude, Text, OrdMap  shared names, lists, byte strings with the tests and cuts that the code
--       uses, and `std::map`/`std::set` as sorted association lists over an interface of orders.
--   Wire  the 64-byte messages of base_station/src/base_station.cpp and
--       heater_firmware/commissioned.cpp.
--   BaseStation  base_station/src/base_station.cpp, with heater.cpp. State holds the members and the
--       effects: a method is a function from the members to the new members and the list of its
--       effects (text messages, writes of the state file, writes and closes of connections, reboot,
--       a call that stalls, access out of bounds). Persist is `saveState` and `loadState`; Commands
--       `parseCommands`
--       (Classify the chain of tests, Execute the branches, Queue the loop); Messages `parseMessage`
--       and `sendHeaterState`; Connections `handleConnections`, `handleNewDevice` and
--       `checkStaleConnections`; Modem the probes of the 3G module and of the daemon; Checks the
--       methods on timers; Process the round of all of them, with the steps of the threads around it;
--       Page `buildWebpage`.
--   Firmware  heater_firmware: Settings is settings.cpp, Uncommissioned uncommissioned.cpp,
--       Commissioned commissioned.cpp (Device the static variables, Talk the request and the reply,
--       Loop the setup and the loop, Network the WiFi calls of the setup, Index and Page the web
--       page), Webpages webpages.cpp. The EEPROM and `String` classes and the queue library are the
--       interfaces `Platform` and `ErrorQueue`, whose laws state what they document.
--       Boot is heater_firmware.ino: the mode that the settings choose.
--   Sms  the classes behind the text messages: Sender is sms_sender.cpp, over the files of the
--       outgoing directory, Receiver the parse of an incoming file in sms_receiver.cpp.
--   Logger  the lines and the rotation of the log files in logger.cpp.
--   Exchange  one request and its answer, through both programs; Orders and Pins the way of an order
--       from a text message to the pins of the controller.
--   Services  the threads and the entry point of the base station: Listener is device_server.cpp,
--       Watcher the thread of sms_receiver.cpp, WebServer web_server.cpp, Timing timer.cpp and
--       `wait_ms`, Options the command line of main.cpp and version.cpp, Launch the start of the
--       parts and the main loop between the calls of the threads.
--   Tests  runs on concrete inputs.
--
-- What the environment gives (clocks, what `read`, `write`, `poll`, `popen` and the files return,
-- that a timer has fired) is an argument. Unsigned counters keep their wrap-around, as does the
-- `size_t` arithmetic on lengths. Loops recurse on their data, and a number is printed with at most
-- 20 digits, enough below 2 ^ 64; the loop over pieces of the log has the length of the text as fuel,
-- which is enough as each round takes a byte at least; `wait_ms` has the nanoseconds asked for, as
-- each interrupted call takes one at least; the attempts to connect are three. The loops of threads
-- recurse on the turns that the system gives them, and the main loop on the rounds and the calls of
-- the threads between them. A text is a list of bytes; `std::isspace` and `toupper` are those
-- of the C locale.
--
-- Not modelled: lines that only go to the log; mutexes, a method that two threads call runs whole;
-- the memory of the threads; `get_mac_address`, which is one system call; the text of the help; the
-- blinking before a factory reset; the undefined `sprintf` of commissioned.cpp where no connection is
-- made, taken to do nothing; what lies in memory behind the settings or behind a local array without
-- a zero byte. In the methods of the base station a text message is an effect,
-- whatever becomes of it in the sender. Each message of a queue meets the system, the state file
-- included, as an argument of its own.
pub mod Prelude
pub mod Text
pub mod OrdMap
pub mod Wire
pub mod BaseStation
pub mod Logger
pub mod Sms
pub mod Firmware
pub mod Exchange
pub mod Services
pub mod Tests
