-- ===== src/Tests/Board.antt =====
-- An EEPROM, a `String` class and an error queue that fill the interfaces of the firmware.
use iot_heater.Prelude.{
  ℕ, ◌-◌, List, [], ◌∷◌, ◌++◌, refl, if◌then◌else◌, leb, ◌==◌, length, take, drop,
}
use iot_heater.Firmware.Settings.{Platform}
use iot_heater.Firmware.Commissioned.Device.{ErrorRecord, ErrorQueue}

-- The memory: what was written, and what was committed of it.
abbrev Cells : Type 0
Cells = (ℕ → ℕ) × (ℕ → ℕ)

abbrev set_cell : ℕ → ℕ → Cells → Cells
set_cell j v (now, kept) = ((λ i. if i == j then v else now i), kept)

abbrev pub board : Platform
board = record {
  Memory = Cells;
  begin = λ m. (m.1, m.1);
  read = λ i m. m.0 i;
  write = set_cell;
  commit = λ m. (m.0, m.0);
  restart = λ m. ((λ _. 0), m.1);
  to_char_array = λ s n. take (n - 1) s ++ (0 ∷ []);
  read-write = λ i j v m a b c. refl;
  read-restart = λ i m a. refl;
  to_char_array-take = λ s n pos. refl;
}

abbrev pub blank : board.Memory
blank = ((λ _. 0xFF), (λ _. 0xFF))

-- The queue is the list of its records.
abbrev pub list_queue : ErrorQueue
list_queue = record {
  Queue = List ErrorRecord;
  empty = [];
  is_full = λ q. leb 5 (length q);
  push = λ r q. q ++ (r ∷ []);
  drop_oldest = drop 1;
  contents = λ q. q;
  contents-empty = refl;
  is_full-length = λ q. refl;
  contents-push = λ r q h. refl;
  contents-drop_oldest = λ q. refl;
}
