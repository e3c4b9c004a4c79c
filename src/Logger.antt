-- ===== src/Logger.antt =====
-- base_station/src/logger.cpp: the lines of the log, and the rotation of its files.
pub mod Files
pub mod Rotation
pub mod Leftovers
use iot_heater.Prelude.{ℕ, ◌+◌, ◌-◌, ◌*◌, List, [], ◌∷◌, ◌++◌, if◌then◌else◌, leb, ◌==◌, length}
use iot_heater.Text.{Bytes, codes}

abbrev pub max_log_filesize : ℕ
max_log_filesize = 1024 * 1024

abbrev pub max_log_count : ℕ
max_log_count = 16

-- The index, what was written to the open file `log-<index>.txt`, and the other files
-- `log-<n>.txt` of the directory with their texts. The index counts files on 64 bits and is not
-- wrapped.
pub record Log : Type 0 where
  pub index : ℕ
  pub text : Bytes
  pub others : List (ℕ × Bytes)

-- `unlink`: a file that is not there stays away.
unfoldable pub unlink : ℕ → List (ℕ × Bytes) → List (ℕ × Bytes)
unlink k [] = []
unlink k (f ∷ fs) = let rest = unlink k fs in if f.0 == k then rest else f ∷ rest

-- `startLogging`, on the files of the directory: an old file of this number is emptied.
unfoldable pub start_logging : List (ℕ × Bytes) → Log
unfolding unlink
start_logging files = record { index = 0; text = []; others = unlink 0 files }

-- The end of `log`: the file is closed, an old one goes, and the next is opened and emptied.
unfoldable pub rotate : Log → Log
unfolding unlink
rotate l =
    let index = l.index + 1 in
    let files = (l.index, l.text) ∷ l.others in
    let kept = if leb max_log_count index then unlink (index - max_log_count) files else files in
    record { index = index; text = []; others = unlink index kept }

-- The line that `log` writes, with what `strftime` makes of the time.
abbrev pub line : Bytes → Bytes → Bytes → Bytes
line prefix time s = b'[' ∷ (time ++ (codes "][" ++ (prefix ++ (codes "] " ++ (s ++ codes "\n")))))

-- `log`.
unfoldable pub log : Bytes → Bytes → Bytes → Log → Log
unfolding rotate
log prefix time s l =
    let text = l.text ++ line prefix time s in
    let l' = record l { text = text } in
    if leb max_log_filesize (length text) then rotate l' else l'

-- `err`, `warn`, `info` and `debug`.
pub data Level : Type 0 where
  err warn info debug : Level

abbrev pub prefix_of : Level → Bytes
prefix_of err = codes "ERR"
prefix_of warn = codes "WARN"
prefix_of info = codes "INFO"
prefix_of debug = codes "DEBUG"

-- A call of one of them.
pub record Entry : Type 0 where
  pub level : Level
  pub time : Bytes
  pub message : Bytes

abbrev pub entry_line : Entry → Bytes
entry_line e = line (prefix_of e.level) e.time e.message

-- Calls one after the other.
unfoldable pub log_all : List Entry → Log → Log
unfolding log
log_all [] l = l
log_all (e ∷ es) l = log_all es (log (prefix_of e.level) e.time e.message l)
