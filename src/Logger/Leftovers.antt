-- ===== src/Logger/Leftovers.antt =====
-- What becomes of the log files of an earlier run.
use iot_heater.Prelude.{
  ℕ, ◌+◌, ◌-◌, ◌≤◌, ◌<◌, List, [], ◌∷◌, ◌++◌, ◌≡◌, refl, ◌∙◌, arith, length, leb, Bool-cases, inl,
  inr,
}
use iot_heater.Logger.{
  Log, Entry, entry_line, prefix_of, unlink, start_logging, rotate, log, log_all, max_log_filesize,
  max_log_count,
}
use iot_heater.Logger.Files.{Files, read, read-unlink, read-other}

rotate-old : (k : ℕ) (l : Log) → l.index + 1 < k → read k (rotate l).others ≡ read k l.others
unfolding rotate
rotate-old k l h =
    let i : ℕ = l.index in
    let files : Files = (i, l.text) ∷ l.others in
    let other = read-other k i l.text l.others (λ e. omega (arith, h)) in
    elim (Bool-cases (leb max_log_count (i + 1))) [
      | inl full ↦ rw full (
          read-unlink k (i + 1) (unlink (i + 1 - 16) files) (λ e. omega (arith, h))
          ∙ read-unlink k (i + 1 - 16) files (λ e. omega (arith, h))
          ∙ other)
      | inr room ↦ rw room (read-unlink k (i + 1) files (λ e. omega (arith, h)) ∙ other)
    ]

log-index : (e : Entry) (l : Log) → l.index ≤ (log (prefix_of e.level) e.time e.message l).index
unfolding log rotate
log-index e l = elim (Bool-cases (leb max_log_filesize (length (l.text ++ entry_line e)))) [
  | inl full ↦ rw full (omega arith)
  | inr room ↦ rw room (omega arith)
]

log-old :
    (k : ℕ) (e : Entry) (l : Log)
    → (log (prefix_of e.level) e.time e.message l).index < k
    → read k (log (prefix_of e.level) e.time e.message l).others ≡ read k l.others
unfolding log
log-old k e l = elim (Bool-cases (leb max_log_filesize (length (l.text ++ entry_line e)))) [
  | inl full ↦
      rw full (λ h. rotate-old k (record l { text = l.text ++ entry_line e }) (unfold rotate in h))
  | inr room ↦ rw room (λ h. refl)
]

log_all-index : (es : List Entry) (l : Log) → l.index ≤ (log_all es l).index
unfolding log_all
log_all-index [] l = omega arith
log_all-index (e ∷ es) l =
    let next : Log = log (prefix_of e.level) e.time e.message l in
    omega (arith, log-index e l, log_all-index es next)

log_all-old :
    (k : ℕ) (es : List Entry) (l : Log)
    → (log_all es l).index < k
    → read k (log_all es l).others ≡ read k l.others
unfolding log_all
log_all-old k [] l h = refl
log_all-old k (e ∷ es) l h =
    let next : Log = log (prefix_of e.level) e.time e.message l in
    log_all-old k es next h ∙ log-old k e l (omega (arith, log_all-index es next, h))

-- A file of an earlier run whose number the index has not come to: whatever is logged after
-- `startLogging`, it is still there, with its text, however many files there are.
pub old_file-stays :
    (k : ℕ) (es : List Entry) (files : Files)
    → (log_all es (start_logging files)).index < k
    → read k (log_all es (start_logging files)).others ≡ read k files
unfolding start_logging
old_file-stays k es files h =
    log_all-old k es (start_logging files) h ∙ read-unlink k 0 files (λ e. omega (arith, h))
