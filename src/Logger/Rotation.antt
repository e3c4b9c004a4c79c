-- ===== src/Logger/Rotation.antt =====
-- The log keeps its last sixteen files, and with them the end of what was logged.
use iot_heater.Prelude.{
  ℕ, suc, ◌+◌, ◌-◌, ◌≤◌, ◌<◌, true, false, List, [], ◌∷◌, ◌++◌, ◌≡◌, refl, ap, ◌∙◌, sym, arith,
  length, leb, Bool-cases, inl, inr, min, append_assoc, append-nil, subst,
}
use iot_heater.Text.{Bytes}
use iot_heater.Logger.{
  Log, Entry, entry_line, prefix_of, unlink, start_logging, rotate, log, log_all, max_log_filesize,
  max_log_count,
}
use iot_heater.Logger.Files.{
  Files, Down, none_left, one_more, joined, length-Down, unlink-above, unlink-lowest,
}

-- The lines of calls, one after the other.
abbrev pub all_lines : List Entry → Bytes
all_lines [] = []
all_lines (e ∷ es) = entry_line e ++ all_lines es

-- What the files hold, the oldest first.
abbrev pub kept : Log → Bytes
kept l = joined l.others ++ l.text

-- After `written`: the files behind the open one are the fifteen before it, or all if there were
-- fewer, the open file is not full, and the files hold the end of what was written.
pub record IsRotated (written : Bytes) (l : Log) : Type 0 where
  pub numbers : Down (min l.index 15) l.index l.others
  pub room : length l.text < max_log_filesize
  pub gone : Bytes
  pub tail : written ≡ gone ++ kept l

leb_iff : {n : ℕ} → leb 16 n ≡ true → 16 ≤ n
leb_iff h = ground arith

leb_lt : {n : ℕ} → leb 16 n ≡ false → n < 16
leb_lt h = ground arith

-- The next file is opened behind these.
opened :
    (written : Bytes) (n count : ℕ) (files : Files) (gone : Bytes)
    → count ≡ min n 15
    → Down count n files
    → written ≡ gone ++ joined files
    → IsRotated written (record { index = n; text = []; others = unlink n files })
opened written n count files gone c d e = rw (unlink-above n d (omega arith)) (record {
  numbers = subst (λ (k : ℕ). Down k n files) c d;
  room = omega arith;
  gone = gone;
  tail = e ∙ ap (λ (b : Bytes). gone ++ b) (sym (append-nil (joined files)));
})

rotate-IsRotated :
    (written : Bytes) (l : Log)
    → Down (min l.index 15) l.index l.others
    → (gone : Bytes) → written ≡ gone ++ kept l
    → IsRotated written (rotate l)
unfolding rotate joined
rotate-IsRotated written l d gone e =
    let i : ℕ = l.index in
    let files : Files = (i, l.text) ∷ l.others in
    let next : suc i ≡ i + 1 = omega arith in
    let down : Down (suc (min i 15)) (i + 1) files =
      subst (λ (n : ℕ). Down (suc (min i 15)) n files) next (one_more l.text d) in
    elim (Bool-cases (leb max_log_count (i + 1))) [
      | inl full ↦
          let sixteen : suc (min i 15) ≡ 16 = omega (arith, leb_iff full) in
          let (first, texts, rest) =
            unlink-lowest (i + 1 - 16) 15 (i + 1) files (omega (arith, leb_iff full))
              (subst (λ (c : ℕ). Down c (i + 1) files) sixteen down) in
          let left = unlink (i + 1 - 16) files in
          rw full (
            opened written (i + 1) 15 left (gone ++ first) (omega (arith, leb_iff full)) rest (
              e
              ∙ ap (λ (b : Bytes). gone ++ b) texts
              ∙ sym (append_assoc gone first (joined left))))
      | inr room ↦
          rw room
            (opened written (i + 1) (suc (min i 15)) files gone (omega (arith, leb_lt room)) down e)
    ]

log-IsRotated :
    (written : Bytes) (e : Entry) (l : Log)
    → IsRotated written l
    → IsRotated (written ++ entry_line e) (log (prefix_of e.level) e.time e.message l)
unfolding log
log-IsRotated written e l h =
    let text : Bytes = l.text ++ entry_line e in
    let grown : Log = record l { text = text } in
    let tail : written ++ entry_line e ≡ h.gone ++ kept grown =
      ap (λ (b : Bytes). b ++ entry_line e) h.tail ∙ rw (append_assoc, append_assoc) refl in
    elim (Bool-cases (leb max_log_filesize (length text))) [
      | inl full ↦ rw full (rotate-IsRotated (written ++ entry_line e) grown h.numbers h.gone tail)
      | inr fits ↦
          rw fits (record {
            numbers = h.numbers;
            room = ground (arith, fits);
            gone = h.gone;
            tail = tail;
          })
    ]

log_all-IsRotated :
    (written : Bytes) (es : List Entry) (l : Log)
    → IsRotated written l
    → IsRotated (written ++ all_lines es) (log_all es l)
unfolding log_all
log_all-IsRotated written [] l h = rw (append-nil written) h
log_all-IsRotated written (e ∷ es) l h =
    let first = log-IsRotated written e l h in
    subst (λ (b : Bytes). IsRotated b (log_all (e ∷ es) l))
      (append_assoc written (entry_line e) (all_lines es))
      (log_all-IsRotated (written ++ entry_line e) es _ first)

-- Whatever is logged after `startLogging` in a directory without log files: the files are the open
-- one and the fifteen before it, or all if there were fewer; the open one is smaller than 1 MiB; and
-- the texts of the files, from the oldest to the open one, are the end of all lines logged.
pub log_all-start :
    (es : List Entry)
    → let l = log_all es (start_logging []) in
      Down (min l.index 15) l.index l.others
      × (length l.others < max_log_count)
      × (length l.text < max_log_filesize)
      × (gone : Bytes) × (all_lines es ≡ gone ++ kept l)
log_all-start es =
    let started : IsRotated [] (start_logging []) =
      unfold start_logging unlink joined in
      record { numbers = none_left; room = omega arith; gone = []; tail = refl } in
    let h = log_all-IsRotated [] es (start_logging []) started in
    (h.numbers, omega (arith, length-Down h.numbers), h.room, h.gone, h.tail)
