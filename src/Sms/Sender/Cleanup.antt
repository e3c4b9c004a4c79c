-- ===== src/Sms/Sender/Cleanup.antt =====
-- Which files `cleanupSMS` removes, and which it never will.
use iot_heater.Prelude.{
  ◌-◌, ◌*◌, ◌<◌, sym, ltb, ℕ, Bool, true, false, [], ◌∷◌, Option, none, some, ◌≡◌, refl, ap, ◌∙◌,
  arith, if◌then◌else◌, Bool-cases, inl, inr,
}
use iot_heater.OrdMap.{Map, find, erase, same, Above, IsSorted}
use iot_heater.OrdMap.Laws.{find-erase, same_iff, find-insert}
use iot_heater.OrdMap.Keys.{str_order}
use iot_heater.Text.{Bytes}
use iot_heater.Sms.Sender.{
  Sender, Sending, filename, outgoing_text, send_sms_file, is_young, remove_old, cleanup_sms_dir,
}

-- The files that the directory still has when a call of `remove` for this name is over, if one is
-- made at all.
abbrev removing : Bool → Bool → Bytes → Map Bytes Bytes → Map Bytes Bytes
removing young ok n files = if young then files else if ok then erase n files else files

-- The step of the loop does not touch another file.
step-other :
    (young ok : Bool) (n name : Bytes) (files : Map Bytes Bytes)
    → same name n ≡ false
    → find name (removing young ok n files) ≡ find name files
step-other true ok n name files ne = refl
step-other false true n name files ne = find-erase name n files ∙ rw ne refl
step-other false false n name files ne = refl

step-same :
    (young ok : Bool) (name : Bytes) (files : Map Bytes Bytes)
    → find name (removing young ok name files)
      ≡ (if young then find name files else if ok then none else find name files)
step-same true ok name files = refl
step-same false true name files = find-erase name name files ∙ rw (str_order.lt_irrefl name) refl
step-same false false name files = refl

-- A file that the list does not name is left.
remove_old-Above :
    (removed : Bytes → Bool) (now : ℕ) (old : Map Bytes ℕ) (files : Map Bytes Bytes) (name : Bytes)
    → Above name old
    → find name (remove_old removed now old files) ≡ find name files
unfolding remove_old
remove_old-Above removed now [] files name a = refl
remove_old-Above removed now ((n, t) ∷ old) files name a =
    remove_old-Above removed now old _ name a.1
    ∙ step-other (is_young now t) (removed n) n name files (ground (arith, a.0))

-- What the loop leaves of a file that the list names.
pub find-remove_old :
    (removed : Bytes → Bool) (now : ℕ) (old : Map Bytes ℕ) (files : Map Bytes Bytes) (name : Bytes)
    (t : ℕ)
    → IsSorted old
    → find name old ≡ some t
    → find name (remove_old removed now old files)
      ≡ (if is_young now t then find name files else if removed name then none else find name files)
unfolding remove_old find
find-remove_old removed now [] files name t s found = absurd (cc)
find-remove_old removed now ((n, u) ∷ old) files name t s found = elim (Bool-cases (same name n)) [
  | inl here ↦
      let e : name ≡ n = (same_iff name n).0 here in
      let time : u ≡ t = ground (arith, found, here) in
      let above : Above name old = rw e s.0 in
      remove_old-Above removed now old _ name above
      ∙ ap (λ (k : Bytes). find name (removing (is_young now u) (removed k) k files)) (sym e)
      ∙ ap (λ (k : ℕ). find name (removing (is_young now k) (removed name) name files)) time
      ∙ step-same (is_young now t) (removed name) name files
  | inr later ↦
      find-remove_old removed now old _ name t s.1 (ground (arith, found, later))
      ∙ ap (λ (o : Option Bytes). if is_young now t then o else if removed name then none else o)
          (step-other (is_young now u) (removed n) n name files later)
]

-- Whole seconds below 900 are less than 15 minutes, in nanoseconds.
is_young-minutes : (now t : ℕ) → is_young now t ≡ ltb (now - t) (15 * 60 * 1_000_000_000)
unfolding is_young
is_young-minutes now t = ground arith

-- For a list in order that names a file with the time it was sent: `cleanupSMS` leaves the file as it
-- is if it was sent less than 15 minutes before, or if `remove` fails on it, and removes it
-- otherwise; the list is empty then.
pub cleanup_sms_dir-minutes :
    (removed : Bytes → Bool) (now : ℕ) (s : Sender) (name : Bytes) (t : ℕ)
    → IsSorted s.old_files
    → find name s.old_files ≡ some t
    → let s' = cleanup_sms_dir removed now s in
      (find name s'.outgoing ≡ (
        if ltb (now - t) (15 * 60 * 1_000_000_000)
        then find name s.outgoing
        else if removed name
        then none
        else find name s.outgoing))
      × (s'.old_files ≡ [])
unfolding cleanup_sms_dir
cleanup_sms_dir-minutes removed now s name t sorted found = (
  find-remove_old removed now s.old_files s.outgoing name t sorted found
      ∙ ap
          (λ (young : Bool).
            if young
            then find name s.outgoing
            else if removed name
            then none
            else find name s.outgoing)
          (is_young-minutes now t),
  refl,
)

-- A file sent less than 15 minutes before a `cleanupSMS` is forgotten by it: no later call removes
-- the file, however late.
pub young-stays :
    (removed removed' : Bytes → Bool) (now later : ℕ) (s : Sender) (name : Bytes) (t : ℕ)
    → IsSorted s.old_files
    → find name s.old_files ≡ some t
    → now - t < 15 * 60 * 1_000_000_000
    → find name (cleanup_sms_dir removed' later (cleanup_sms_dir removed now s)).outgoing
      ≡ find name s.outgoing
unfolding cleanup_sms_dir
young-stays removed removed' now later s name t sorted found young =
    let before : ltb (now - t) 900_000_000_000 ≡ true = ground (arith, young) in
    (unfold remove_old in find-remove_old removed now s.old_files s.outgoing name t sorted found)
    ∙ rw (is_young-minutes now t, before) refl

-- If the module is there and `rename` succeeds, `sendSMS` returns true, puts the message in a file
-- of the next name and lists the file with the time, and changes no other file and no other entry.
pub find-send_sms_file :
    (i : Sending) (to content other : Bytes) (s : Sender)
    → i.present ≡ true
    → i.renamed ≡ true
    → let (s', ok) = send_sms_file i to content s in
      let name = filename i.pid s.counter in
      (ok ≡ true)
      × (find other s'.outgoing
          ≡ (if same other name then some (outgoing_text to content) else find other s.outgoing))
      × (find other s'.old_files ≡ (if same other name then some i.now else find other s.old_files))
unfolding send_sms_file
find-send_sms_file i to content other s present renamed =
    let name = filename i.pid s.counter in
    rw (present, renamed)
      (
        refl,
        find-insert other name (outgoing_text to content) s.outgoing,
        find-insert other name i.now s.old_files,
      )
