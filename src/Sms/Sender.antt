-- ===== src/Sms/Sender.antt =====
-- `SMSSender`: one file for each message in the outgoing directory, and the list of the files that
-- were sent.
pub mod Cleanup
use iot_heater.Prelude.{
  ℕ, ◌+◌, ◌-◌, ◌/◌, ◌%◌, ◌^◌, Bool, true, false, not, ◌&&◌, List, [], Option, none, some, ◌∷◌, ◌++◌,
  if◌then◌else◌, ltb,
}
use iot_heater.OrdMap.{Map, insert, erase}
use iot_heater.OrdMap.Keys.{str_order}
use iot_heater.Text.{Bytes, codes, decimal}

-- In seconds.
abbrev pub sms_too_old : ℕ
sms_too_old = 900

-- The members, and the files of the outgoing directory.
pub record Sender : Type 0 where
  pub counter : ℕ
  pub old_files : Map Bytes ℕ
  pub outgoing : Map Bytes Bytes

-- An entry that `readdir` gives: whether it is a regular file, and whether `remove` takes it away.
pub record DirEntry : Type 0 where
  pub name : Bytes
  pub regular : Bool
  pub removed : Bool

unfoldable pub remove_entries : List DirEntry → Map Bytes Bytes → Map Bytes Bytes
unfolding erase
remove_entries [] files = files
remove_entries (e ∷ es) files =
    remove_entries es (if e.regular && e.removed then erase e.name files else files)

-- `cleanOutgoingDir`, called by the constructor; `none` is an `opendir` that fails.
unfoldable pub clean_outgoing_dir : Option (List DirEntry) → Sender → Sender
unfolding remove_entries
clean_outgoing_dir none s = s
clean_outgoing_dir (some es) s = record s { outgoing = remove_entries es s.outgoing }

unfoldable pub filename : ℕ → ℕ → Bytes
unfolding decimal
filename pid counter = codes "sms_" ++ (decimal pid ++ (b'_' ∷ decimal counter))

abbrev pub outgoing_text : Bytes → Bytes → Bytes
outgoing_text to content = codes "To: " ++ (to ++ (b'\n' ∷ b'\n' ∷ (content ++ codes "\n")))

-- What `sendSMS` meets: the process id, whether the device file of the module is there, whether
-- `rename` succeeds, and the steady clock in nanoseconds.
pub record Sending : Type 0 where
  pub pid : ℕ
  pub present : Bool
  pub renamed : Bool
  pub now : ℕ

-- `sendSMS`, and its result.
unfoldable pub send_sms_file : Sending → Bytes → Bytes → Sender → Sender × Bool
unfolding filename insert
send_sms_file i to content s =
    let name = filename i.pid s.counter in
    let counted = record s { counter = (s.counter + 1) % 2 ^ 64 } in
    if not i.present then (s, false) else if not i.renamed then (counted, false) else (
      record counted {
        old_files = insert name i.now s.old_files;
        outgoing = insert name (outgoing_text to content) s.outgoing;
      },
      true,
    )

-- `duration_cast<seconds>(now - timestamp) < SMS_TOO_OLD`.
unfoldable pub is_young : ℕ → ℕ → Bool
is_young now timestamp = ltb ((now - timestamp) / 1_000_000_000) sms_too_old

-- The loop of `cleanupSMS` over the list. `removed` is whether `remove` takes the file of a name
-- away: one that fails is logged, and the loop goes on.
unfoldable pub remove_old : (Bytes → Bool) → ℕ → Map Bytes ℕ → Map Bytes Bytes → Map Bytes Bytes
unfolding is_young erase
remove_old removed now [] files = files
remove_old removed now ((name, timestamp) ∷ old) files =
    remove_old removed now old
      (if is_young now timestamp then files else if removed name then erase name files else files)

-- `SMSSender::cleanupSMS`: the whole list is cleared at the end.
unfoldable pub cleanup_sms_dir : (Bytes → Bool) → ℕ → Sender → Sender
unfolding remove_old
cleanup_sms_dir removed now s = record s {
  old_files = [];
  outgoing = remove_old removed now s.old_files s.outgoing;
}
