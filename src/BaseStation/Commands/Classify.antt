-- ===== src/BaseStation/Commands/Classify.antt =====
-- The chain of tests of `parseCommands` on the trimmed text in capitals.
use iot_heater.Prelude.{
  ℕ, Bool, true, false, ◌&&◌, List, [], ◌∷◌, All, ◌≡◌, refl, map, length, drop, if◌then◌else◌,
}
use iot_heater.Text.{
  Bytes, codes, str_eq, starts_with, ends_with, substr, size_sub, trim, to_upper, tokens,
  last_at_zero,
}
use iot_heater.Wire.{HeaterState, off, defrost, eco, comfort}

-- The branches. `all_states` carries the text of its reply; `set_heater` the name that is cut out
-- and the suffix that was tested; the commands on phones carry the words of the text.
pub data Command : Type 0 where
  ping version : Command
  all_states : HeaterState → Bytes → Command
  set_heater : HeaterState → Bytes → Bytes → Command
  get_default : Command
  get_heater : Bytes → Command
  get_ip lock : Command
  unlock add_phone remove_phone set_emergency : List Bytes → Command
  remove_emergency help : Command
  debug_filestate debug_state debug_reboot debug_wifi debug_log debug_uptime : Command
  invalid : Command

-- `name = content.substr(7); name = name.substr(0, name.length() - k)`: the length is a `size_t`.
unfoldable pub heater_name : Bytes → ℕ → Bytes
heater_name content k = let name = drop 7 content in substr name 0 (size_sub (length name) k)

-- `content.rfind("HEATER ", 0) == 0 && ends_with(content, suffix)`.
unfoldable pub is_heater : Bytes → Bytes → Bool
unfolding starts_with ends_with
is_heater content suffix = starts_with content (codes "HEATER ") && ends_with content suffix

-- A chain `if (test) ... else if (test) ... else ...`, as the table of its tests and branches.
abbrev pub choose {ℓ} : {A : Type ℓ} → List (Bool × A) → A → A
choose [] other = other
choose ((test, branch) ∷ rest) other = let next = choose rest other in if test then branch else next

-- What holds of every branch holds of the one that is taken.
pub choose-All {ℓ κ} :
    {A : Type ℓ} (P : A → Type κ) (table : List (Bool × A)) (other : A)
    → All (λ e. P e.1) table
    → P other
    → P (choose table other)
choose-All P [] other h o = o
choose-All P ((true, branch) ∷ rest) other h o = h.0
choose-All P ((false, branch) ∷ rest) other h o = choose-All P rest other h.1 o

-- The same, where each branch may use that its test has passed.
pub choose_tested {ℓ κ} :
    {A : Type ℓ} (P : A → Type κ) (table : List (Bool × A)) (other : A)
    → All (λ e. e.0 ≡ true → P e.1) table
    → P other
    → P (choose table other)
choose_tested P [] other h o = o
choose_tested P ((true, branch) ∷ rest) other h o = h.0 refl
choose_tested P ((false, branch) ∷ rest) other h o = choose_tested P rest other h.1 o

-- The branches from `GET DEFAULT` on.
abbrev pub rest_table : Bytes → List (Bool × Command)
rest_table content =
    (str_eq content (codes "GET DEFAULT"), get_default)
    ∷ (starts_with content (codes "GET HEATER "), get_heater (drop 11 content))
    ∷ (str_eq content (codes "GET IP"), get_ip)
    ∷ (str_eq content (codes "LOCK"), lock)
    ∷ (starts_with content (codes "UNLOCK "), unlock (tokens content))
    ∷ (starts_with content (codes "ADD PHONE "), add_phone (tokens content))
    ∷ (starts_with content (codes "REMOVE PHONE "), remove_phone (tokens content))
    ∷ (starts_with content (codes "SET EMERGENCY PHONE "), set_emergency (tokens content))
    ∷ (str_eq content (codes "REMOVE EMERGENCY PHONE"), remove_emergency)
    ∷ (last_at_zero (codes "HELP") content, help)
    ∷ (str_eq content (codes "DEBUG FILESTATE"), debug_filestate)
    ∷ (str_eq content (codes "DEBUG STATE"), debug_state)
    ∷ (str_eq content (codes "DEBUG REBOOT"), debug_reboot)
    ∷ (str_eq content (codes "DEBUG WIFI"), debug_wifi)
    ∷ (str_eq content (codes "DEBUG LOG"), debug_log)
    ∷ (str_eq content (codes "DEBUG UPTIME"), debug_uptime)
    ∷ []

unfoldable pub classify_rest : Bytes → Command
unfolding str_eq starts_with tokens last_at_zero
classify_rest content = choose (rest_table content) invalid

-- The branches up to `HEATER <name> ON`.
abbrev pub first_table : Bytes → List (Bool × Command)
first_table content =
    (str_eq content (codes "PING"), ping)
    ∷ (str_eq content (codes "VERSION"), version)
    ∷ (str_eq content (codes "ALL OFF"), all_states off (codes "ALL OFF"))
    ∷ (str_eq content (codes "ALL ECO"), all_states eco (codes "ALL ECO"))
    ∷ (str_eq content (codes "ALL DEFROST"), all_states defrost (codes "ALL DEFROST"))
    ∷ (str_eq content (codes "ALL COMFORT"), all_states comfort (codes "ALL COMFORT"))
    ∷ (str_eq content (codes "ALL ON"), all_states comfort (codes "ALL ON"))
    ∷ (is_heater content (codes " OFF"), set_heater off (heater_name content 4) (codes " OFF"))
    ∷ (is_heater content (codes " ECO"), set_heater eco (heater_name content 4) (codes " ECO"))
    ∷ (
      is_heater content (codes " DEFROST"),
      set_heater defrost (heater_name content 8) (codes " DEFROST"),
    )
    ∷ (
      is_heater content (codes " COMFORT"),
      set_heater comfort (heater_name content 8) (codes " COMFORT"),
    )
    ∷ (is_heater content (codes " ON"), set_heater comfort (heater_name content 3) (codes " ON"))
    ∷ []

unfoldable pub classify : Bytes → Command
unfolding str_eq classify_rest is_heater heater_name
classify content = choose (first_table content) (classify_rest content)

-- Trim, then `toupper` on each byte.
unfoldable pub normalise : Bytes → Bytes
unfolding trim to_upper
normalise content = map to_upper (trim content)
