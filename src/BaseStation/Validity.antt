-- ===== src/BaseStation/Validity.antt =====
-- What holds of the members that the user sets: the maps are in order, the names and numbers are
-- well formed.
use iot_heater.Prelude.{true, [], ◌∷◌, ◌≡◌, ◌≢◌, ◌⊎◌, inl, refl, map, All, arith}
use iot_heater.OrdMap.{IsSorted}
use iot_heater.OrdMap.Keys.{str_order}
use iot_heater.Text.{
  Bytes, to_upper, check_heater_name, check_phone_number_format, is_alnum, is_digit,
}
use iot_heater.Text.Laws.{all_bytes-All}
use iot_heater.BaseStation.State.{Station, initial}

-- The name of a heater: letters and digits, at least one, the letters capital.
pub record IsName (n : Bytes) : Type 0 where
  pub checked : check_heater_name n ≡ true
  pub capitals : map to_upper n ≡ n

abbrev pub IsPhone : Bytes → Type 0
IsPhone p = check_phone_number_format p ≡ true

pub record IsValid (st : Station) : Type 0 where
  pub names_sorted : IsSorted st.heater_state
  pub names : All (λ e. IsName e.0) st.heater_state
  pub phones_sorted : IsSorted st.phone_whitelist
  pub phones : All (λ e. IsPhone e.0) st.phone_whitelist
  pub emergency : (st.emergency_phone ≡ []) ⊎ IsPhone st.emergency_phone

pub initial-IsValid : IsValid initial
unfolding initial
initial-IsValid = record {
  names_sorted = tt;
  names = tt;
  phones_sorted = tt;
  phones = tt;
  emergency = inl refl;
}

pub IsName-alnum : (n : Bytes) → check_heater_name n ≡ true → All (λ c. is_alnum c ≡ true) n
unfolding check_heater_name
IsName-alnum [] h = tt
IsName-alnum (c ∷ s) h = all_bytes-All is_alnum (c ∷ s) h

pub IsPhone-digits : (p : Bytes) → IsPhone p → All (λ c. is_digit c ≡ true) p
unfolding check_phone_number_format
IsPhone-digits p h = all_bytes-All is_digit p (ground arith)

pub IsPhone-ne_nil : (p : Bytes) → IsPhone p → p ≢ []
unfolding check_phone_number_format
IsPhone-ne_nil [] h e = cc
IsPhone-ne_nil (c ∷ p) h e = cc
