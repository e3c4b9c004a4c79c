-- ===== src/BaseStation/Checks/Lost.antt =====
-- `checkLostDevices`: which heaters stay, which are reported, and under which name.
use iot_heater.Prelude.{
  ◌+◌, ◌*◌, ◌≤◌, ◌<◌, ◌⊎◌, ◌∙◌, sym, List, append-nil, append_assoc, ℕ, ◌/◌, ◌%◌, true, false, [],
  ◌∷◌, ◌++◌, none, some, ◌≡◌, refl, ap, arith, if◌then◌else◌, Bool-cases, inl, inr,
}
use iot_heater.OrdMap.{Map, same, find, Above, IsSorted}
use iot_heater.OrdMap.Keys.{mac_order}
use iot_heater.OrdMap.Laws.{same_iff}
use iot_heater.Text.{Bytes, codes}
use iot_heater.Wire.{Mac, mac_value}
use iot_heater.Wire.Laws.{IsMac}
use iot_heater.BaseStation.State.{Station, Heater, Effect}
use iot_heater.BaseStation.Messages.{mac_str}
use iot_heater.BaseStation.Checks.{
  is_alive, split_lost, check_lost_devices, mac_of_value, device_name, lost_names, lost_text,
  sms_if_phone,
}

find-Above : {V : Type 0} (k : ℕ) (m : Map ℕ V) → Above k m → find k m ≡ none
unfolding find
find-Above k [] a = refl
find-Above k ((j, w) ∷ m) a = ground (arith, a.0, find-Above k m a.1)

split-Above :
    (now k : ℕ) (m : Map ℕ Heater)
    → Above k m
    → Above k (split_lost now m).0 × Above k (split_lost now m).1
unfolding split_lost
split-Above now k [] a = (tt, tt)
split-Above now k ((j, h) ∷ m) a =
    let (kept, lost) = split-Above now k m a.1 in
    elim (Bool-cases (is_alive now h)) [
      | inl alive ↦ rw alive ((a.0, kept), lost)
      | inr gone ↦ rw gone (kept, (a.0, lost))
    ]

-- What the loop makes of a heater that is listed.
pub lost_split :
    (now mac : ℕ) (m : Map ℕ Heater) (h : Heater)
    → IsSorted m
    → find mac m ≡ some h
    → (find mac (split_lost now m).0 ≡ (if is_alive now h then some h else none))
      × (find mac (split_lost now m).1 ≡ (if is_alive now h then none else some h.name))
unfolding find split_lost
lost_split now mac [] h s found = absurd (cc)
lost_split now mac ((j, g) ∷ m) h s found = elim (Bool-cases (same mac j)) [
  | inl here ↦
      let e : mac ≡ j = (same_iff mac j).0 here in
      let above : Above mac m = rw e s.0 in
      let (kept, lost) = split-Above now mac m above in
      ground
        (arith, find-Above mac (split_lost now m).0 kept, find-Above mac (split_lost now m).1 lost)
  | inr later ↦ ground (arith, lost_split now mac m h s.1 (ground arith))
]

-- A device that is lost is named by its address as it sent it.
mac_of_value-mac_value : (m : Mac) → IsMac m → mac_of_value (mac_value m) ≡ m
unfolding mac_of_value mac_value
mac_of_value-mac_value m h =
    let e0 : mac_value m / 0x100_0000_0000 % 256 ≡ m.b0 = omega arith in
    let e1 : mac_value m / 0x1_0000_0000 % 256 ≡ m.b1 = omega arith in
    let e2 : mac_value m / 0x100_0000 % 256 ≡ m.b2 = omega arith in
    let e3 : mac_value m / 0x1_0000 % 256 ≡ m.b3 = omega arith in
    let e4 : mac_value m / 0x100 % 256 ≡ m.b4 = omega arith in
    let e5 : mac_value m % 256 ≡ m.b5 = omega arith in
    λ i. record { b0 = e0 i; b1 = e1 i; b2 = e2 i; b3 = e3 i; b4 = e4 i; b5 = e5 i }

device_name-same :
    (mac m : ℕ) (name n : Bytes) (lost : Map ℕ Bytes)
    → same mac m ≡ true
    → find mac ((m, n) ∷ lost) ≡ some name
    → device_name m n ≡ device_name mac name
unfolding find
device_name-same mac m name n lost here found =
    let e : m ≡ mac = sym ((same_iff mac m).0 here) in
    let named : n ≡ name = ground (arith, found, here) in λ i. device_name (e i) (named i)

-- The text of the warning names each device that was lost.
lost_names-names :
    (mac : ℕ) (name : Bytes) (lost : Map ℕ Bytes)
    → find mac lost ≡ some name
    → (front : Bytes) × (back : Bytes) × (lost_names lost ≡ front ++ (device_name mac name ++ back))
unfolding find lost_names
lost_names-names mac name [] found = absurd (cc)
lost_names-names mac name ((m, n) ∷ []) found = elim (Bool-cases (same mac m)) [
  | inl here ↦ (
    [],
    [],
    device_name-same mac m name n [] here found ∙ sym (append-nil (device_name mac name)),
  )
  | inr later ↦ absurd (ground (arith, found, later))
]
lost_names-names mac name ((m, n) ∷ e ∷ lost) found =
    let rest : Bytes = lost_names (e ∷ lost) in
    elim (Bool-cases (same mac m)) [
      | inl here ↦ (
        [],
        codes ", " ++ rest,
        ap (λ (d : Bytes). d ++ (codes ", " ++ rest))
            (device_name-same mac m name n (e ∷ lost) here found),
      )
      | inr later ↦
          let (front, back, names) =
            lost_names-names mac name (e ∷ lost) (ground (arith, found, later)) in
          (
            device_name m n ++ (codes ", " ++ front),
            back,
            ap (λ (b : Bytes). device_name m n ++ (codes ", " ++ b)) names ∙ rw append_assoc refl,
          )
    ]

lost_text-names :
    (mac : ℕ) (name : Bytes) (lost : Map ℕ Bytes)
    → find mac lost ≡ some name
    → (front : Bytes) × (back : Bytes) × (lost_text lost ≡ front ++ (device_name mac name ++ back))
unfolding lost_text find
lost_text-names mac name [] found = absurd (cc)
lost_text-names mac name (e ∷ []) found =
    let (front, back, names) = lost_names-names mac name (e ∷ []) found in
    let start = codes "WARNING! Lost connection with one device: " in
    (start ++ front, back, ap (λ (b : Bytes). start ++ b) names)
lost_text-names mac name (e ∷ f ∷ lost) found =
    let (front, back, names) = lost_names-names mac name (e ∷ f ∷ lost) found in
    let start = codes "WARNING! Lost connection with %d devices: " in
    (start ++ front, back, ap (λ (b : Bytes). start ++ b) names)

-- What `checkLostDevices` sends is the warning, if a device is lost.
check_lost-warns :
    (now mac : ℕ) (name : Bytes) (st : Station)
    → find mac (split_lost now st.heaters).1 ≡ some name
    → (check_lost_devices true now st).1
      ≡ sms_if_phone st.emergency_phone (lost_text (split_lost now st.heaters).1)
unfolding check_lost_devices
check_lost-warns now mac name st found = go (split_lost now st.heaters).1 found
  where
    go :
        (lost : Map ℕ Bytes)
        → find mac lost ≡ some name
        → (elim lost as (λ _. List Effect) [
          | [] ↦ []
          | e ∷ m ↦ sms_if_phone st.emergency_phone (lost_text (e ∷ m))
        ])
          ≡ sms_if_phone st.emergency_phone (lost_text lost)
    go [] f = absurd (unfold find in cc)
    go (e ∷ m) f = refl

is_alive-day :
    (now : ℕ) (h : Heater) → is_alive now h ≡ true → now < h.last_request_timestamp + 86_400
unfolding is_alive
is_alive-day now h e = ground arith

is_alive-over :
    (now : ℕ) (h : Heater) → is_alive now h ≡ false → h.last_request_timestamp + 86_400 ≤ now
unfolding is_alive
is_alive-over now h e = ground arith

-- For heaters in order of their addresses and a device that is listed, when the timer of
-- `checkLostDevices` has fired: if the last request of the device is less than a day old, it stays
-- listed as it is; otherwise it is listed no more, and the only effect is a text message to the
-- emergency number, if one is set, that gives its name, or its address if it has none.
pub check_lost-day :
    (now mac : ℕ) (h : Heater) (st : Station)
    → IsSorted st.heaters
    → find mac st.heaters ≡ some h
    → let o = check_lost_devices true now st in
      ((now < h.last_request_timestamp + 24 * 60 * 60) × (find mac o.0.heaters ≡ some h))
      ⊎ ((h.last_request_timestamp + 24 * 60 * 60 ≤ now)
          × (find mac o.0.heaters ≡ none)
          × (front : Bytes) × (back : Bytes) × (o.1
              ≡ sms_if_phone st.emergency_phone (front ++ (device_name mac h.name ++ back))))
unfolding check_lost_devices
check_lost-day now mac h st sorted found =
    let (kept, lost) = lost_split now mac st.heaters h sorted found in
    elim (Bool-cases (is_alive now h)) [
      | inl alive ↦ inl (is_alive-day now h alive, kept ∙ rw alive refl)
      | inr gone ↦
          let listed = lost ∙ rw gone refl in
          let (front, back, names) =
            lost_text-names mac h.name (split_lost now st.heaters).1 listed in
          inr (
            is_alive-over now h gone,
            kept ∙ rw gone refl,
            front,
            back,
            (unfold check_lost_devices in check_lost-warns now mac h.name st listed)
                ∙ ap (sms_if_phone st.emergency_phone) names,
          )
    ]

-- A listed device that has not asked for a day, and has no name, is removed from a list in order
-- and named in the warning by its address, written as `macToStr` writes the six bytes it sent.
pub lost_reported :
    (now : ℕ) (m : Mac) (h : Heater) (st : Station)
    → IsMac m
    → IsSorted st.heaters
    → find (mac_value m) st.heaters ≡ some h
    → is_alive now h ≡ false
    → h.name ≡ []
    → (find (mac_value m) (check_lost_devices true now st).0.heaters ≡ none)
      × (find (mac_value m) (split_lost now st.heaters).1 ≡ some [])
      × (device_name (mac_value m) [] ≡ mac_str m)
unfolding check_lost_devices
lost_reported now m h st hm s found gone unnamed =
    let (kept, lost) = lost_split now (mac_value m) st.heaters h s found in
    (rw gone at kept, rw (gone, unnamed) at lost, ap mac_str (mac_of_value-mac_value m hm))
