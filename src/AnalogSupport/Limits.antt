-- ===== src/AnalogSupport/Limits.antt =====
-- The device limits that s7nodaveApp/src/AnalogSupport.cc gives an analog record that was set up.
use s7nodave.AnalogSupport.{
  Floats, dlv, dhv, size_limits, analog_extract_device_parameters, init_device_limits, ai_class,
  ao_class,
}
use s7nodave.ArraySupport.DataTypes.{type_range}
use s7nodave.Asyn.{PlcDataType, bool, int8, uint8, int16, uint16, int32, uint32, float}
use s7nodave.PlcAddress.{data_size_in_bits}
use s7nodave.Prelude.{
  ◌≡◌, refl, sym, ap, ◌∙◌, true, false, Option, none, some, [], ◌∷◌, Bytes, codes, bytes_eq,
  Bool-cases, Option-cases, ◌⊎◌, inl, inr, arith, ℤ,
}
use s7nodave.Record.Input.{extract_poll_group}
use s7nodave.Record.Setup.{address_of_link-IsAccepted}
use s7nodave.Record.{DeviceAddress, address_of_link}
use s7nodave.RecordAddress.Parameters.{find_parameter, erase_parameter, bytes_eq-same}
use s7nodave.RecordAddress.{DeviceParameters, RecordAddress, bits_of_type}

-- The limits of the type are its least and greatest number.
size_limits-type_range : (t : PlcDataType) → size_limits (bits_of_type t) t ≡ type_range t
unfolding size_limits
size_limits-type_range bool = refl
size_limits-type_range int8 = refl
size_limits-type_range uint8 = refl
size_limits-type_range int16 = refl
size_limits-type_range uint16 = refl
size_limits-type_range int32 = refl
size_limits-type_range uint32 = refl
size_limits-type_range float = refl

-- The parameter that names the poll group is not one of the limits.
find_parameter-behind_poll_group :
    (name n : Bytes) (v : Option Bytes) (m : DeviceParameters)
    → bytes_eq name (codes "PG") ≡ false
    → bytes_eq n (codes "PG") ≡ true
    → find_parameter name (extract_poll_group ((n, v) ∷ m)).0 ≡ find_parameter name ((n, v) ∷ m)
unfolding extract_poll_group
find_parameter-behind_poll_group name n none m h same = rw (same, extract_poll_group) refl
find_parameter-behind_poll_group name n (some w) m h same =
    let other = bytes_eq-same n (codes "PG") name same ∙ h in
    rw (same, extract_poll_group, other) refl

find_parameter-extract_poll_group :
    (name : Bytes) (m : DeviceParameters)
    → bytes_eq name (codes "PG") ≡ false
    → find_parameter name (extract_poll_group m).0 ≡ find_parameter name m
unfolding extract_poll_group
find_parameter-extract_poll_group name [] h = refl
find_parameter-extract_poll_group name ((n, v) ∷ m) h =
    elim (Bool-cases (bytes_eq n (codes "PG"))) [
      | inl same ↦ find_parameter-behind_poll_group name n v m h same
      | inr different ↦ grind (arith, different, find_parameter-extract_poll_group name m h)
    ]

no_parameter :
    (name : Bytes) (m : DeviceParameters) {v : Option Bytes}
    → m ≡ []
    → find_parameter name m ≡ some v
    → ⊥
no_parameter name [] empty found = cc
no_parameter name (p ∷ m) empty found = cc

none_left : (name : Bytes) (m : DeviceParameters) → m ≡ [] → find_parameter name m ≡ none
none_left name [] empty = refl
none_left name (p ∷ m) empty = cc

-- The parameters ask for both limits, with a value for each, or for none of them.
abbrev pub AreBothOrNone : DeviceParameters → Type 0
AreBothOrNone m =
    ((find_parameter dlv m ≡ none) × (find_parameter dhv m ≡ none))
    ⊎ ((s : Bytes) × (u : Bytes) × (find_parameter dlv m ≡ some (some s))
        × (find_parameter dhv m ≡ some (some u)))

module _ {ℓ} {D : Type ℓ} (fl : Floats D) where
  -- The limits that a record is to have: those that are asked for, or else the type's, unless it has none.
  abbrev pub expected_limits : RecordAddress → D → D → D × D
  expected_limits a low high = elim (find_parameter dlv a.record_parameters) [
    | none ↦ elim (type_range a.plc_data_type) [
      | none ↦ (low, high)
      | some r ↦ (fl.of_integer r.0, fl.of_integer r.1)
    ]
    | some l ↦ elim l [
      | none ↦ (low, high)
      | some s ↦ elim (find_parameter dhv a.record_parameters) [
        | none ↦ (low, high)
        | some h ↦ elim h [ none ↦ (low, high) | some u ↦ (fl.strtod s, fl.strtod u) ]
      ]
    ]
  ]

  -- Both limits are found, or none of them.
  IsComplete : DeviceParameters → D → D → Type ℓ
  IsComplete m low high =
      ((find_parameter dlv m ≡ none)
        × (find_parameter dhv m ≡ none)
        × (analog_extract_device_parameters fl m low high ≡ (m, low, high)))
      ⊎ ((s : Bytes) × (u : Bytes) × (find_parameter dlv m ≡ some (some s))
          × (find_parameter dhv m ≡ some (some u))
          × (analog_extract_device_parameters fl m low high
              ≡ (erase_parameter dhv (erase_parameter dlv m), fl.strtod s, fl.strtod u)))

  both_found :
      (m : DeviceParameters) (low high : D) (l h : Option Bytes)
      → find_parameter dlv m ≡ some l
      → find_parameter dhv m ≡ some h
      → (analog_extract_device_parameters fl m low high).0 ≡ []
      → IsComplete m low high
  unfolding IsComplete analog_extract_device_parameters
  both_found m low high none h found other left =
      absurd
        (no_parameter dlv m (rw (found, other, analog_extract_device_parameters) at left) found)
  both_found m low high (some s) none found other left =
      absurd
        (no_parameter dlv m (rw (found, other, analog_extract_device_parameters) at left) found)
  both_found m low high (some s) (some u) found other left =
      inr (s, u, found, other, rw (found, other, analog_extract_device_parameters) refl)

  analog_extract_device_parameters-IsComplete :
      (m : DeviceParameters) (low high : D)
      → (analog_extract_device_parameters fl m low high).0 ≡ []
      → IsComplete m low high
  unfolding IsComplete analog_extract_device_parameters
  analog_extract_device_parameters-IsComplete m low high left =
      elim (Option-cases (find_parameter dlv m)) [
        | inl absent ↦ inl (
          absent,
          none_left dhv m (rw (absent, analog_extract_device_parameters) at left),
          rw (absent, analog_extract_device_parameters) refl,
        )
        | inr (l, found) ↦ elim (Option-cases (find_parameter dhv m)) [
          | inl absent ↦ absurd (
              no_parameter dlv m (rw (found, absent, analog_extract_device_parameters) at left)
                found)
          | inr (h, other) ↦ both_found m low high l h found other left
        ]
      ]

  -- The limits when the record was set up.
  abbrev pub limits_of : DeviceParameters → RecordAddress → D → D → D × D
  limits_of m a low high =
      let found = analog_extract_device_parameters fl m low high in
      init_device_limits fl a found.1 found.2

  -- A choice between limits, and those of a type.
  abbrev choose_limits : Option (ℤ × ℤ) → D → D → D × D
  choose_limits o low high = elim o [
    | none ↦ (low, high)
    | some r ↦ (fl.of_integer r.0, fl.of_integer r.1)
  ]

  range_limits :
      (a : RecordAddress) (low high : D)
      → data_size_in_bits a.plc_address.data_size ≡ bits_of_type a.plc_data_type
      → choose_limits
          (size_limits (data_size_in_bits a.plc_address.data_size) a.plc_data_type)
          low
          high
        ≡ choose_limits (type_range a.plc_data_type) low high
  range_limits a low high size =
      ap (λ o. choose_limits o low high)
        (ap (λ n. size_limits n a.plc_data_type) size ∙ size_limits-type_range a.plc_data_type)

  init_device_limits-expected :
      (m : DeviceParameters) (a : RecordAddress) (low high : D)
      → data_size_in_bits a.plc_address.data_size ≡ bits_of_type a.plc_data_type
      → find_parameter dlv m ≡ find_parameter dlv a.record_parameters
      → find_parameter dhv m ≡ find_parameter dhv a.record_parameters
      → (analog_extract_device_parameters fl m low high).0 ≡ []
      → AreBothOrNone a.record_parameters × (limits_of m a low high ≡ expected_limits a low high)
  unfolding init_device_limits IsComplete
  init_device_limits-expected m a low high size same_dlv same_dhv left =
      elim (analog_extract_device_parameters-IsComplete m low high left) [
        | inl (absent, missing, e) ↦
            let absent' = sym same_dlv ∙ absent in
            (
              inl (absent', sym same_dhv ∙ missing),
              ap (λ x. init_device_limits fl a x.1 x.2) e
                  ∙ rw (absent', init_device_limits, expected_limits)
                      (range_limits a low high size),
            )
        | inr (s, u, found, other, e) ↦
            let found' = sym same_dlv ∙ found in
            let other' = sym same_dhv ∙ other in
            (
              inr (s, u, found', other'),
              ap (λ x. init_device_limits fl a x.1 x.2) e
                  ∙ rw (found', other', init_device_limits, expected_limits) refl,
            )
      ]

  -- When an input record was set up with an address, its parameters ask for both device limits, with a value
  -- for each, or for none of them. The limits are then the values asked for, or else the least and the
  -- greatest number of the address's type, or, for the type of floats, what they were.
  pub ai_limits :
      (low high : D) (link : DeviceAddress) (a : RecordAddress)
      → address_of_link (ai_class fl low high) link ≡ some a
      → AreBothOrNone a.record_parameters
        × (limits_of (extract_poll_group a.record_parameters).0 a low high
            ≡ expected_limits a low high)
  ai_limits low high link a e =
      let ((named, size), known) = address_of_link-IsAccepted (ai_class fl low high) link e in
      init_device_limits-expected (extract_poll_group a.record_parameters).0 a low high size
        (find_parameter-extract_poll_group dlv a.record_parameters refl)
        (find_parameter-extract_poll_group dhv a.record_parameters refl) known

  -- The same for an output record, which has no poll group.
  pub ao_limits :
      (low high : D) (link : DeviceAddress) (a : RecordAddress)
      → address_of_link (ao_class fl low high) link ≡ some a
      → AreBothOrNone a.record_parameters
        × (limits_of a.record_parameters a low high ≡ expected_limits a low high)
  ao_limits low high link a e =
      let ((named, size), known) = address_of_link-IsAccepted (ao_class fl low high) link e in
      init_device_limits-expected a.record_parameters a low high size refl refl known
