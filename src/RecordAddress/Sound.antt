-- ===== src/RecordAddress/Sound.antt =====
-- What the parser of s7nodaveApp/src/S7nodaveRecordAddress.cc returns.
use s7nodave.Asyn.{PlcDataType, bool, int8, uint8, int16, uint16, int32, uint32, float}
use s7nodave.PlcAddress.Sound.{IsWellFormed, create_from_string-IsWellFormed}
use s7nodave.PlcAddress.{PlcAddress, create_from_string, data_size_in_bits}
use s7nodave.Prelude.{
  ℕ, ◌+◌, ◌-◌, ◌≡◌, refl, ◌↔◌, true, false, Option, none, some, List, [], ◌∷◌, Bytes, codes,
  bytes_eq, ◌==◌, if◌then◌else◌, is_empty, take, drop, find_first, >>=-eq-some, unless_some,
  some_inj, Bool-cases, Option-cases, inl, inr, arith, subst,
}
use s7nodave.RecordAddress.{
  DeviceParameters, RecordAddress, Parsed, is_whitespace, has_parameter, split_parameter,
  add_parameter, add_parameters, parse_device_parameters, type_of_lower, string_to_plc_data_type,
  finish_data_type, finish_address, parse_address_part, parse_parenthesis, parse_behind_port,
  parse_port, parse_record_address, bits_of_type, is_closing, ends_port, create_record_address,
}
use s7nodave.Utilities.{to_lower, to_upper, upper, split_string, trim, trim_left}

-- Names are capital texts that are not empty, and none stands twice.
abbrev pub IsMap : DeviceParameters → Type 0
IsMap [] = Unit
IsMap ((name, value) ∷ m) =
    (is_empty name ≡ false) × (to_upper name ≡ name) × (has_parameter name m ≡ false) × IsMap m

upper-upper : (c : ℕ) → upper (upper c) ≡ upper c
upper-upper c = ground arith

to_upper-to_upper : (s : Bytes) → to_upper (to_upper s) ≡ to_upper s
unfolding to_upper
to_upper-to_upper [] = refl
to_upper-to_upper (c ∷ s) = rw (upper-upper c, to_upper-to_upper s) refl

is_empty-to_upper : (s : Bytes) → is_empty (to_upper s) ≡ is_empty s
unfolding to_upper
is_empty-to_upper [] = refl
is_empty-to_upper (c ∷ s) = refl

add_parameter-IsMap :
    (p : Bytes × Option Bytes) (m : DeviceParameters) {m' : DeviceParameters}
    → IsMap m
    → add_parameter p m ≡ some m'
    → IsMap m'
unfolding add_parameter
add_parameter-IsMap (name, value) m h e =
    let (filled, e1) = unless_some (is_empty name) _ e in
    let (fresh, e2) = unless_some (has_parameter (to_upper name) m) _ e1 in
    subst IsMap (some_inj e2) (rw (is_empty-to_upper name) filled, to_upper-to_upper name, fresh, h)

add_parameters-IsMap :
    (parameters : List Bytes) (m : DeviceParameters) {m' : DeviceParameters}
    → IsMap m
    → add_parameters parameters m ≡ some m'
    → IsMap m'
unfolding add_parameters
add_parameters-IsMap [] m h e = subst IsMap (some_inj e) h
add_parameters-IsMap (s ∷ parameters) m h e =
    let (m1, e1, e2) = >>=-eq-some (add_parameter (split_parameter s) m) _ e in
    add_parameters-IsMap parameters m1 (add_parameter-IsMap (split_parameter s) m h e1) e2

-- In the parameters that are read from a text no name is empty, each is in capitals, and none stands
-- twice.
pub parse_device_parameters-IsMap :
    (s : Bytes) {m : DeviceParameters} → parse_device_parameters s ≡ some m → IsMap m
unfolding parse_device_parameters
parse_device_parameters-IsMap [] e = subst IsMap (some_inj e) tt
parse_device_parameters-IsMap (c ∷ s) e = add_parameters-IsMap (split_string (c ∷ s) b',') [] tt e

-- What the header promises of a valid result.
pub record IsComplete (p : Parsed) : Type 0 where
  pub named : is_empty p.port ≡ false
  pub mapped : (m : DeviceParameters) × (p.parameters ≡ some m) × IsMap m
  pub addressed : (a : PlcAddress) × (p.address ≡ some a) × IsWellFormed a

-- A branch that reports an error.
not_valid : {P : Type 0} → false ≡ true → P
not_valid h = cc

module _ (name : Bytes) (named : is_empty name ≡ false) where
  module _ (m : DeviceParameters) (h : IsMap m) where
    finish_data_type-IsComplete :
        (a : PlcAddress) (s : Bytes)
        → IsWellFormed a
        → (finish_data_type name m a s).valid ≡ true
        → IsComplete (finish_data_type name m a s)
    unfolding finish_data_type
    finish_data_type-IsComplete a [] w v = record {
      named = named;
      mapped = (m, refl, h);
      addressed = (a, refl, w);
    }
    finish_data_type-IsComplete a (c ∷ s) w v =
        elim (Option-cases (string_to_plc_data_type (c ∷ s))) [
          | inl unknown ↦ not_valid (rw (unknown, finish_data_type) at v)
          | inr (t, e) ↦
              rw (e, finish_data_type)
                (record { named = named; mapped = (m, refl, h); addressed = (a, refl, w) })
        ]

    finish_address-IsComplete :
        (address rest : Bytes)
        → (finish_address name m address rest).valid ≡ true
        → IsComplete (finish_address name m address rest)
    unfolding finish_address
    finish_address-IsComplete address rest v = elim (Option-cases (create_from_string address)) [
      | inl invalid ↦ not_valid (rw (invalid, finish_address) at v)
      | inr (a, e) ↦
          rw (e, finish_address)
            (finish_data_type-IsComplete a rest (create_from_string-IsWellFormed address e).0
              (rw (e, finish_address) at v))
    ]

    parse_address_part-IsComplete :
        (s : Bytes)
        → (parse_address_part name m s).valid ≡ true
        → IsComplete (parse_address_part name m s)
    unfolding parse_address_part
    parse_address_part-IsComplete s v = elim (Option-cases (find_first is_whitespace s)) [
      | inl ended ↦
          rw (ended, parse_address_part)
            (finish_address-IsComplete s [] (rw (ended, parse_address_part) at v))
      | inr (p, e) ↦
          rw (e, parse_address_part)
            (finish_address-IsComplete (take p s) (trim_left (drop p s))
              (rw (e, parse_address_part) at v))
    ]

  parse_parenthesis-IsComplete :
      (s : Bytes) → (parse_parenthesis name s).valid ≡ true → IsComplete (parse_parenthesis name s)
  unfolding parse_parenthesis
  parse_parenthesis-IsComplete s v = elim (Option-cases (find_first is_closing s)) [
    | inl unmatched ↦ not_valid (rw (unmatched, parse_parenthesis) at v)
    | inr (p, e) ↦ elim (Option-cases (parse_device_parameters (take (p - 1) (drop 1 s)))) [
      | inl invalid ↦ not_valid (rw (e, invalid, parse_parenthesis) at v)
      | inr (m, read) ↦
          rw (e, read, parse_parenthesis)
            (parse_address_part-IsComplete m
              (parse_device_parameters-IsMap (take (p - 1) (drop 1 s)) read)
              (trim_left (drop (p + 1) s)) (rw (e, read, parse_parenthesis) at v))
    ]
  ]

  parse_behind_port-IsComplete :
      (s : Bytes) → (parse_behind_port name s).valid ≡ true → IsComplete (parse_behind_port name s)
  unfolding parse_behind_port
  parse_behind_port-IsComplete [] v = parse_address_part-IsComplete [] tt [] v
  parse_behind_port-IsComplete (c ∷ s) v = elim (Bool-cases (c == b'(')) [
    | inl is ↦
        rw (is, parse_behind_port)
          (parse_parenthesis-IsComplete (c ∷ s) (rw (is, parse_behind_port) at v))
    | inr other ↦
        rw (other, parse_behind_port)
          (parse_address_part-IsComplete [] tt (c ∷ s) (rw (other, parse_behind_port) at v))
  ]

parse_port-IsComplete : (s : Bytes) → (parse_port s).valid ≡ true → IsComplete (parse_port s)
unfolding parse_port
parse_port-IsComplete s v = elim (Option-cases (find_first ends_port s)) [
  | inl alone ↦ not_valid (rw (alone, parse_port) at v)
  | inr (p, e) ↦ elim (Bool-cases (is_empty (take p s))) [
    | inl empty ↦ not_valid (rw (e, empty, parse_port) at v)
    | inr named ↦
        rw (e, named, parse_port)
          (parse_behind_port-IsComplete (take p s) named (trim_left (drop p s))
            (rw (e, named, parse_port) at v))
  ]
]

-- If the text of a record address is parsed with success, then the port has a name, the parameters
-- and the address are set, no parameter stands twice, and the address is well-formed.
pub parse_record_address-IsComplete :
    (s : Bytes) → (parse_record_address s).valid ≡ true → IsComplete (parse_record_address s)
unfolding parse_record_address
parse_record_address-IsComplete s v = parse_port-IsComplete (trim s) v

abbrev pub name_of_type : PlcDataType → Bytes
name_of_type bool = codes "bool"
name_of_type int8 = codes "int8"
name_of_type uint8 = codes "uint8"
name_of_type int16 = codes "int16"
name_of_type uint16 = codes "uint16"
name_of_type int32 = codes "int32"
name_of_type uint32 = codes "uint32"
name_of_type float = codes "float"

bytes_eq_sound : (a b : Bytes) → bytes_eq a b ≡ true → a ≡ b
bytes_eq_sound [] [] h = refl
bytes_eq_sound [] (y ∷ b) h = cc
bytes_eq_sound (x ∷ a) [] h = cc
bytes_eq_sound (x ∷ a) (y ∷ b) h = ground (arith, bytes_eq_sound a b)

type_of_lower-name_of_type : (t : PlcDataType) → type_of_lower (name_of_type t) ≡ some t
type_of_lower-name_of_type bool = refl
type_of_lower-name_of_type int8 = refl
type_of_lower-name_of_type uint8 = refl
type_of_lower-name_of_type int16 = refl
type_of_lower-name_of_type uint16 = refl
type_of_lower-name_of_type int32 = refl
type_of_lower-name_of_type uint32 = refl
type_of_lower-name_of_type float = refl

-- One comparison of the chain.
is_name :
    (s : Bytes) (u : PlcDataType) (other : Option PlcDataType) {t : PlcDataType}
    → (other ≡ some t → s ≡ name_of_type t)
    → (if bytes_eq s (name_of_type u) then some u else other) ≡ some t
    → s ≡ name_of_type t
is_name s u other later h = elim (Bool-cases (bytes_eq s (name_of_type u))) [
  | inl same ↦
      subst (λ x. s ≡ name_of_type x) (some_inj (rw same at h))
        (bytes_eq_sound s (name_of_type u) same)
  | inr differs ↦ later (rw differs at h)
]

type_of_lower_sound : (s : Bytes) (t : PlcDataType) → type_of_lower s ≡ some t → s ≡ name_of_type t
type_of_lower_sound s t h =
    is_name s bool _
      (is_name s int8 _ (
        is_name s uint8 _ (
          is_name s int16 _ (
            is_name s uint16 _
              (is_name s int32 _ (is_name s uint32 _ (is_name s float none (λ e. cc))))))))
      h

-- The parser reads a data type exactly from its name, in any mix of capitals and small letters.
pub string_to_plc_data_type_iff :
    (s : Bytes) (t : PlcDataType)
    → (string_to_plc_data_type s ≡ some t) ↔ (to_lower s ≡ name_of_type t)
unfolding string_to_plc_data_type
string_to_plc_data_type_iff s t =
    (type_of_lower_sound (to_lower s) t, λ e. rw e (type_of_lower-name_of_type t))

-- A record address is made exactly when the port has a name and the address has the size of the data
-- type, and then it holds the arguments.
pub create_record_address_iff :
    (r q : RecordAddress)
    → (create_record_address r.port_name r.plc_address r.plc_data_type r.record_parameters ≡ some q)
      ↔ ((q ≡ r)
          × (is_empty r.port_name ≡ false)
          × (data_size_in_bits r.plc_address.data_size ≡ bits_of_type r.plc_data_type))
unfolding create_record_address
create_record_address_iff r q = (
  λ h. (ground arith, ground arith, ground arith),
  λ (e, named, size). rw e (rw (named, size) (ground arith)),
)
