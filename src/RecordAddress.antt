-- ===== src/RecordAddress.antt =====
-- s7nodaveApp/src/S7nodaveRecordAddress.cc: the address of a record, made of the name of a port,
-- parameters, an address of the PLC and the type of its data.
-- A `std::map` of parameters is an association list, the parameter added last in front.
pub mod Parameters
pub mod Sound
mod Tests
use s7nodave.Asyn.{PlcDataType, bool, int8, uint8, int16, uint16, int32, uint32, float}
use s7nodave.PlcAddress.{PlcAddress, create_from_string, data_size_in_bits}
use s7nodave.Prelude.{
  ℕ, ◌+◌, ◌-◌, Bool, true, false, ◌||◌, Option, none, some, ◌>>=◌, List, [], ◌∷◌, Bytes, codes,
  bytes_eq, ◌==◌, if◌then◌else◌, is_empty, take, drop, find_first,
}
use s7nodave.Utilities.{to_lower, to_upper, split_string, trim, trim_left}

abbrev pub DeviceParameters : Type 0
DeviceParameters = List (Bytes × Option Bytes)

pub record RecordAddress : Type 0 where
  pub port_name : Bytes
  pub plc_address : PlcAddress
  pub plc_data_type : PlcDataType
  pub record_parameters : DeviceParameters

-- The tuple that `parseRecordAddress` returns.
pub record Parsed : Type 0 where
  pub port : Bytes
  pub parameters : Option DeviceParameters
  pub address : Option PlcAddress
  pub data_type : Option PlcDataType
  pub valid : Bool

abbrev pub is_whitespace : ℕ → Bool
is_whitespace c = c == b' ' || (c == 9 || (c == 10 || (c == 13 || c == 11)))

abbrev pub is_closing : ℕ → Bool
is_closing c = c == b')'

abbrev pub ends_port : ℕ → Bool
ends_port c = is_whitespace c || c == b'('

abbrev pub has_parameter : Bytes → DeviceParameters → Bool
has_parameter name [] = false
has_parameter name ((n, v) ∷ m) = bytes_eq name n || has_parameter name m

-- The name of a parameter, and its value behind an equals sign.
unfoldable pub split_parameter : Bytes → Bytes × Option Bytes
split_parameter s = elim (find_first (λ c. c == b'=') s) [
  | none ↦ (trim s, none)
  | some equal_pos ↦ (trim (take equal_pos s), some (trim (drop (equal_pos + 1) s)))
]

-- The parameter joins the map, unless its name is empty or there already.
unfoldable pub add_parameter : Bytes × Option Bytes → DeviceParameters → Option DeviceParameters
add_parameter (name, value) m =
    if is_empty name
    then none
    else if has_parameter (to_upper name) m
    then none
    else some ((to_upper name, value) ∷ m)

unfoldable pub add_parameters : List Bytes → DeviceParameters → Option DeviceParameters
add_parameters [] m = some m
add_parameters (s ∷ parameters) m = do
  m' ← add_parameter (split_parameter s) m
  add_parameters parameters m'

unfoldable pub parse_device_parameters : Bytes → Option DeviceParameters
parse_device_parameters s = if is_empty s then some [] else add_parameters (split_string s b',') []

-- The comparisons with the names in small letters.
abbrev pub type_of_lower : Bytes → Option PlcDataType
type_of_lower s =
    if bytes_eq s (codes "bool")
    then some bool
    else if bytes_eq s (codes "int8")
    then some int8
    else if bytes_eq s (codes "uint8")
    then some uint8
    else if bytes_eq s (codes "int16")
    then some int16
    else if bytes_eq s (codes "uint16")
    then some uint16
    else if bytes_eq s (codes "int32")
    then some int32
    else if bytes_eq s (codes "uint32")
    then some uint32
    else if bytes_eq s (codes "float")
    then some float
    else none

unfoldable pub string_to_plc_data_type : Bytes → Option PlcDataType
string_to_plc_data_type s = type_of_lower (to_lower s)

-- The rest of the text behind the address: the data type, if there is one.
unfoldable pub finish_data_type : Bytes → DeviceParameters → PlcAddress → Bytes → Parsed
finish_data_type name m a [] = record {
  port = name;
  parameters = some m;
  address = some a;
  data_type = none;
  valid = true;
}
finish_data_type name m a (c ∷ s) = elim (string_to_plc_data_type (c ∷ s)) [
  | some t ↦ record {
    port = name;
    parameters = some m;
    address = some a;
    data_type = some t;
    valid = true;
  }
  | none ↦ record {
    port = name;
    parameters = some m;
    address = some a;
    data_type = none;
    valid = false;
  }
]

unfoldable pub finish_address : Bytes → DeviceParameters → Bytes → Bytes → Parsed
finish_address name m address rest = elim (create_from_string address) [
  | some a ↦ finish_data_type name m a rest
  | none ↦ record {
    port = name;
    parameters = some m;
    address = none;
    data_type = none;
    valid = false;
  }
]

-- The address ends with whitespace, or with the text.
unfoldable pub parse_address_part : Bytes → DeviceParameters → Bytes → Parsed
parse_address_part name m s = elim (find_first is_whitespace s) [
  | none ↦ finish_address name m s []
  | some position ↦ finish_address name m (take position s) (trim_left (drop position s))
]

-- A port alone: what is returned on an error in front of the address.
abbrev pub port_only : Bytes → Parsed
port_only name = record {
  port = name;
  parameters = none;
  address = none;
  data_type = none;
  valid = false;
}

-- The parameters between the parenthesis that the text begins with and the closing one.
unfoldable pub parse_parenthesis : Bytes → Bytes → Parsed
parse_parenthesis name s = elim (find_first is_closing s) [
  | none ↦ port_only name
  | some position ↦ elim (parse_device_parameters (take (position - 1) (drop 1 s))) [
    | none ↦ port_only name
    | some m ↦ parse_address_part name m (trim_left (drop (position + 1) s))
  ]
]

unfoldable pub parse_behind_port : Bytes → Bytes → Parsed
parse_behind_port name [] = parse_address_part name [] []
parse_behind_port name (c ∷ s) = elim (c == b'(') [
  | true ↦ parse_parenthesis name (c ∷ s)
  | false ↦ parse_address_part name [] (c ∷ s)
]

-- The name of the port ends with an opening parenthesis or with whitespace.
unfoldable pub parse_port : Bytes → Parsed
parse_port s = elim (find_first ends_port s) [
  | none ↦ port_only s
  | some position ↦ elim (is_empty (take position s)) [
    | true ↦ port_only (take position s)
    | false ↦ parse_behind_port (take position s) (trim_left (drop position s))
  ]
]

unfoldable pub parse_record_address : Bytes → Parsed
unfolding parse_port
parse_record_address s = parse_port (trim s)

-- The size that the type must have, in bits.
abbrev pub bits_of_type : PlcDataType → ℕ
bits_of_type bool = 1
bits_of_type int8 = 8
bits_of_type uint8 = 8
bits_of_type int16 = 16
bits_of_type uint16 = 16
bits_of_type int32 = 32
bits_of_type uint32 = 32
bits_of_type float = 32

unfoldable pub create_record_address :
    Bytes → PlcAddress → PlcDataType → DeviceParameters → Option RecordAddress
create_record_address port_name plc_address plc_data_type record_parameters =
    if is_empty port_name
    then none
    else if data_size_in_bits plc_address.data_size == bits_of_type plc_data_type
    then some (record {
      port_name = port_name;
      plc_address = plc_address;
      plc_data_type = plc_data_type;
      record_parameters = record_parameters;
    })
    else none
