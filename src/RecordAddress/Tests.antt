-- ===== src/RecordAddress/Tests.antt =====
-- Inputs of s7nodaveApp/tests/S7nodaveRecordAddressTest.cpp, and the theorems at such inputs.
use s7nodave.Asyn.{int32, dword, outputs}
use s7nodave.PlcAddress.{
  PlcAddress, create_from_string, parse_area, parse_rest, parse_element, parse_data_size,
  parse_start, string_to_area, string_to_data_size, atoi, data_size_in_bits,
}
use s7nodave.Prelude.{◌≡◌, ◌↔◌, refl, true, false, some, [], ◌∷◌, Bytes, codes, pos, is_empty}
use s7nodave.RecordAddress.Sound.{
  IsMap, IsComplete, parse_device_parameters-IsMap, parse_record_address-IsComplete, name_of_type,
  string_to_plc_data_type_iff, create_record_address_iff,
}
use s7nodave.RecordAddress.{
  RecordAddress, DeviceParameters, parse_record_address, parse_device_parameters,
  string_to_plc_data_type, create_record_address, bits_of_type, split_parameter, add_parameter,
  add_parameters, finish_data_type, finish_address, parse_address_part, parse_parenthesis,
  parse_behind_port,
}
use s7nodave.Utilities.{to_lower, to_upper, trim, trim_left, trim_right, split_string}

abbrev text : Bytes
text = codes "Port0(  abc =deF ,GHI =jkl)QD4 int32"

abbrev output_double : PlcAddress
output_double = record {
  area = outputs;
  area_number = pos 0;
  data_size = dword;
  start_byte = pos 4;
  start_bit = pos 0;
}

abbrev two_parameters : DeviceParameters
two_parameters = (codes "GHI", some (codes "jkl")) ∷ (codes "ABC", some (codes "deF")) ∷ []

parses : parse_record_address text ≡ record {
  port = codes "Port0";
  parameters = some two_parameters;
  address = some output_double;
  data_type = some int32;
  valid = true;
}
unfolding parse_record_address parse_behind_port parse_parenthesis parse_address_part finish_address
    finish_data_type string_to_plc_data_type to_lower to_upper trim trim_left trim_right
    split_string parse_device_parameters add_parameters add_parameter split_parameter
    create_from_string parse_area parse_rest parse_element parse_data_size parse_start
    string_to_area string_to_data_size atoi
parses = refl

-- A name that is empty, and one that stands twice in different letters.
refuses :
    ((parse_record_address (codes "Port0 (ABC=123,) QD4 int32")).valid ≡ false)
    × ((parse_record_address (codes "Port0 (ABC,abc) QD4 int32")).valid ≡ false)
unfolding parse_record_address parse_behind_port parse_parenthesis parse_device_parameters
    add_parameters add_parameter split_parameter to_upper trim trim_left trim_right split_string
refuses = (refl, refl)

parses_parameters : parse_device_parameters (codes "  abc =deF ,GHI =jkl") ≡ some two_parameters
unfolding parse_device_parameters add_parameters add_parameter split_parameter to_upper trim
    trim_left trim_right split_string
parses_parameters = refl

parse_device_parameters-IsMap_example : IsMap two_parameters
parse_device_parameters-IsMap_example =
    parse_device_parameters-IsMap (codes "  abc =deF ,GHI =jkl") parses_parameters

is_valid : (parse_record_address text).valid ≡ true
is_valid = rw parses refl

parse_record_address-IsComplete_example : IsComplete (parse_record_address text)
parse_record_address-IsComplete_example = parse_record_address-IsComplete text is_valid

string_to_plc_data_type_iff_example :
    (string_to_plc_data_type (codes "Int32") ≡ some int32)
    ↔ (to_lower (codes "Int32") ≡ name_of_type int32)
string_to_plc_data_type_iff_example = string_to_plc_data_type_iff (codes "Int32") int32

abbrev address : RecordAddress
address = record {
  port_name = codes "def";
  plc_address = output_double;
  plc_data_type = int32;
  record_parameters = two_parameters;
}

create_record_address_iff_example :
    (create_record_address (codes "def") output_double int32 two_parameters ≡ some address) ↔ (
      (address ≡ address)
      × (is_empty (codes "def") ≡ false)
      × (data_size_in_bits dword ≡ bits_of_type int32))
create_record_address_iff_example = create_record_address_iff address address
