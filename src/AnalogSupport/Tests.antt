-- ===== src/AnalogSupport/Tests.antt =====
-- Analog records whose calculations are kept as terms, and the theorems at them.
use s7nodave.AnalogSupport.Limits.{AreBothOrNone, limits_of, expected_limits, ai_limits, ao_limits}
use s7nodave.AnalogSupport.RoundTrip.{result, analog_write_internal-analog_read_internal}
use s7nodave.AnalogSupport.{
  Floats, Conversion, analog_read_internal, analog_write_internal, analog_extract_device_parameters,
  finish_init_record, ai_class, ao_class, analog_plc_data_type,
}
use s7nodave.Asyn.{int16, float, word, outputs}
use s7nodave.PlcAddress.{
  PlcAddress, create_from_string, parse_area, parse_rest, parse_element, parse_data_size,
  parse_start, string_to_area, string_to_data_size, atoi,
}
use s7nodave.Prelude.{ℕ, ◌≡◌, refl, false, none, some, [], ◌∷◌, Bytes, codes, ℤ, pos, negsuc, arith}
use s7nodave.Record.Input.{extract_poll_group}
use s7nodave.Record.{
  DeviceAddress, address_of_link, check_parsed, choose_address, default_plc_data_type,
}
use s7nodave.RecordAddress.{
  RecordAddress, parse_record_address, parse_device_parameters, create_record_address,
  split_parameter, add_parameter, add_parameters, finish_data_type, finish_address,
  parse_address_part, parse_parenthesis, parse_behind_port,
}
use s7nodave.Utilities.{to_upper, trim, trim_left, trim_right, split_string}

data Term : Type 0 where
  single : ℕ → Term
  integer : ℤ → Term
  text : Bytes → Term
  difference product quotient : Term → Term → Term

abbrev word_of : Term → ℕ
word_of (single n) = n
word_of _ = 0

abbrev terms : Floats Term
terms = record {
  of_float = single;
  to_float = word_of;
  of_integer = integer;
  strtod = text;
  minus = difference;
  times = product;
  over = quotient;
  is_equal = λ a b. false;
}

abbrev room : Bytes
room = 7 ∷ 7 ∷ 7 ∷ 7 ∷ 9 ∷ []

-- A value of a float is carried by `val`; 1.5 is stored as 3FC00000.
analog_write_internal-analog_read_internal_example :
    (s : Bytes) × (analog_write_internal terms (pos 3) (single 1069547520) room float
      ≡ some (s, false))
    × (analog_read_internal terms (pos 8) (single 0) s float
        ≡ some (result terms float (pos 3) (single 1069547520) (pos 8) (single 0)))
analog_write_internal-analog_read_internal_example =
    analog_write_internal-analog_read_internal terms float (pos 3) (pos 8) (single 1069547520)
      (single 0) room (omega arith, refl) (omega arith)

abbrev zero_limit : Term
zero_limit = integer (pos 0)

abbrev polled_link : DeviceAddress
polled_link = some (some (codes "plc(PG=fast,DLV=0,DHV=27648) QW4"))

abbrev plain_link : DeviceAddress
plain_link = some (some (codes "plc QW4"))

abbrev lone_link : DeviceAddress
lone_link = some (some (codes "plc(DLV=0) QW4"))

abbrev output_word : PlcAddress
output_word = record {
  area = outputs;
  area_number = pos 0;
  data_size = word;
  start_byte = pos 4;
  start_bit = pos 0;
}

abbrev polled_address : RecordAddress
polled_address = record {
  port_name = codes "plc";
  plc_address = output_word;
  plc_data_type = int16;
  record_parameters =
      (codes "DHV", some (codes "27648"))
      ∷ (codes "DLV", some (codes "0"))
      ∷ (codes "PG", some (codes "fast"))
      ∷ [];
}

abbrev plain_address : RecordAddress
plain_address = record {
  port_name = codes "plc";
  plc_address = output_word;
  plc_data_type = int16;
  record_parameters = [];
}

-- One limit alone is refused.
sets_up :
    (address_of_link (ai_class terms zero_limit zero_limit) polled_link ≡ some polled_address)
    × (address_of_link (ao_class terms zero_limit zero_limit) plain_link ≡ some plain_address)
    × (address_of_link (ai_class terms zero_limit zero_limit) lone_link ≡ none)
unfolding address_of_link check_parsed choose_address create_record_address default_plc_data_type
    analog_plc_data_type analog_extract_device_parameters extract_poll_group parse_record_address
    parse_behind_port parse_parenthesis parse_address_part finish_address finish_data_type to_upper
    trim trim_left trim_right split_string parse_device_parameters add_parameters add_parameter
    split_parameter create_from_string parse_area parse_rest parse_element parse_data_size
    parse_start string_to_area string_to_data_size atoi
sets_up = (refl, refl, refl)

-- The limits that are asked for, and those of 16 bits with a sign.
finds_limits :
    (expected_limits terms polled_address zero_limit zero_limit
      ≡ (text (codes "0"), text (codes "27648")))
    × (expected_limits terms plain_address zero_limit zero_limit
        ≡ (integer (negsuc 32767), integer (pos 32767)))
finds_limits = (refl, refl)

ai_limits_example :
    AreBothOrNone polled_address.record_parameters
    × (limits_of terms
          (extract_poll_group polled_address.record_parameters).0
          polled_address
          zero_limit
          zero_limit
        ≡ expected_limits terms polled_address zero_limit zero_limit)
ai_limits_example = ai_limits terms zero_limit zero_limit polled_link polled_address sets_up.0

ao_limits_example :
    AreBothOrNone plain_address.record_parameters
    × (limits_of terms plain_address.record_parameters plain_address zero_limit zero_limit
        ≡ expected_limits terms plain_address zero_limit zero_limit)
ao_limits_example = ao_limits terms zero_limit zero_limit plain_link plain_address sets_up.1

-- A record without parameters, before and after its set-up.
abbrev unset : Conversion Term
unset = record {
  device_low_value = zero_limit;
  device_high_value = zero_limit;
  eslo = zero_limit;
  eoff = zero_limit;
}

calculates :
    (finish_init_record terms plain_address unset (text (codes "10")) (text (codes "2"))).eslo
    ≡ quotient
        (difference (text (codes "10")) (text (codes "2")))
        (difference (integer (pos 32767)) (integer (negsuc 32767)))
unfolding finish_init_record
calculates = refl
