-- ===== src/AnalogSupport.antt =====
-- s7nodaveApp/src/AnalogSupport.cc: values of analog records in the buffer that is exchanged with the PLC, and
-- the limits and factors of their conversion; s7nodaveApp/src/S7nodaveAiRecord.h and S7nodaveAoRecord.h, which
-- use it. The arithmetic of `double` is a parameter. `none` is a failed assertion.
pub mod RoundTrip
pub mod Limits
mod Tests
use s7nodave.Asyn.{PlcDataType, bool, int8, uint8, int16, uint16, int32, uint32, float}
use s7nodave.LongSupport.{load8, load16, load32, store8, store16, store32, signed, to_word}
use s7nodave.PlcAddress.{data_size_in_bits}
use s7nodave.Prelude.{
  ℕ, zero, suc, ◌-◌, ◌^◌, Bool, true, false, not, Option, none, some, ◌>>=◌, List, [], ◌∷◌, Bytes,
  codes, if◌then◌else◌, ℤ, pos, negsuc, eqb_ℤ,
}
use s7nodave.Record.Input.{extract_poll_group}
use s7nodave.Record.{RecordClass, default_plc_data_type}
use s7nodave.RecordAddress.Parameters.{find_parameter, erase_parameter}
use s7nodave.RecordAddress.{DeviceParameters, RecordAddress}

-- What the code uses of `double` and of its conversions. A `float` is here the word that it is stored as.
pub record Floats {ℓ} (D : Type ℓ) : Type ℓ where
  pub of_float : ℕ → D
  pub to_float : D → ℕ
  pub of_integer : ℤ → D
  pub strtod : Bytes → D
  pub minus : D → D → D
  pub times : D → D → D
  pub over : D → D → D
  pub is_equal : D → D → Bool

-- `rval` and `val` of a record, and whether an alarm was raised.
pub record Analog {ℓ} (D : Type ℓ) : Type ℓ where
  pub rval : ℤ
  pub val : D
  pub alarm : Bool

-- The members of a record's object, and the fields of the record that are calculated from them.
pub record Conversion {ℓ} (D : Type ℓ) : Type ℓ where
  pub device_low_value : D
  pub device_high_value : D
  pub eslo : D
  pub eoff : D

-- `RECORD_STATUS_OK`, `RECORD_STATUS_OK_NO_CONVERT` and `RECORD_STATUS_ERROR`.
pub data AnalogStatus : Type 0 where
  converts keeps_val fails : AnalogStatus

-- The type that the user asked for, or else the default one.
unfoldable pub analog_plc_data_type : Option PlcDataType → Option PlcDataType → Option PlcDataType
analog_plc_data_type (some uint32) default_type = none
analog_plc_data_type (some t) default_type = some t
analog_plc_data_type none (some uint32) = some int32
analog_plc_data_type none default_type = default_type

abbrev pub dlv : Bytes
dlv = codes "DLV"

abbrev pub dhv : Bytes
dhv = codes "DHV"

-- 1 shifted left.
abbrev pub shifted_one : ℕ → ℕ
shifted_one n = 2 ^ n

abbrev pub negated : ℕ → ℤ
negated zero = pos 0
negated (suc n) = negsuc n

-- The least and the greatest value of a type of a size in bits; a `float` leaves them as they were.
unfoldable pub size_limits : ℕ → PlcDataType → Option (ℤ × ℤ)
size_limits n bool = some (pos 0, pos (shifted_one n - 1))
size_limits n uint8 = some (pos 0, pos (shifted_one n - 1))
size_limits n uint16 = some (pos 0, pos (shifted_one n - 1))
size_limits n uint32 = some (pos 0, pos (shifted_one n - 1))
size_limits n int8 = some (negated (shifted_one (n - 1)), pos (shifted_one (n - 1) - 1))
size_limits n int16 = some (negated (shifted_one (n - 1)), pos (shifted_one (n - 1) - 1))
size_limits n int32 = some (negated (shifted_one (n - 1)), pos (shifted_one (n - 1) - 1))
size_limits n float = none

module _ {ℓ} {D : Type ℓ} (fl : Floats D) where
  unfoldable pub analog_read_internal : ℤ → D → Bytes → PlcDataType → Option (Analog D)
  analog_read_internal rval val buffer bool = do
    n ← load8 buffer
    some (record { rval = pos n; val = val; alarm = false })
  analog_read_internal rval val buffer int8 = do
    n ← load8 buffer
    some (record { rval = signed (2 ^ 8) n; val = val; alarm = false })
  analog_read_internal rval val buffer uint8 = do
    n ← load8 buffer
    some (record { rval = pos n; val = val; alarm = false })
  analog_read_internal rval val buffer int16 = do
    n ← load16 buffer
    some (record { rval = signed (2 ^ 16) n; val = val; alarm = false })
  analog_read_internal rval val buffer uint16 = do
    n ← load16 buffer
    some (record { rval = pos n; val = val; alarm = false })
  analog_read_internal rval val buffer int32 = do
    n ← load32 buffer
    some (record { rval = signed (2 ^ 32) n; val = val; alarm = false })
  analog_read_internal rval val buffer float = do
    n ← load32 buffer
    some (record { rval = rval; val = fl.of_float n; alarm = false })
  analog_read_internal rval val buffer uint32 =
      some (record { rval = rval; val = val; alarm = true })

  -- The buffer, and whether an alarm was raised.
  unfoldable pub analog_write_internal : ℤ → D → Bytes → PlcDataType → Option (Bytes × Bool)
  analog_write_internal rval val buffer bool = do
    s ← store8 (if eqb_ℤ rval (pos 0) then 0 else 1) buffer
    some (s, false)
  analog_write_internal rval val buffer int8 = do
    s ← store8 (to_word (2 ^ 8) rval) buffer
    some (s, false)
  analog_write_internal rval val buffer uint8 = do
    s ← store8 (to_word (2 ^ 8) rval) buffer
    some (s, false)
  analog_write_internal rval val buffer int16 = do
    s ← store16 (to_word (2 ^ 16) rval) buffer
    some (s, false)
  analog_write_internal rval val buffer uint16 = do
    s ← store16 (to_word (2 ^ 16) rval) buffer
    some (s, false)
  analog_write_internal rval val buffer int32 = do
    s ← store32 (to_word (2 ^ 32) rval) buffer
    some (s, false)
  analog_write_internal rval val buffer float = do
    s ← store32 (fl.to_float val) buffer
    some (s, false)
  analog_write_internal rval val buffer uint32 = some (buffer, true)

  -- The parameters that are left over, and the limits.
  unfoldable pub analog_extract_device_parameters :
      DeviceParameters → D → D → DeviceParameters × D × D
  analog_extract_device_parameters m low high = elim (find_parameter dlv m) [
    | none ↦ (m, low, high)
    | some l ↦ elim (find_parameter dhv m) [
      | none ↦ (m, low, high)
      | some h ↦ elim l [
        | none ↦ (m, low, high)
        | some s ↦ elim h [
          | none ↦ (m, low, high)
          | some u ↦ (erase_parameter dhv (erase_parameter dlv m), fl.strtod s, fl.strtod u)
        ]
      ]
    ]
  ]

  -- The limits, which the parameters have set already if there are any.
  unfoldable pub init_device_limits : RecordAddress → D → D → D × D
  unfolding size_limits
  init_device_limits a low high = elim (find_parameter dlv a.record_parameters) [
    | some v ↦ (low, high)
    | none ↦ elim (size_limits (data_size_in_bits a.plc_address.data_size) a.plc_data_type) [
      | none ↦ (low, high)
      | some r ↦ (fl.of_integer r.0, fl.of_integer r.1)
    ]
  ]

  -- `c` before, and the fields `eguf` and `egul`.
  unfoldable pub convert_internal : Conversion D → D → D → Conversion D
  convert_internal c eguf egul =
      if not (fl.is_equal c.device_low_value c.device_high_value)
      then record c {
        eslo = fl.over (fl.minus eguf egul) (fl.minus c.device_high_value c.device_low_value);
        eoff =
            fl.over
              (fl.minus (fl.times c.device_high_value egul) (fl.times c.device_low_value eguf))
              (fl.minus c.device_high_value c.device_low_value);
      }
      else c

  -- `convertRecord`, which does nothing before the record was initialised.
  unfoldable pub convert_record : ℕ → Conversion D → D → D → Conversion D
  unfolding convert_internal
  convert_record zero c eguf egul = c
  convert_record (suc pass) c eguf egul = convert_internal c eguf egul

  -- What `initRecord` adds to that of the base class, which has succeeded with this address.
  unfoldable pub finish_init_record : RecordAddress → Conversion D → D → D → Conversion D
  unfolding convert_record init_device_limits
  finish_init_record a c eguf egul =
      let limits = init_device_limits a c.device_low_value c.device_high_value in
      convert_record 1 (record c { device_low_value = limits.0; device_high_value = limits.1 }) eguf
        egul

-- The two classes; what is found behind the limits in their members is of no use to the base class.
module _ {ℓ} {D : Type ℓ} (fl : Floats D) (low high : D) where
  abbrev pub ai_class : RecordClass
  ai_class = record {
    extract_device_parameters =
        λ m. (analog_extract_device_parameters fl (extract_poll_group m).0 low high).0;
    get_plc_data_type = λ a t. analog_plc_data_type t (default_plc_data_type a t);
  }

  abbrev pub ao_class : RecordClass
  ao_class = record {
    extract_device_parameters = λ m. (analog_extract_device_parameters fl m low high).0;
    get_plc_data_type = λ a t. analog_plc_data_type t (default_plc_data_type a t);
  }

-- Whether the record's support may calculate `val` from `rval`: of an input when it was processed, of an output
-- when it was set up; from whether the base class has succeeded.
unfoldable pub analog_status : Bool → PlcDataType → AnalogStatus
analog_status true float = keeps_val
analog_status true _ = converts
analog_status false t = fails
