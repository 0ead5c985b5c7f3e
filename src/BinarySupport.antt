-- ===== src/BinarySupport.antt =====
-- s7nodaveApp/src/BinarySupport.cc: values of binary records in the buffer that is exchanged with the PLC.
-- The host is little-endian, and a float is its IEEE word. `none` is a failed assertion.
pub mod RoundTrip
mod Tests
use s7nodave.Asyn.{PlcDataType, bool, int8, uint8, int16, uint16, int32, uint32, float}
use s7nodave.LongSupport.{load8, load16, load32, store8, store16, store32}
use s7nodave.Prelude.{ℕ, Bool, ◌||◌, Option, none, some, ◌>>=◌, Bytes, ◌==◌, if◌then◌else◌}

-- What is not a value: 0.0, -0.0 and the infinities. No number equals a NaN, so one is a value.
abbrev pub is_float_zero : ℕ → Bool
is_float_zero n = n == 0 || (n == 0x8000_0000 || (n == 0x7f80_0000 || n == 0xff80_0000))

abbrev pub flag : ℕ → ℕ
flag n = if n == 0 then 0 else 1

unfoldable pub binary_read_internal : Bytes → PlcDataType → Option ℕ
binary_read_internal buffer bool = do val ← load8 buffer; some (flag val)
binary_read_internal buffer int8 = do val ← load8 buffer; some (flag val)
binary_read_internal buffer uint8 = do val ← load8 buffer; some (flag val)
binary_read_internal buffer int16 = do val ← load16 buffer; some (flag val)
binary_read_internal buffer uint16 = do val ← load16 buffer; some (flag val)
binary_read_internal buffer int32 = do val ← load32 buffer; some (flag val)
binary_read_internal buffer uint32 = do val ← load32 buffer; some (flag val)
binary_read_internal buffer float = do
  val ← load32 buffer
  some (if is_float_zero val then 0 else 1)

-- The word of 1.0 is written to a float.
unfoldable pub binary_write_internal : ℕ → Bytes → PlcDataType → Option Bytes
binary_write_internal rval buffer bool = store8 (flag rval) buffer
binary_write_internal rval buffer int8 = store8 (flag rval) buffer
binary_write_internal rval buffer uint8 = store8 (flag rval) buffer
binary_write_internal rval buffer int16 = store16 (flag rval) buffer
binary_write_internal rval buffer uint16 = store16 (flag rval) buffer
binary_write_internal rval buffer int32 = store32 (flag rval) buffer
binary_write_internal rval buffer uint32 = store32 (flag rval) buffer
binary_write_internal rval buffer float = store32 (if rval == 0 then 0 else 0x3f80_0000) buffer

abbrev pub binary_plc_data_type : Option PlcDataType → Option PlcDataType → Option PlcDataType
binary_plc_data_type (some t) default_type = some t
binary_plc_data_type none default_type = default_type
