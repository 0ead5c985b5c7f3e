-- ===== src/LongSupport.antt =====
-- s7nodaveApp/src/LongSupport.cc: values of long records in the buffer that is exchanged with the PLC,
-- and the byte order of the buffer, from s7nodaveApp/src/S7nodaveRecord.cc.
-- The host is little-endian. `none` is a failed assertion, or an access behind the buffer.
pub mod RoundTrip
mod Tests
use s7nodave.Asyn.{PlcDataType, bool, int8, uint8, int16, uint16, int32, uint32, float}
use s7nodave.Prelude.{
  ℕ, suc, ◌+◌, ◌-◌, ◌*◌, ◌/◌, ◌%◌, ◌^◌, Bool, true, false, ◌||◌, Option, none, some, ◌>>=◌, [], ◌∷◌,
  Bytes, ltb, ◌==◌, if◌then◌else◌, ℤ, pos, negsuc, eqb_ℤ,
}

-- The words of 1, 2 and 4 bytes that a buffer begins with.
abbrev pub load8 : Bytes → Option ℕ
load8 (a ∷ s) = some a
load8 _ = none

abbrev pub load16 : Bytes → Option ℕ
load16 (a ∷ b ∷ s) = some (a + 256 * b)
load16 _ = none

abbrev pub load32 : Bytes → Option ℕ
load32 (a ∷ b ∷ c ∷ d ∷ s) = some (a + 256 * b + 65536 * c + 16777216 * d)
load32 _ = none

abbrev pub store8 : ℕ → Bytes → Option Bytes
store8 n (a ∷ s) = some (n % 256 ∷ s)
store8 n _ = none

abbrev pub store16 : ℕ → Bytes → Option Bytes
store16 n (a ∷ b ∷ s) = some (n % 256 ∷ n / 256 % 256 ∷ s)
store16 n _ = none

abbrev pub store32 : ℕ → Bytes → Option Bytes
store32 n (a ∷ b ∷ c ∷ d ∷ s) =
    some (n % 256 ∷ n / 256 % 256 ∷ n / 65536 % 256 ∷ n / 16777216 % 256 ∷ s)
store32 n _ = none

-- The conversions between an integer and a word of that many values, in two's complement.
abbrev pub signed : ℕ → ℕ → ℤ
signed size n = if ltb n (size / 2) then pos n else negsuc (size - 1 - n)

abbrev pub to_word : ℕ → ℤ → ℕ
to_word size (pos n) = n % size
to_word size (negsuc n) = size - 1 - n % size

-- The value, and whether an alarm was raised; the value stays as it was on an alarm.
unfoldable pub read_internal : ℤ → Bytes → PlcDataType → Option (ℤ × Bool)
read_internal val buffer bool = do n ← load8 buffer; some (pos n, false)
read_internal val buffer int8 = do n ← load8 buffer; some (signed (2 ^ 8) n, false)
read_internal val buffer uint8 = do n ← load8 buffer; some (pos n, false)
read_internal val buffer int16 = do n ← load16 buffer; some (signed (2 ^ 16) n, false)
read_internal val buffer uint16 = do n ← load16 buffer; some (pos n, false)
read_internal val buffer int32 = do n ← load32 buffer; some (signed (2 ^ 32) n, false)
read_internal val buffer uint32 = some (val, true)
read_internal val buffer float = some (val, true)

unfoldable pub write_internal : ℤ → Bytes → PlcDataType → Option (Bytes × Bool)
write_internal record_val buffer bool = do
  s ← store8 (if eqb_ℤ record_val (pos 0) then 0 else 1) buffer
  some (s, false)
write_internal record_val buffer int8 = do
  s ← store8 (to_word (2 ^ 8) record_val) buffer
  some (s, false)
write_internal record_val buffer uint8 = do
  s ← store8 (to_word (2 ^ 8) record_val) buffer
  some (s, false)
write_internal record_val buffer int16 = do
  s ← store16 (to_word (2 ^ 16) record_val) buffer
  some (s, false)
write_internal record_val buffer uint16 = do
  s ← store16 (to_word (2 ^ 16) record_val) buffer
  some (s, false)
write_internal record_val buffer int32 = do
  s ← store32 (to_word (2 ^ 32) record_val) buffer
  some (s, false)
write_internal record_val buffer uint32 = some (buffer, true)
write_internal record_val buffer float = some (buffer, true)

abbrev pub is_unsupported : PlcDataType → Bool
is_unsupported uint32 = true
is_unsupported float = true
is_unsupported _ = false

-- The type that the user asked for, or else the default one.
unfoldable pub get_plc_data_type : Option PlcDataType → Option PlcDataType → Option PlcDataType
get_plc_data_type (some t) default_type = if is_unsupported t then none else some t
get_plc_data_type none (some t) = if is_unsupported t then some int32 else some t
get_plc_data_type none none = none

abbrev pub swap16 : Bytes → Option Bytes
swap16 [] = some []
swap16 (a ∷ []) = none
swap16 (a ∷ b ∷ s) = do s' ← swap16 s; some (b ∷ a ∷ s')

abbrev pub swap32 : Bytes → Option Bytes
swap32 [] = some []
swap32 (a ∷ b ∷ c ∷ d ∷ s) = do s' ← swap32 s; some (d ∷ c ∷ b ∷ a ∷ s')
swap32 _ = none

unfoldable pub convert_from_or_to_plc_byte_order : Bytes → PlcDataType → Option Bytes
convert_from_or_to_plc_byte_order buffer bool = some buffer
convert_from_or_to_plc_byte_order buffer int8 = some buffer
convert_from_or_to_plc_byte_order buffer uint8 = some buffer
convert_from_or_to_plc_byte_order buffer int16 = swap16 buffer
convert_from_or_to_plc_byte_order buffer uint16 = swap16 buffer
convert_from_or_to_plc_byte_order buffer int32 = swap32 buffer
convert_from_or_to_plc_byte_order buffer uint32 = swap32 buffer
convert_from_or_to_plc_byte_order buffer float = swap32 buffer
