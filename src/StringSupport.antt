-- ===== src/StringSupport.antt =====
-- s7nodaveApp/src/StringSupport.cc: texts of string records in the buffer that is exchanged with the PLC.
-- `none` is a failed assertion, or an access behind a buffer or behind a text that has no end.
pub mod RoundTrip
mod Tests
use s7nodave.Asyn.{
  PlcDataType, bool, int8, uint8, int16, uint16, int32, uint32, float, PlcDataSize, bit, byte, word,
  dword,
}
use s7nodave.LongSupport.{load8, store8}
use s7nodave.Prelude.{
  ℕ, zero, suc, ◌*◌, Bool, true, false, ◌||◌, Option, none, some, ◌>>=◌, [], ◌∷◌, ◌++◌, Bytes,
  codes, bytes_eq, ◌==◌, if◌then◌else◌, leb, length, drop,
}
use s7nodave.Utilities.{trim, to_upper}

-- `MAX_STRING_SIZE` is 40 in EPICS.
abbrev pub max_string_size : ℕ
max_string_size = 40

abbrev pub zeros : ℕ → Bytes
zeros zero = []
zeros (suc n) = 0 ∷ zeros n

-- The C function, which fills up with zeros behind the end of the text.
unfoldable pub strncpy : ℕ → Bytes → Option Bytes
strncpy zero s = some []
strncpy (suc n) [] = none
strncpy (suc n) (c ∷ s) =
    let rest = strncpy n s in if c == 0 then some (zeros (suc n)) else (do r ← rest; some (c ∷ r))

-- The byte at this place becomes zero.
abbrev pub end_at : ℕ → Bytes → Bytes
end_at n [] = []
end_at zero (c ∷ s) = 0 ∷ s
end_at (suc n) (c ∷ s) = c ∷ end_at n s

unfoldable pub copy_string : Bytes → Option Bytes
copy_string s = do r ← strncpy 40 s; some (end_at 39 r)

-- The text up to its end.
abbrev pub c_string : Bytes → Option Bytes
c_string [] = none
c_string (c ∷ s) = let rest = c_string s in if c == 0 then some [] else (do r ← rest; some (c ∷ r))

-- The text of the record, and whether an alarm was raised.
unfoldable pub string_read_internal : Bytes → Bytes → PlcDataType → Option (Bytes × Bool)
string_read_internal val buffer bool = do
  b ← load8 buffer
  r ← copy_string ((if b == 0 then codes "FALSE" else codes "TRUE") ++ 0 ∷ [])
  some (r, false)
string_read_internal val buffer int8 =
    if leb 40 (length buffer) then (do r ← copy_string buffer; some (r, false)) else none
string_read_internal val buffer uint8 =
    if leb 40 (length buffer) then (do r ← copy_string buffer; some (r, false)) else none
string_read_internal val buffer _ = some (val, true)

abbrev pub is_true_text : Bytes → Bool
is_true_text s = bytes_eq s (codes "TRUE") || bytes_eq s (codes "1")

unfoldable pub write_characters : Bytes → Bytes → Option (Bytes × Bool)
write_characters val buffer =
    if leb 40 (length buffer)
    then (do r ← copy_string val; some (r ++ drop 40 buffer, false))
    else none

unfoldable pub string_write_internal : Bytes → Bytes → PlcDataType → Option (Bytes × Bool)
unfolding write_characters
string_write_internal val buffer bool = do
  s ← c_string val
  b ← store8 (if is_true_text (to_upper (trim s)) then 1 else 0) buffer
  some (b, false)
string_write_internal val buffer int8 = write_characters val buffer
string_write_internal val buffer uint8 = write_characters val buffer
string_write_internal val buffer _ = some (buffer, true)

abbrev pub is_string_type : PlcDataType → Bool
is_string_type bool = true
is_string_type int8 = true
is_string_type uint8 = true
is_string_type _ = false

unfoldable pub string_plc_data_type : PlcDataSize → Option PlcDataType → Option PlcDataType
string_plc_data_type size (some t) = if is_string_type t then some t else none
string_plc_data_type bit none = some bool
string_plc_data_type byte none = some int8
string_plc_data_type word none = none
string_plc_data_type dword none = none

abbrev pub string_buffer_size_in_bits : PlcDataType → ℕ
string_buffer_size_in_bits bool = 8
string_buffer_size_in_bits _ = max_string_size * 8
