-- ===== src/ArraySupport.antt =====
-- s7nodaveApp/src/ArraySupport.cc: the data types of arrays, and the sizes of their buffers.
-- The types of the elements of a record are those of EPICS; `dbf_other` is any other one.
pub mod DataTypes
pub mod Elements
pub mod Bits
pub mod Flags
pub mod Numbers
pub mod RoundTrip
mod ElementTests
mod Tests
use s7nodave.Asyn.{
  PlcDataType, bool, int8, uint8, int16, uint16, int32, uint32, float, PlcDataSize, bit, byte, word,
  dword,
}
use s7nodave.Prelude.{
  ℕ, ◌+◌, ◌*◌, ◌/◌, ◌%◌, ◌^◌, Bool, true, false, Option, none, some, leb, ◌==◌, if◌then◌else◌,
}

pub data FieldType : Type 0 where
  dbf_string dbf_char dbf_uchar dbf_short dbf_ushort dbf_enum dbf_long dbf_ulong : FieldType
  dbf_float dbf_double dbf_other : FieldType

-- The types that may be read into elements.
abbrev pub is_allowed_in : FieldType → PlcDataType → Bool
is_allowed_in dbf_string int8 = true
is_allowed_in dbf_string uint8 = true
is_allowed_in dbf_char bool = true
is_allowed_in dbf_char int8 = true
is_allowed_in dbf_uchar bool = true
is_allowed_in dbf_uchar uint8 = true
is_allowed_in dbf_short bool = true
is_allowed_in dbf_short int8 = true
is_allowed_in dbf_short uint8 = true
is_allowed_in dbf_short int16 = true
is_allowed_in dbf_ushort bool = true
is_allowed_in dbf_ushort uint8 = true
is_allowed_in dbf_ushort uint16 = true
is_allowed_in dbf_enum bool = true
is_allowed_in dbf_enum uint8 = true
is_allowed_in dbf_enum uint16 = true
is_allowed_in dbf_long bool = true
is_allowed_in dbf_long int8 = true
is_allowed_in dbf_long uint8 = true
is_allowed_in dbf_long int16 = true
is_allowed_in dbf_long uint16 = true
is_allowed_in dbf_long int32 = true
is_allowed_in dbf_ulong bool = true
is_allowed_in dbf_ulong uint8 = true
is_allowed_in dbf_ulong uint16 = true
is_allowed_in dbf_ulong uint32 = true
is_allowed_in dbf_float t = true
is_allowed_in dbf_double t = true
is_allowed_in f t = false

-- The type that is read into elements if none was asked for.
abbrev pub default_type_in : FieldType → PlcDataSize → Option PlcDataType
default_type_in dbf_string byte = some int8
default_type_in dbf_char bit = some bool
default_type_in dbf_char byte = some int8
default_type_in dbf_uchar bit = some bool
default_type_in dbf_uchar byte = some uint8
default_type_in dbf_short bit = some bool
default_type_in dbf_short byte = some int8
default_type_in dbf_short word = some int16
default_type_in dbf_ushort bit = some bool
default_type_in dbf_ushort byte = some uint8
default_type_in dbf_ushort word = some uint16
default_type_in dbf_enum bit = some bool
default_type_in dbf_enum byte = some uint8
default_type_in dbf_enum word = some uint16
default_type_in dbf_long bit = some bool
default_type_in dbf_long byte = some int8
default_type_in dbf_long word = some int16
default_type_in dbf_long dword = some int32
default_type_in dbf_ulong bit = some bool
default_type_in dbf_ulong byte = some uint8
default_type_in dbf_ulong word = some uint16
default_type_in dbf_ulong dword = some uint32
default_type_in dbf_float bit = some bool
default_type_in dbf_float byte = some uint8
default_type_in dbf_float word = some uint16
default_type_in dbf_float dword = some float
default_type_in dbf_double bit = some bool
default_type_in dbf_double byte = some uint8
default_type_in dbf_double word = some uint16
default_type_in dbf_double dword = some float
default_type_in f s = none

unfoldable pub get_plc_data_type_in :
    PlcDataSize → Option PlcDataType → FieldType → Option PlcDataType
get_plc_data_type_in size (some t) ftvl = if is_allowed_in ftvl t then some t else none
get_plc_data_type_in size none ftvl = default_type_in ftvl size

-- The types to which elements may be written.
abbrev pub is_allowed_out : FieldType → PlcDataType → Bool
is_allowed_out dbf_string int8 = true
is_allowed_out dbf_string uint8 = true
is_allowed_out dbf_char bool = true
is_allowed_out dbf_char int8 = true
is_allowed_out dbf_char int16 = true
is_allowed_out dbf_char int32 = true
is_allowed_out dbf_char float = true
is_allowed_out dbf_uchar bool = true
is_allowed_out dbf_uchar uint8 = true
is_allowed_out dbf_uchar int16 = true
is_allowed_out dbf_uchar uint16 = true
is_allowed_out dbf_uchar int32 = true
is_allowed_out dbf_uchar uint32 = true
is_allowed_out dbf_uchar float = true
is_allowed_out dbf_short bool = true
is_allowed_out dbf_short int16 = true
is_allowed_out dbf_short int32 = true
is_allowed_out dbf_short float = true
is_allowed_out dbf_ushort bool = true
is_allowed_out dbf_ushort uint16 = true
is_allowed_out dbf_ushort int32 = true
is_allowed_out dbf_ushort uint32 = true
is_allowed_out dbf_ushort float = true
is_allowed_out dbf_enum bool = true
is_allowed_out dbf_enum uint16 = true
is_allowed_out dbf_enum int32 = true
is_allowed_out dbf_enum uint32 = true
is_allowed_out dbf_enum float = true
is_allowed_out dbf_long bool = true
is_allowed_out dbf_long int32 = true
is_allowed_out dbf_long float = true
is_allowed_out dbf_ulong bool = true
is_allowed_out dbf_ulong uint32 = true
is_allowed_out dbf_ulong float = true
is_allowed_out dbf_float float = true
is_allowed_out dbf_double float = true
is_allowed_out f t = false

-- The type to which elements are written if none was asked for.
abbrev pub default_type_out : FieldType → PlcDataSize → Option PlcDataType
default_type_out dbf_string byte = some int8
default_type_out dbf_char bit = some bool
default_type_out dbf_char byte = some int8
default_type_out dbf_char word = some int16
default_type_out dbf_char dword = some int32
default_type_out dbf_uchar bit = some bool
default_type_out dbf_uchar byte = some uint8
default_type_out dbf_uchar word = some uint16
default_type_out dbf_uchar dword = some uint32
default_type_out dbf_short bit = some bool
default_type_out dbf_short word = some int16
default_type_out dbf_short dword = some int32
default_type_out dbf_ushort bit = some bool
default_type_out dbf_ushort word = some uint16
default_type_out dbf_ushort dword = some uint32
default_type_out dbf_enum bit = some bool
default_type_out dbf_enum word = some uint16
default_type_out dbf_enum dword = some uint32
default_type_out dbf_long bit = some bool
default_type_out dbf_long dword = some int32
default_type_out dbf_ulong bit = some bool
default_type_out dbf_ulong dword = some uint32
default_type_out dbf_float bit = some bool
default_type_out dbf_float dword = some float
default_type_out dbf_double bit = some bool
default_type_out dbf_double dword = some float
default_type_out f s = none

unfoldable pub get_plc_data_type_out :
    PlcDataSize → Option PlcDataType → FieldType → Option PlcDataType
get_plc_data_type_out size (some t) ftvl = if is_allowed_out ftvl t then some t else none
get_plc_data_type_out size none ftvl = default_type_out ftvl size

-- Whether a buffer has room for so many elements; their size is a 32-bit number.
unfoldable pub check_buffer_size : ℕ → ℕ → PlcDataType → Bool
check_buffer_size size n bool = leb (n / 8 + (if n % 8 == 0 then 0 else 1)) size
check_buffer_size size n int8 = leb n size
check_buffer_size size n uint8 = leb n size
check_buffer_size size n int16 = leb (n * 2 % 2 ^ 32) size
check_buffer_size size n uint16 = leb (n * 2 % 2 ^ 32) size
check_buffer_size size n int32 = leb (n * 4 % 2 ^ 32) size
check_buffer_size size n uint32 = leb (n * 4 % 2 ^ 32) size
check_buffer_size size n float = leb (n * 4 % 2 ^ 32) size
