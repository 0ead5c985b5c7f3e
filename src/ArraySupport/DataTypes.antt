-- ===== src/ArraySupport/DataTypes.antt =====
-- The data types that s7nodaveApp/src/ArraySupport.cc chooses lose no values.
use s7nodave.ArraySupport.{
  FieldType, dbf_string, dbf_char, dbf_uchar, dbf_short, dbf_ushort, dbf_enum, dbf_long, dbf_ulong,
  is_allowed_in, default_type_in, get_plc_data_type_in, is_allowed_out, default_type_out,
  get_plc_data_type_out,
}
use s7nodave.Asyn.{
  PlcDataType, bool, int8, uint8, int16, uint16, int32, uint32, float, PlcDataSize, bit, byte, word,
  dword,
}
use s7nodave.PlcAddress.{data_size_in_bits}
use s7nodave.Prelude.{
  ◌≡◌, refl, Bool, true, false, not, ◌&&◌, ◌||◌, Option, none, some, ltb_ℤ, ℤ, pos, negsuc, ◌==◌,
  when_some, subst, some_inj,
}
use s7nodave.RecordAddress.{bits_of_type}

-- The least and the greatest number of a type of the PLC; a float has none here.
abbrev pub type_range : PlcDataType → Option (ℤ × ℤ)
type_range bool = some (pos 0, pos 1)
type_range int8 = some (negsuc 127, pos 127)
type_range uint8 = some (pos 0, pos 255)
type_range int16 = some (negsuc 32767, pos 32767)
type_range uint16 = some (pos 0, pos 65535)
type_range int32 = some (negsuc 2147483647, pos 2147483647)
type_range uint32 = some (pos 0, pos 4294967295)
type_range float = none

-- The same for the elements of a record, where texts and floats have none.
abbrev pub field_range : FieldType → Option (ℤ × ℤ)
field_range dbf_char = some (negsuc 127, pos 127)
field_range dbf_uchar = some (pos 0, pos 255)
field_range dbf_short = some (negsuc 32767, pos 32767)
field_range dbf_ushort = some (pos 0, pos 65535)
field_range dbf_enum = some (pos 0, pos 65535)
field_range dbf_long = some (negsuc 2147483647, pos 2147483647)
field_range dbf_ulong = some (pos 0, pos 4294967295)
field_range _ = none

abbrev pub is_inside : ℤ × ℤ → ℤ × ℤ → Bool
is_inside (a, b) (low, high) = not (ltb_ℤ a low) && not (ltb_ℤ high b)

-- Each number of the PLC's type is one of the element, if the element holds integers.
abbrev pub reads_all : FieldType → PlcDataType → Bool
reads_all f t = elim (field_range f) [
  | none ↦ true
  | some r ↦ elim (type_range t) [ none ↦ false | some q ↦ is_inside q r ]
]

-- Each number of the element is one of the PLC's type, if both are integers wider than a bit.
abbrev pub writes_all : FieldType → PlcDataType → Bool
writes_all f bool = true
writes_all f t = elim (type_range t) [
  | none ↦ true
  | some q ↦ elim (field_range f) [ none ↦ true | some r ↦ is_inside r q ]
]

-- A test of an element's type and of another value that another test follows from.
abbrev implies : Bool → Bool → Bool
implies a b = not a || b

modus : (a b : Bool) → implies a b ≡ true → a ≡ true → b ≡ true
modus true b h k = h
modus false b h k = cc

-- The chosen type has the size of the memory, and this test of it holds.
abbrev is_chosen : (PlcDataType → Bool) → PlcDataSize → Option PlcDataType → Bool
is_chosen good size none = true
is_chosen good size (some t) = data_size_in_bits size == bits_of_type t && good t

allowed_in_reads :
    (f : FieldType) (x : PlcDataType) → implies (is_allowed_in f x) (reads_all f x) ≡ true
allowed_in_reads dbf_string bool = refl
allowed_in_reads f bool = refl
allowed_in_reads dbf_string int8 = refl
allowed_in_reads f int8 = refl
allowed_in_reads dbf_string uint8 = refl
allowed_in_reads f uint8 = refl
allowed_in_reads dbf_string int16 = refl
allowed_in_reads f int16 = refl
allowed_in_reads dbf_string uint16 = refl
allowed_in_reads f uint16 = refl
allowed_in_reads dbf_string int32 = refl
allowed_in_reads f int32 = refl
allowed_in_reads dbf_string uint32 = refl
allowed_in_reads f uint32 = refl
allowed_in_reads dbf_string float = refl
allowed_in_reads f float = refl

allowed_out_writes :
    (f : FieldType) (x : PlcDataType) → implies (is_allowed_out f x) (writes_all f x) ≡ true
allowed_out_writes dbf_string bool = refl
allowed_out_writes f bool = refl
allowed_out_writes dbf_string int8 = refl
allowed_out_writes f int8 = refl
allowed_out_writes dbf_string uint8 = refl
allowed_out_writes f uint8 = refl
allowed_out_writes dbf_string int16 = refl
allowed_out_writes f int16 = refl
allowed_out_writes dbf_string uint16 = refl
allowed_out_writes f uint16 = refl
allowed_out_writes dbf_string int32 = refl
allowed_out_writes f int32 = refl
allowed_out_writes dbf_string uint32 = refl
allowed_out_writes f uint32 = refl
allowed_out_writes dbf_string float = refl
allowed_out_writes f float = refl

default_in_reads :
    (f : FieldType) (x : PlcDataSize) → is_chosen (reads_all f) x (default_type_in f x) ≡ true
default_in_reads dbf_string bit = refl
default_in_reads f bit = refl
default_in_reads dbf_string byte = refl
default_in_reads f byte = refl
default_in_reads dbf_string word = refl
default_in_reads f word = refl
default_in_reads dbf_string dword = refl
default_in_reads f dword = refl

default_out_writes :
    (f : FieldType) (x : PlcDataSize) → is_chosen (writes_all f) x (default_type_out f x) ≡ true
default_out_writes dbf_string bit = refl
default_out_writes f bit = refl
default_out_writes dbf_string byte = refl
default_out_writes f byte = refl
default_out_writes dbf_string word = refl
default_out_writes f word = refl
default_out_writes dbf_string dword = refl
default_out_writes f dword = refl

second : (a b : Bool) → (a && b) ≡ true → b ≡ true
second true b h = h
second false b h = cc

chosen_good :
    (good : PlcDataType → Bool) (size : PlcDataSize) (o : Option PlcDataType) {t : PlcDataType}
    → is_chosen good size o ≡ true
    → o ≡ some t
    → good t ≡ true
chosen_good good size none h e = cc
chosen_good good size (some u) h e = subst (λ x. good x ≡ true) (some_inj e) (second _ _ h)

-- If a type is chosen for reading, asked for or not, then the elements can hold all its numbers, unless they
-- are texts or floats.
pub get_plc_data_type_in-reads_all :
    (size : PlcDataSize) (suggestion : Option PlcDataType) (f : FieldType) {t : PlcDataType}
    → get_plc_data_type_in size suggestion f ≡ some t
    → reads_all f t ≡ true
unfolding get_plc_data_type_in
get_plc_data_type_in-reads_all size none f e =
    chosen_good (reads_all f) size _ (default_in_reads f size) e
get_plc_data_type_in-reads_all size (some u) f e =
    let (allowed, k) = when_some (is_allowed_in f u) (some u) e in
    subst (λ x. reads_all f x ≡ true) (some_inj k) (modus _ _ (allowed_in_reads f u) allowed)

-- If a type is chosen for writing, asked for or not, then it can hold all the numbers of the elements, unless
-- it is that of bits or of floats or the elements are texts or floats.
pub get_plc_data_type_out-writes_all :
    (size : PlcDataSize) (suggestion : Option PlcDataType) (f : FieldType) {t : PlcDataType}
    → get_plc_data_type_out size suggestion f ≡ some t
    → writes_all f t ≡ true
unfolding get_plc_data_type_out
get_plc_data_type_out-writes_all size none f e =
    chosen_good (writes_all f) size _ (default_out_writes f size) e
get_plc_data_type_out-writes_all size (some u) f e =
    let (allowed, k) = when_some (is_allowed_out f u) (some u) e in
    subst (λ x. writes_all f x ≡ true) (some_inj k) (modus _ _ (allowed_out_writes f u) allowed)
