-- ===== src/ArraySupport/Elements.antt =====
-- s7nodaveApp/src/ArraySupport.cc: the elements of an array record, between the record and the buffer that is
-- exchanged with the PLC, and the size of that buffer, from s7nodaveApp/src/S7nodaveAaiRecord.h.
-- The arithmetic of `double` is a parameter. `none` is a failed assertion, or an access behind a buffer. The
-- two operands of the `|=` in the code have no bit in common, so it is a sum here. Traces are left out.
use s7nodave.ArraySupport.{
  FieldType, dbf_string, dbf_char, dbf_uchar, dbf_short, dbf_ushort, dbf_enum, dbf_long, dbf_ulong,
  dbf_float, dbf_double, dbf_other, check_buffer_size,
}
use s7nodave.Asyn.{PlcDataType, bool, int8, uint8, int16, uint16, int32, uint32, float}
use s7nodave.LongSupport.{signed, to_word}
use s7nodave.Prelude.{
  ℕ, zero, suc, ◌+◌, ◌-◌, ◌*◌, ◌/◌, ◌%◌, ◌^◌, Bool, Option, none, some, ◌>>=◌, [], ◌∷◌, ◌++◌, Bytes,
  codes, leb, ◌==◌, if◌then◌else◌, length, take, drop, get_elem?, ℤ, pos, eqb_ℤ,
}
use s7nodave.StringSupport.{max_string_size, strncpy, end_at, c_string, is_true_text}
use s7nodave.Utilities.{trim, to_upper}

-- The types of numbers for which the templates are used.
pub data NumberType : Type 0 where
  epics_int8 epics_uint8 epics_int16 epics_uint16 epics_int32 epics_uint32 : NumberType
  epics_float32 epics_float64 : NumberType

-- A value of a number's type; one of either type of floats is a `double`, which can hold both.
pub data Number {ℓ} (D : Type ℓ) : Type ℓ where
  whole : ℤ → Number D
  real : D → Number D

-- What the code uses of floats, which are stored as words of 32 and 64 bits.
pub record ElementFloats {ℓ} (D : Type ℓ) : Type ℓ where
  pub of_float : ℕ → D
  pub to_float : D → ℕ
  pub of_double : ℕ → D
  pub to_double : D → ℕ
  pub of_integer : ℤ → D
  pub truncate : D → ℤ
  pub is_zero : D → Bool

abbrev pub size_of : NumberType → ℕ
size_of epics_int8 = 1
size_of epics_uint8 = 1
size_of epics_int16 = 2
size_of epics_uint16 = 2
size_of epics_int32 = 4
size_of epics_uint32 = 4
size_of epics_float32 = 4
size_of epics_float64 = 8

-- The type that the template takes for a type of the PLC; that of bits has a routine of its own.
abbrev pub plc_element_type : PlcDataType → Option NumberType
plc_element_type bool = none
plc_element_type int8 = some epics_int8
plc_element_type uint8 = some epics_uint8
plc_element_type int16 = some epics_int16
plc_element_type uint16 = some epics_uint16
plc_element_type int32 = some epics_int32
plc_element_type uint32 = some epics_uint32
plc_element_type float = some epics_float32

-- The type that the template takes for the elements of a record; texts have a case of their own.
abbrev pub element_type : FieldType → Option NumberType
element_type dbf_string = none
element_type dbf_char = some epics_int8
element_type dbf_uchar = some epics_uint8
element_type dbf_short = some epics_int16
element_type dbf_ushort = some epics_uint16
element_type dbf_enum = some epics_uint16
element_type dbf_long = some epics_int32
element_type dbf_ulong = some epics_uint32
element_type dbf_float = some epics_float32
element_type dbf_double = some epics_float64
element_type dbf_other = none

-- A word of so many bytes in the order of the host.
abbrev pub load_word : ℕ → Bytes → Option ℕ
load_word zero s = some 0
load_word (suc size) [] = none
load_word (suc size) (b ∷ s) = do n ← load_word size s; some (b + 256 * n)

abbrev pub bytes_of_word : ℕ → ℕ → Bytes
bytes_of_word zero n = []
bytes_of_word (suc size) n = n % 256 ∷ bytes_of_word size (n / 256)

-- The beginning of a buffer is overwritten.
abbrev pub memcpy : Bytes → Bytes → Option Bytes
memcpy [] target = some target
memcpy (b ∷ s) [] = none
memcpy (b ∷ s) (c ∷ target) = do t ← memcpy s target; some (b ∷ t)

-- The texts of so many elements are copied, and then each is ended.
abbrev pub end_texts : ℕ → ℕ → Bytes → Bytes
end_texts i zero target = target
end_texts i (suc n) target = end_texts (i + 1) n (end_at ((i + 1) * max_string_size - 1) target)

unfoldable pub copy_texts : ℕ → Bytes → Bytes → Option Bytes
copy_texts n source target =
    if leb (n * max_string_size) (length source)
    then (do t ← memcpy (take (n * max_string_size) source) target; some (end_texts 0 n t))
    else none

-- A byte of a buffer is changed.
abbrev pub change_byte : (ℕ → ℕ) → ℕ → Bytes → Option Bytes
change_byte f i [] = none
change_byte f zero (b ∷ s) = some (f b ∷ s)
change_byte f (suc i) (b ∷ s) = do t ← change_byte f i s; some (b ∷ t)

-- The bit of an element joins its byte, which the first of eight elements begins.
abbrev pub put_bit : ℕ → ℕ → Bytes → Option Bytes
put_bit i bit_val target =
    change_byte (λ b. if i % 8 == 0 then bit_val else b + bit_val * 2 ^ (i % 8)) (i / 8) target

abbrev pub bit_of : ℕ → ℕ → ℕ
bit_of i byte = byte / 2 ^ (i % 8) % 2

-- Each text is put at the beginning of the array.
unfoldable pub read_bit_texts : ℕ → ℕ → Bytes → Bytes → Option Bytes
read_bit_texts i zero source target = some target
read_bit_texts i (suc n) source target = do
  byte ← get_elem? source (i / 8)
  text ←
      strncpy max_string_size
        ((if bit_of i byte == 0 then codes "FALSE" else codes "TRUE") ++ 0 ∷ [])
  t ← memcpy text target
  read_bit_texts (i + 1) n source t

unfoldable pub write_bit_texts : ℕ → ℕ → Bytes → Bytes → Option Bytes
write_bit_texts i zero source target = some target
write_bit_texts i (suc n) source target = do
  s ← c_string source
  t ← put_bit i (if is_true_text (to_upper (trim s)) then 1 else 0) target
  write_bit_texts (i + 1) n (drop max_string_size source) t

module _ {ℓ} {D : Type ℓ} (fl : ElementFloats D) where
  abbrev pub integer_of : Number D → ℤ
  integer_of (whole v) = v
  integer_of (real d) = fl.truncate d

  abbrev pub real_of : Number D → D
  real_of (whole v) = fl.of_integer v
  real_of (real d) = d

  abbrev pub number_of_word : NumberType → ℕ → Number D
  number_of_word epics_int8 n = whole (signed (2 ^ 8) n)
  number_of_word epics_uint8 n = whole (pos n)
  number_of_word epics_int16 n = whole (signed (2 ^ 16) n)
  number_of_word epics_uint16 n = whole (pos n)
  number_of_word epics_int32 n = whole (signed (2 ^ 32) n)
  number_of_word epics_uint32 n = whole (pos n)
  number_of_word epics_float32 n = real (fl.of_float n)
  number_of_word epics_float64 n = real (fl.of_double n)

  -- With the conversion to the type.
  abbrev pub word_of_number : NumberType → Number D → ℕ
  word_of_number epics_int8 x = to_word (2 ^ 8) (integer_of x)
  word_of_number epics_uint8 x = to_word (2 ^ 8) (integer_of x)
  word_of_number epics_int16 x = to_word (2 ^ 16) (integer_of x)
  word_of_number epics_uint16 x = to_word (2 ^ 16) (integer_of x)
  word_of_number epics_int32 x = to_word (2 ^ 32) (integer_of x)
  word_of_number epics_uint32 x = to_word (2 ^ 32) (integer_of x)
  word_of_number epics_float32 x = fl.to_float (real_of x)
  word_of_number epics_float64 x = fl.to_double (real_of x)

  abbrev pub load_number : NumberType → Bytes → Option (Number D)
  load_number t s = do n ← load_word (size_of t) s; some (number_of_word t n)

  -- The first element of a buffer that has room for it.
  abbrev pub store_number : NumberType → Number D → Bytes → Option Bytes
  store_number t x s =
      if leb (size_of t) (length s)
      then some (bytes_of_word (size_of t) (word_of_number t x))
      else none

  unfoldable pub convert_buffer : NumberType → NumberType → Bytes → Bytes → ℕ → Option Bytes
  convert_buffer t u source target zero = some target
  convert_buffer t u source target (suc n) = do
    x ← load_number t source
    s ← store_number u x target
    rest ← convert_buffer t u (drop (size_of t) source) (drop (size_of u) target) n
    some (s ++ rest)

  unfoldable pub convert_buffer_to_record :
      NumberType → Bytes → Bytes → ℕ → FieldType → Option Bytes
  convert_buffer_to_record t source target n dbf_string = copy_texts n source target
  convert_buffer_to_record t source target n f = elim (element_type f) [
    | none ↦ some target
    | some u ↦ convert_buffer t u source target n
  ]

  unfoldable pub convert_record_to_buffer :
      NumberType → Bytes → Bytes → ℕ → FieldType → Option Bytes
  convert_record_to_buffer u source target n dbf_string = copy_texts n source target
  convert_record_to_buffer u source target n f = elim (element_type f) [
    | none ↦ some target
    | some t ↦ convert_buffer t u source target n
  ]

  -- The element of this number and those behind it.
  unfoldable pub read_bits : NumberType → ℕ → Bytes → Bytes → ℕ → Option Bytes
  read_bits u i source target zero = some target
  read_bits u i source target (suc n) = do
    byte ← get_elem? source (i / 8)
    s ← store_number u (whole (pos (bit_of i byte))) target
    rest ← read_bits u (i + 1) source (drop (size_of u) target) n
    some (s ++ rest)

  unfoldable pub convert_bool_buffer_to_record : Bytes → Bytes → ℕ → FieldType → Option Bytes
  convert_bool_buffer_to_record source target n dbf_string = read_bit_texts 0 n source target
  convert_bool_buffer_to_record source target n f = elim (element_type f) [
    | none ↦ some target
    | some u ↦ read_bits u 0 source target n
  ]

  abbrev pub is_zero_number : Number D → Bool
  is_zero_number (whole v) = eqb_ℤ v (pos 0)
  is_zero_number (real d) = fl.is_zero d

  unfoldable pub write_bits : NumberType → ℕ → Bytes → Bytes → ℕ → Option Bytes
  write_bits t i source target zero = some target
  write_bits t i source target (suc n) = do
    x ← load_number t source
    s ← put_bit i (if is_zero_number x then 0 else 1) target
    write_bits t (i + 1) (drop (size_of t) source) s n

  unfoldable pub convert_record_to_bool_buffer : Bytes → Bytes → ℕ → FieldType → Option Bytes
  convert_record_to_bool_buffer source target n dbf_string = write_bit_texts 0 n source target
  convert_record_to_bool_buffer source target n f = elim (element_type f) [
    | none ↦ some target
    | some t ↦ write_bits t 0 source target n
  ]

  -- The cases of the type of the PLC.
  abbrev pub read_elements : Bytes → ℕ → FieldType → Bytes → PlcDataType → Option Bytes
  read_elements bptr nelm ftvl buffer t = elim (plc_element_type t) [
    | none ↦ convert_bool_buffer_to_record buffer bptr nelm ftvl
    | some u ↦ convert_buffer_to_record u buffer bptr nelm ftvl
  ]

  abbrev pub write_elements : Bytes → ℕ → FieldType → Bytes → PlcDataType → Option Bytes
  write_elements bptr nelm ftvl buffer t = elim (plc_element_type t) [
    | none ↦ convert_record_to_bool_buffer bptr buffer nelm ftvl
    | some u ↦ convert_record_to_buffer u bptr buffer nelm ftvl
  ]

  -- The elements of the record, and how many there are.
  unfoldable pub array_read_internal :
      Bytes → ℕ → FieldType → Bytes → PlcDataType → Option (Bytes × ℕ)
  array_read_internal bptr nelm ftvl buffer t =
      if check_buffer_size (length buffer) nelm t
      then (do elements ← read_elements bptr nelm ftvl buffer t; some (elements, nelm))
      else none

  -- The buffer, and how many elements the record has.
  unfoldable pub array_write_internal :
      Bytes → ℕ → FieldType → Bytes → PlcDataType → Option (Bytes × ℕ)
  array_write_internal bptr nelm ftvl buffer t =
      if check_buffer_size (length buffer) nelm t
      then (do s ← write_elements bptr nelm ftvl buffer t; some (s, nelm))
      else none

-- The type of a text is that of one byte.
unfoldable pub array_buffer_size_in_bits : FieldType → ℕ → ℕ → ℕ
array_buffer_size_in_bits dbf_string nelm bits = max_string_size * nelm * bits
array_buffer_size_in_bits f nelm bits = nelm * bits
