-- ===== src/PlcAddress.antt =====
-- s7nodaveApp/src/PlcAddress.cc: addresses of PLC memory, their text form and its parser.
-- `int` values are ℤ; `atoi` is that of glibc, `strtol` cut to 32 bits.
pub mod Decimal
pub mod Stages
pub mod RoundTrip
pub mod Sound
pub mod Letters
mod Tests
use s7nodave.Asyn.{
  PlcArea, db, flags, inputs, outputs, timer, counter, area_eq, PlcDataSize, bit, byte, word, dword,
  size_eq,
}
use s7nodave.Prelude.{
  ℕ, zero, suc, ◌+◌, ◌-◌, ◌*◌, ◌/◌, ◌%◌, ◌^◌, min, Bool, true, false, not, ◌||◌, ◌&&◌, Option, none,
  some, ◌>>=◌, [], ◌∷◌, ◌++◌, Bytes, codes, ltb, ◌==◌, if◌then◌else◌, length, is_empty, take,
  get_elem?, drop, find_first, is_digit, ℤ, pos, negsuc, ltb_ℤ, eqb_ℤ, to_int32,
}
use s7nodave.Utilities.{to_upper}

pub record PlcAddress : Type 0 where
  pub area : PlcArea
  pub area_number : ℤ
  pub data_size : PlcDataSize
  pub start_byte : ℤ
  pub start_bit : ℤ

unfoldable pub address_eq : PlcAddress → PlcAddress → Bool
address_eq a b =
    area_eq a.area b.area
    && (eqb_ℤ a.area_number b.area_number
        && (size_eq a.data_size b.data_size
            && (eqb_ℤ a.start_bit b.start_bit && eqb_ℤ a.start_byte b.start_byte)))

-- `printf("%d")`: the digits of a number, with a fuel that is larger than the number.
unfoldable pub print_digits : ℕ → ℕ → Bytes → Bytes
print_digits zero n out = out
print_digits (suc fuel) n out =
    let rest = print_digits fuel (n / 10) ((b'0' + n % 10) ∷ out) in
    if ltb n 10 then (b'0' + n) ∷ out else rest

unfoldable pub print_int : ℤ → Bytes
unfolding print_digits
print_int (pos n) = print_digits (suc n) n []
print_int (negsuc n) = b'-' ∷ print_digits (suc (suc n)) (suc n) []

unfoldable pub area_to_string : PlcArea → Bytes
area_to_string db = codes "DB"
area_to_string flags = codes "F"
area_to_string inputs = codes "I"
area_to_string outputs = codes "Q"
area_to_string timer = codes "T"
area_to_string counter = codes "C"

unfoldable pub data_size_to_string : PlcDataSize → Bool → Bytes
data_size_to_string bit is_db = if is_db then codes "X" else []
data_size_to_string byte is_db = codes "B"
data_size_to_string word is_db = codes "W"
data_size_to_string dword is_db = codes "D"

unfoldable pub to_string : PlcAddress → Bytes
unfolding area_to_string
to_string a =
    area_to_string a.area
    ++ ((if area_eq a.area db
          then print_int a.area_number ++ (codes "." ++ area_to_string db)
          else [])
        ++ ((if not (area_eq a.area timer) && not (area_eq a.area counter)
              then data_size_to_string a.data_size (area_eq a.area db)
              else [])
            ++ (print_int a.start_byte
                ++ (if size_eq a.data_size bit then codes "." ++ print_int a.start_bit else []))))

-- The switch over the text in capitals.
abbrev pub area_of_upper : Bytes → Option PlcArea
area_of_upper (c ∷ []) =
    if c == b'F' || c == b'M'
    then some flags
    else if c == b'I' || c == b'E'
    then some inputs
    else if c == b'Q' || c == b'A'
    then some outputs
    else if c == b'T'
    then some timer
    else if c == b'C' || c == b'Z'
    then some counter
    else none
area_of_upper (c1 ∷ c2 ∷ []) = if c1 == b'D' && c2 == b'B' then some db else none
area_of_upper _ = none

unfoldable pub string_to_area : Bytes → Option PlcArea
unfolding to_upper
string_to_area text = area_of_upper (to_upper text)

abbrev pub data_size_of_upper : Bytes → Bool → Option PlcDataSize
data_size_of_upper [] is_db = if is_db then none else some bit
data_size_of_upper (c ∷ []) is_db =
    if c == b'B'
    then some byte
    else if c == b'W'
    then some word
    else if c == b'D'
    then some dword
    else if c == b'X' && is_db
    then some bit
    else none
data_size_of_upper _ is_db = none

unfoldable pub string_to_data_size : Bytes → Bool → Option PlcDataSize
unfolding to_upper
string_to_data_size text is_db = data_size_of_upper (to_upper text) is_db

abbrev pub data_size_in_bits : PlcDataSize → ℕ
data_size_in_bits bit = 1
data_size_in_bits byte = 8
data_size_in_bits word = 16
data_size_in_bits dword = 32

-- The guards of `create`, in the source's order.
unfoldable pub create : PlcArea → ℤ → PlcDataSize → ℤ → ℤ → Option PlcAddress
create area area_number data_size start_byte start_bit =
    if not (area_eq area db) && not (eqb_ℤ area_number (pos 0))
    then none
    else if not (size_eq data_size bit) && not (eqb_ℤ start_bit (pos 0))
    then none
    else if ltb_ℤ start_bit (pos 0) || ltb_ℤ (pos 7) start_bit
    then none
    else if ltb_ℤ start_byte (pos 0)
    then none
    else some (record {
      area = area;
      area_number = area_number;
      data_size = data_size;
      start_byte = start_byte;
      start_bit = start_bit;
    })

-- The value of the digits that a text begins with, behind `acc`.
unfoldable pub digits_value : ℕ → Bytes → ℕ
digits_value acc [] = acc
digits_value acc (c ∷ s) = elim (is_digit c) [
  | true ↦ digits_value (acc * 10 + (c - b'0')) s
  | false ↦ acc
]

-- `atoi` on a text that begins with a digit or is empty: `strtol` stops at 2 ^ 63 - 1.
unfoldable pub atoi : Bytes → ℤ
unfolding digits_value
atoi s = to_int32 (min (digits_value 0 s) (2 ^ 63 - 1))

abbrev pub not_digit : ℕ → Bool
not_digit c = not (is_digit c)

-- `find_first_not_of(digits) == npos`.
abbrev pub all_digits : Bytes → Bool
all_digits s = elim (find_first not_digit s) [ none ↦ true | some position ↦ false ]

-- `addressString[pos] != '.'` for a position inside the text.
abbrev pub is_dot_at : ℕ → Bytes → Bool
is_dot_at position s = elim (get_elem? s position) [ some c ↦ c == b'.' | none ↦ false ]

-- The area at the front: two characters are tried before one.
unfoldable pub parse_area : Bytes → Option (PlcArea × Bytes)
parse_area s = elim (string_to_area (take 2 s)) [
  | some area ↦ some (area, drop 2 s)
  | none ↦ elim (string_to_area (take 1 s)) [ some area ↦ some (area, drop 1 s) | none ↦ none ]
]

-- The number of a data block, the character behind it and the second "DB".
unfoldable pub db_number_at : Bytes → ℕ → Option (ℤ × Bytes)
db_number_at s position =
    if is_empty (take position s)
    then none
    else let rest = drop (position + 1) s in
      if ltb (length rest) 2 then none else elim (string_to_area (take 2 rest)) [
        | some db ↦ some (atoi (take position s), drop 2 rest)
        | _ ↦ none
      ]

unfoldable pub parse_db_number : Bytes → Option (ℤ × Bytes)
unfolding db_number_at
parse_db_number s = do position ← find_first not_digit s; db_number_at s position

-- The data size in front of the number; a digit there stands for a bit, outside data blocks.
unfoldable pub parse_data_size : PlcArea → Bytes → Option (PlcDataSize × Bytes)
parse_data_size area s =
    if ltb (length s) 2 then none else elim (string_to_data_size (take 1 s) (area_eq area db)) [
      | some size ↦ some (size, drop 1 s)
      | none ↦ elim (find_first is_digit s) [
        | some zero ↦ if area_eq area db then none else some (bit, s)
        | _ ↦ none
      ]
    ]

-- The number of the byte, and behind a dot the single digit of the bit.
unfoldable pub start_with_bit : Bytes → ℕ → Option (ℤ × ℤ)
start_with_bit s position =
    if not (is_dot_at position s)
    then none
    else let rest = drop (position + 1) s in
      if not (length rest == 1) || not (all_digits rest)
      then none
      else let start_bit = atoi rest in
        if ltb_ℤ start_bit (pos 0) || ltb_ℤ (pos 7) start_bit
        then none
        else some (atoi (take position s), start_bit)

unfoldable pub parse_start : PlcDataSize → Bytes → Option (ℤ × ℤ)
unfolding start_with_bit
parse_start bit s = do position ← find_first not_digit s; start_with_bit s position
parse_start size s = if all_digits s then some (atoi s, pos 0) else none

unfoldable pub parse_element : PlcArea → ℤ → Bytes → Option PlcAddress
parse_element area area_number s = do
  (data_size, rest) ← parse_data_size area s
  (start_byte, start_bit) ← parse_start data_size rest
  some (record {
    area = area;
    area_number = area_number;
    data_size = data_size;
    start_byte = start_byte;
    start_bit = start_bit;
  })

-- Counters and timers have a number and no data size.
unfoldable pub parse_numbered : PlcArea → Bytes → Option PlcAddress
parse_numbered area s =
    if all_digits s
    then some (record {
      area = area;
      area_number = pos 0;
      data_size = word;
      start_byte = atoi s;
      start_bit = pos 0;
    })
    else none

-- The areas whose elements are numbered words.
abbrev pub is_numbered : PlcArea → Bool
is_numbered area = area_eq area timer || area_eq area counter

-- What follows the area.
unfoldable pub parse_rest : PlcArea → Bytes → Option PlcAddress
parse_rest db s = do (area_number, rest) ← parse_db_number s; parse_element db area_number rest
parse_rest timer s = parse_numbered timer s
parse_rest counter s = parse_numbered counter s
parse_rest area s = parse_element area (pos 0) s

unfoldable pub create_from_string : Bytes → Option PlcAddress
create_from_string s =
    if ltb (length s) 2
    then none
    else do (area, rest) ← parse_area s; if is_empty rest then none else parse_rest area rest
