-- ===== src/PlcAddress/Tests.antt =====
-- Inputs of s7nodaveApp/tests/PlcAddressTest.cpp, and the theorems at concrete addresses.
use s7nodave.Asyn.{db, flags, inputs, counter, bit, byte, word, dword}
use s7nodave.PlcAddress.Letters.{create_from_string-to_upper}
use s7nodave.PlcAddress.RoundTrip.{create_from_string-to_string}
use s7nodave.PlcAddress.Sound.{
  IsWellFormed, create_iff, create_from_string-IsWellFormed, create_from_string_separator,
}
use s7nodave.PlcAddress.{
  PlcAddress, create, create_from_string, parse_area, parse_rest, parse_db_number, parse_element,
  parse_data_size, parse_start, parse_numbered, string_to_area, string_to_data_size, atoi,
  to_string, print_int, is_numbered, data_size_to_string,
}
use s7nodave.Prelude.{◌≡◌, ◌↔◌, ◌++◌, ◌∷◌, refl, none, some, codes, pos, negsuc, ◌≤ℤ◌, arith, true}
use s7nodave.Utilities.{to_upper}

abbrev data_block_bit : PlcAddress
data_block_bit = record {
  area = db;
  area_number = pos 9;
  data_size = bit;
  start_byte = pos 2;
  start_bit = pos 1;
}

parses :
    (create_from_string (codes "DB9.DBX2.1") ≡ some data_block_bit)
    × (create_from_string (codes "db9.dbx2.1") ≡ some data_block_bit)
    × (create_from_string (codes "C8")
        ≡ some (record {
          area = counter;
          area_number = pos 0;
          data_size = word;
          start_byte = pos 8;
          start_bit = pos 0;
        }))
    × (create_from_string (codes "ID4")
        ≡ some (record {
          area = inputs;
          area_number = pos 0;
          data_size = dword;
          start_byte = pos 4;
          start_bit = pos 0;
        }))
    × (create_from_string (codes "F5.1")
        ≡ some (record {
          area = flags;
          area_number = pos 0;
          data_size = bit;
          start_byte = pos 5;
          start_bit = pos 1;
        }))
unfolding create_from_string parse_area parse_rest parse_db_number parse_element parse_data_size
    parse_start parse_numbered string_to_area string_to_data_size atoi
parses = (refl, refl, refl, refl, refl)

refuses :
    (create_from_string (codes "DB5") ≡ none)
    × (create_from_string (codes "I1.8") ≡ none)
    × (create_from_string (codes "T5x") ≡ none)
    × (create_from_string (codes "IX5") ≡ none)
unfolding create_from_string parse_area parse_rest parse_db_number parse_element parse_data_size
    parse_start parse_numbered string_to_area string_to_data_size atoi
refuses = (refl, refl, refl, refl)

-- The number of the byte may be missing in front of the dot of a data-block bit.
no_byte_number :
    create_from_string (codes "DB1.DBX.3")
    ≡ some (record {
      area = db;
      area_number = pos 1;
      data_size = bit;
      start_byte = pos 0;
      start_bit = pos 3;
    })
unfolding create_from_string parse_area parse_rest parse_db_number parse_element parse_data_size
    parse_start parse_numbered string_to_area string_to_data_size atoi
no_byte_number = refl

-- A start byte that does not fit an `int` may come out negative.
overflowing_byte :
    create_from_string (codes "IB4294967295")
    ≡ some (record {
      area = inputs;
      area_number = pos 0;
      data_size = byte;
      start_byte = negsuc 0;
      start_bit = pos 0;
    })
unfolding create_from_string parse_area parse_rest parse_db_number parse_element parse_data_size
    parse_start parse_numbered string_to_area string_to_data_size atoi
overflowing_byte = refl

prints : to_string data_block_bit ≡ codes "DB9.DBX2.1"
unfolding to_string print_int data_size_to_string
prints = refl

create_from_string-to_string_example :
    create_from_string (to_string data_block_bit) ≡ some data_block_bit
create_from_string-to_string_example = create_from_string-to_string data_block_bit (record {
  number = omega arith;
  start = omega arith;
  bit_range = omega arith;
  only_db = λ e. cc;
  only_bit = λ e. cc;
  words = λ e. cc;
})

create_iff_example :
    (create db (pos 9) bit (pos 2) (pos 1) ≡ some data_block_bit)
    ↔ ((data_block_bit ≡ data_block_bit) × IsWellFormed data_block_bit × (pos 0 ≤ℤ pos 2))
create_iff_example = create_iff data_block_bit data_block_bit

create_from_string-IsWellFormed_example :
    IsWellFormed data_block_bit × (is_numbered db ≡ true → bit ≡ word)
create_from_string-IsWellFormed_example =
    create_from_string-IsWellFormed (codes "DB9.DBX2.1") parses.0

create_from_string_separator_example :
    create_from_string (b'D' ∷ b'B' ∷ (print_int (pos 9) ++ b'x' ∷ codes "DBX2.1"))
    ≡ create_from_string (b'D' ∷ b'B' ∷ (print_int (pos 9) ++ b'.' ∷ codes "DBX2.1"))
create_from_string_separator_example = create_from_string_separator 9 b'x' (codes "DBX2.1") refl

create_from_string-to_upper_example :
    create_from_string (to_upper (codes "db9.dbx2.1")) ≡ create_from_string (codes "db9.dbx2.1")
create_from_string-to_upper_example = create_from_string-to_upper (codes "db9.dbx2.1")
