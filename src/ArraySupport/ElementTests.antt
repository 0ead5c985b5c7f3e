-- ===== src/ArraySupport/ElementTests.antt =====
-- Arrays of numbers, of flags and of texts, and the theorems at them.
use s7nodave.ArraySupport.Elements.{
  epics_int16, epics_int32, ElementFloats, copy_texts, convert_buffer, convert_buffer_to_record,
  convert_record_to_buffer, convert_bool_buffer_to_record, convert_record_to_bool_buffer,
  write_bits, read_bit_texts, write_bit_texts, array_read_internal, array_write_internal,
  array_buffer_size_in_bits,
}
use s7nodave.ArraySupport.Flags.{HasBits, elements_of, array_write_internal-HasBits}
use s7nodave.ArraySupport.RoundTrip.{array_write_internal-array_read_internal}
use s7nodave.ArraySupport.{dbf_string, dbf_short, check_buffer_size, get_plc_data_type_out}
use s7nodave.Asyn.{bool, int16, int32, dword}
use s7nodave.Prelude.{
  ℕ, ◌≡◌, refl, Bool, true, false, none, some, List, [], ◌∷◌, ◌++◌, Bytes, codes, length, pos_part,
  ℤ, arith, ◌==◌,
}
use s7nodave.StringSupport.{zeros, strncpy}
use s7nodave.Utilities.{to_upper, trim, trim_left, trim_right}

-- Floats that are their words, and integers that are their own values.
abbrev words : ElementFloats ℕ
words = record {
  of_float = λ n. n;
  to_float = λ n. n;
  of_double = λ n. n;
  to_double = λ n. n;
  of_integer = pos_part;
  truncate = ℤ.pos;
  is_zero = λ n. n == 0;
}

-- -2 and 3.
abbrev shorts : Bytes
shorts = 254 ∷ 255 ∷ 3 ∷ 0 ∷ []

-- Two elements of 16 bits become two of 32, and the other way round.
widens :
    (array_write_internal words shorts 2 dbf_short (zeros 9) int32
      ≡ some (254 ∷ 255 ∷ 255 ∷ 255 ∷ 3 ∷ 0 ∷ 0 ∷ 0 ∷ 0 ∷ [], 2))
    × (array_read_internal words
          (zeros 4)
          2
          dbf_short
          (254 ∷ 255 ∷ 255 ∷ 255 ∷ 3 ∷ 0 ∷ 0 ∷ 0 ∷ 0 ∷ [])
          int32
        ≡ some (shorts, 2))
    × (array_write_internal words shorts 2 dbf_short (zeros 3) int16 ≡ none)
unfolding array_write_internal array_read_internal convert_record_to_buffer convert_buffer_to_record
    convert_buffer check_buffer_size
widens = (refl, refl, refl)

array_write_internal-array_read_internal_example :
    (s : Bytes) × (array_write_internal words shorts 2 dbf_short (zeros 9) int32 ≡ some (s, 2))
    × (length s ≡ length (zeros 9))
    × (array_read_internal words (zeros 4) 2 dbf_short s int32 ≡ some (shorts, 2))
unfolding get_plc_data_type_out check_buffer_size
array_write_internal-array_read_internal_example =
    array_write_internal-array_read_internal words dword (some int32) dbf_short int32 epics_int16
      epics_int32 shorts (zeros 9) (zeros 4) 2 refl refl refl tt tt
      (omega arith, (omega arith, (omega arith, (omega arith, tt)))) refl refl (omega arith)

abbrev flags : List Bool
flags = true ∷ false ∷ false ∷ true ∷ false ∷ false ∷ false ∷ false ∷ true ∷ []

-- Nine elements are bits of two bytes; the rest of the second one is cleared.
packs_nine :
    array_write_internal words
      (elements_of words epics_int16 flags)
      9
      dbf_short
      (7 ∷ 7 ∷ 7 ∷ [])
      bool
    ≡ some (9 ∷ 1 ∷ 7 ∷ [], 9)
unfolding array_write_internal convert_record_to_bool_buffer write_bits check_buffer_size
packs_nine = refl

array_write_internal-HasBits_example :
    (s : Bytes) × (array_write_internal words
        (elements_of words epics_int16 flags)
        9
        dbf_short
        (7 ∷ 7 ∷ 7 ∷ [])
        bool
      ≡ some (s, 9))
    × (length s ≡ 3)
    × HasBits 0 flags s
    × (array_read_internal words (zeros 18) 9 dbf_short s bool
        ≡ some (elements_of words epics_int16 flags, 9))
unfolding check_buffer_size
array_write_internal-HasBits_example =
    array_write_internal-HasBits words epics_int16 dbf_short flags (7 ∷ 7 ∷ 7 ∷ []) (zeros 18) refl
      tt refl refl

-- Of two texts for bits, that of the second bit stands in the first element.
overwrites_texts :
    convert_bool_buffer_to_record words (1 ∷ []) (zeros 80) 2 dbf_string
    ≡ some (codes "FALSE" ++ zeros 75)
unfolding convert_bool_buffer_to_record read_bit_texts strncpy
overwrites_texts = refl

-- A text that is not ended is cut, and a text of a bit may have spaces and small letters.
texts :
    (convert_buffer_to_record words epics_int16 (codes "pump" ++ zeros 36) (zeros 40) 1 dbf_string
      ≡ some (codes "pump" ++ zeros 36))
    × (convert_record_to_bool_buffer words
          (codes " true" ++ zeros 35 ++ codes "1" ++ zeros 39)
          (7 ∷ [])
          2
          dbf_string
        ≡ some (3 ∷ []))
    × (array_buffer_size_in_bits dbf_string 2 8 ≡ 640)
unfolding convert_buffer_to_record copy_texts convert_record_to_bool_buffer write_bit_texts to_upper
    trim trim_left trim_right array_buffer_size_in_bits
texts = (refl, refl, refl)
