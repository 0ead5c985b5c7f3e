-- ===== src/PlcAddress/Stages.antt =====
-- The stages of the parser of s7nodaveApp/src/PlcAddress.cc on the texts that `toString` writes.
use s7nodave.Asyn.{PlcArea, db, area_eq, PlcDataSize, bit, byte, word, dword, size_eq}
use s7nodave.PlcAddress.Decimal.{
  AllDigits, atoi-print_int, print_int-AllDigits, length-print_int, print_int-digit,
  find_first-digits_append, all_digits-true,
}
use s7nodave.PlcAddress.{
  print_int, atoi, parse_db_number, parse_data_size, parse_start, parse_element, parse_numbered,
  parse_area, parse_rest, string_to_area, string_to_data_size, data_size_to_string, digits_value,
  is_dot_at, all_digits, create_from_string,
}
use s7nodave.Prelude.{
  ℕ, ◌+◌, ◌^◌, ◌<◌, ◌≡◌, refl, Bool, true, false, none, some, [], ◌∷◌, ◌++◌, Bytes, codes, length,
  length-append, arith, take-append_length, drop-append_after, is_digit, ℤ, pos, Bool-cases, inl,
  inr, append-nil, if◌then◌else◌,
}

is_dot_at-dot : (ds rest : Bytes) → is_dot_at (length ds) (ds ++ b'.' ∷ rest) ≡ true
is_dot_at-dot [] rest = refl
is_dot_at-dot (d ∷ ds) rest = is_dot_at-dot ds rest

atoi-digit : (t : ℕ) → t < 8 → atoi ((b'0' + t) ∷ []) ≡ pos t
unfolding atoi digits_value
atoi-digit t h = ground arith

all_digits-digit : (t : ℕ) → t < 8 → all_digits ((b'0' + t) ∷ []) ≡ true
all_digits-digit t h = ground arith

parse_start-bit :
    (ds : Bytes) (t : ℕ)
    → AllDigits ds
    → t < 8
    → parse_start bit (ds ++ b'.' ∷ (b'0' + t) ∷ []) ≡ some (atoi ds, pos t)
unfolding parse_start
parse_start-bit ds t h small =
    rw (find_first-digits_append ds ((b'0' + t) ∷ []) b'.' h refl, parse_start)
      (rw (is_dot_at-dot ds ((b'0' + t) ∷ [])) (
        rw (drop-append_after ds ((b'0' + t) ∷ []) b'.') (
          rw (take-append_length ds (b'.' ∷ (b'0' + t) ∷ []))
            (rw (atoi-digit t small) (rw (all_digits-digit t small) (ground arith))))))

parse_start-digits :
    (size : PlcDataSize) (ds : Bytes)
    → size_eq size bit ≡ false
    → AllDigits ds
    → parse_start size ds ≡ some (atoi ds, pos 0)
unfolding parse_start
parse_start-digits bit ds e h = cc
parse_start-digits byte ds e h = rw (all_digits-true ds h)
parse_start-digits word ds e h = rw (all_digits-true ds h)
parse_start-digits dword ds e h = rw (all_digits-true ds h)

pub parse_numbered-digits :
    (area : PlcArea) (ds : Bytes)
    → AllDigits ds
    → parse_numbered area ds
      ≡ some (record {
        area = area;
        area_number = pos 0;
        data_size = word;
        start_byte = atoi ds;
        start_bit = pos 0;
      })
unfolding parse_numbered
parse_numbered-digits area ds h = rw (all_digits-true ds h)

data_size-digit :
    (d : ℕ) (is_db : Bool) → is_digit d ≡ true → string_to_data_size (d ∷ []) is_db ≡ none
unfolding string_to_data_size
data_size-digit d is_db h = ground arith

-- Outside data blocks a bit address begins with a digit, which is no letter for a data size.
parse_data_size-digit :
    (area : PlcArea) (d : ℕ) (rest : Bytes)
    → area_eq area db ≡ false
    → is_digit d ≡ true
    → 0 < length rest
    → parse_data_size area (d ∷ rest) ≡ some (bit, d ∷ rest)
unfolding parse_data_size
parse_data_size-digit area d rest e h l = ground (arith, data_size-digit d (area_eq area db) h)

parse_data_size-digits :
    (area : PlcArea) (ds rest : Bytes)
    → area_eq area db ≡ false
    → AllDigits ds
    → 0 < length ds
    → 1 < length (ds ++ rest)
    → parse_data_size area (ds ++ rest) ≡ some (bit, ds ++ rest)
parse_data_size-digits area [] rest e h l m = absurd (omega arith)
parse_data_size-digits area (d ∷ ds) rest e h l m =
    parse_data_size-digit area d (ds ++ rest) e h.0 (omega arith)

parse_data_size-letter :
    (area : PlcArea) (c : ℕ) (size : PlcDataSize) (rest : Bytes)
    → string_to_data_size (c ∷ []) (area_eq area db) ≡ some size
    → 0 < length rest
    → parse_data_size area (c ∷ rest) ≡ some (size, rest)
unfolding parse_data_size
parse_data_size-letter area c size rest e l = ground arith

module _ (area : PlcArea) (n : ℤ) (b : ℕ) where
  parse_element-letter :
      (c : ℕ) (size : PlcDataSize)
      → string_to_data_size (c ∷ []) (area_eq area db) ≡ some size
      → size_eq size bit ≡ false
      → b < 2 ^ 31
      → parse_element area n (c ∷ print_int (pos b))
        ≡ some (record {
          area = area;
          area_number = n;
          data_size = size;
          start_byte = pos b;
          start_bit = pos 0;
        })
  unfolding parse_element
  parse_element-letter c size e k h =
      rw
        (
          parse_data_size-letter area c size (print_int (pos b)) e (length-print_int b),
          parse_element,
        )
        (rw (parse_start-digits size (print_int (pos b)) k (print_int-AllDigits b))
          (rw (atoi-print_int b h)))

  module _ (t : ℕ) (small : t < 8) (h : b < 2 ^ 31) where
    bit_text : Bytes
    bit_text = print_int (pos b) ++ b'.' ∷ (b'0' + t) ∷ []

    length-bit_text : 1 < length bit_text
    unfolding bit_text
    length-bit_text = omega (arith, length-append (print_int (pos b)) (b'.' ∷ (b'0' + t) ∷ []))

    parse_element-data_bit :
        area_eq area db ≡ true
        → parse_element area n (b'X' ∷ bit_text)
          ≡ some (record {
            area = area;
            area_number = n;
            data_size = bit;
            start_byte = pos b;
            start_bit = pos t;
          })
    unfolding parse_element bit_text
    parse_element-data_bit e =
        rw
          (
            parse_data_size-letter area b'X' bit bit_text
                (rw e (unfold string_to_data_size in refl)) (omega (arith, length-bit_text)),
            parse_element,
          )
          (rw (parse_start-bit (print_int (pos b)) t (print_int-AllDigits b) small)
            (rw (atoi-print_int b h)))

    parse_element-bit :
        area_eq area db ≡ false
        → parse_element area n bit_text
          ≡ some (record {
            area = area;
            area_number = n;
            data_size = bit;
            start_byte = pos b;
            start_bit = pos t;
          })
    unfolding parse_element bit_text
    parse_element-bit e =
        rw
          (
            parse_data_size-digits area (print_int (pos b)) (b'.' ∷ (b'0' + t) ∷ []) e
                (print_int-AllDigits b) (length-print_int b) length-bit_text,
            parse_element,
          )
          (rw (parse_start-bit (print_int (pos b)) t (print_int-AllDigits b) small)
            (rw (atoi-print_int b h)))

-- The text behind the area, and what the parser makes of it.
abbrev pub element_text : PlcDataSize → Bool → ℕ → ℕ → Bytes
element_text size is_db b t =
    data_size_to_string size is_db
    ++ (print_int (pos b) ++ (if size_eq size bit then codes "." ++ print_int (pos t) else []))

pub parse_element-text :
    (area : PlcArea) (n : ℤ) (size : PlcDataSize) (b t : ℕ)
    → t < 8
    → (size_eq size bit ≡ false → t ≡ 0)
    → b < 2 ^ 31
    → parse_element area n (element_text size (area_eq area db) b t)
      ≡ some (record {
        area = area;
        area_number = n;
        data_size = size;
        start_byte = pos b;
        start_bit = pos t;
      })
unfolding data_size_to_string
parse_element-text area n bit b t small z h = elim (Bool-cases (area_eq area db)) [
  | inl e ↦ rw e (
      rw (print_int-digit t (omega arith))
        (unfold bit_text in parse_element-data_bit area n b t small h e))
  | inr e ↦ rw e (
      rw (print_int-digit t (omega arith))
        (unfold bit_text in parse_element-bit area n b t small h e))
]
parse_element-text area n byte b t small z h = rw (z refl) (
    rw append-nil
      (parse_element-letter area n b b'B' byte (unfold string_to_data_size in refl) refl h))
parse_element-text area n word b t small z h = rw (z refl) (
    rw append-nil
      (parse_element-letter area n b b'W' word (unfold string_to_data_size in refl) refl h))
parse_element-text area n dword b t small z h = rw (z refl) (
    rw append-nil
      (parse_element-letter area n b b'D' dword (unfold string_to_data_size in refl) refl h))

pub parse_db_number-digits :
    (ds rest : Bytes)
    → AllDigits ds
    → 0 < length ds
    → parse_db_number (ds ++ b'.' ∷ b'D' ∷ b'B' ∷ rest) ≡ some (atoi ds, rest)
unfolding parse_db_number string_to_area atoi
parse_db_number-digits [] rest h l = absurd (omega arith)
parse_db_number-digits (d ∷ ds) rest h l =
    rw (find_first-digits_append (d ∷ ds) (b'D' ∷ b'B' ∷ rest) b'.' h refl, parse_db_number)
      (rw (drop-append_after (d ∷ ds) (b'D' ∷ b'B' ∷ rest) b'.') (
        rw (take-append_length (d ∷ ds) (b'.' ∷ b'D' ∷ b'B' ∷ rest))
          (ground (arith, drop-append_after (d ∷ ds) (b'D' ∷ b'B' ∷ rest) b'.'))))

-- A single letter for the area: two characters are tried before it and are no area.
pub create_from_string-letter :
    (c : ℕ) (area : PlcArea) (rest : Bytes)
    → string_to_area (c ∷ []) ≡ some area
    → ((d : ℕ) → string_to_area (c ∷ d ∷ []) ≡ none)
    → 0 < length rest
    → create_from_string (c ∷ rest) ≡ parse_rest area rest
unfolding create_from_string parse_area
create_from_string-letter c area [] e two l = absurd (omega arith)
create_from_string-letter c area (d ∷ rest) e two l = ground (arith, two d)

pub create_from_string-db :
    (rest : Bytes) → 0 < length rest → create_from_string (b'D' ∷ b'B' ∷ rest) ≡ parse_rest db rest
unfolding create_from_string parse_area
create_from_string-db [] l = absurd (omega arith)
create_from_string-db (c ∷ rest) l = unfold string_to_area in ground arith
