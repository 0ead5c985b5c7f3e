-- ===== src/PlcAddress/RoundTrip.antt =====
-- `toString` and `create(std::string)` of s7nodaveApp/src/PlcAddress.cc are inverse on the addresses
-- that the text form can express.
use s7nodave.Asyn.{
  PlcArea, db, flags, inputs, outputs, timer, counter, area_eq, PlcDataSize, bit, word, size_eq,
}
use s7nodave.PlcAddress.Decimal.{atoi-print_int, print_int-AllDigits, length-print_int}
use s7nodave.PlcAddress.{
  PlcAddress, print_int, to_string, parse_element, parse_numbered, parse_rest, string_to_area,
  area_to_string, data_size_to_string, is_numbered, create_from_string,
}
use s7nodave.Utilities.{upper}
use s7nodave.Prelude.{
  ◌==◌, append_assoc, ℕ, ◌^◌, ◌<◌, ◌≡◌, refl, ap, subst, Bool, true, false, none, some, [], ◌∷◌,
  ◌++◌, codes, length, length-append, arith, ℤ, pos, negsuc, append-nil, if◌then◌else◌, ◌≤ℤ◌, ◌∙◌,
  pos_part,
}
use s7nodave.PlcAddress.Stages.{
  parse_numbered-digits, parse_db_number-digits, create_from_string-letter, create_from_string-db,
  element_text, parse_element-text,
}

abbrev pub InRange : ℤ → Type 0
InRange (pos n) = n < 2 ^ 31
InRange (negsuc n) = ⊥

-- What the text form can express: numbers that fit an `int`, a data-block number only in data
-- blocks, a bit only in bit addresses, and words only for timers and counters.
pub record IsPrintable (a : PlcAddress) : Type 0 where
  pub number : InRange a.area_number
  pub start : InRange a.start_byte
  pub bit_range : (pos 0 ≤ℤ a.start_bit) × (a.start_bit ≤ℤ pos 7)
  pub only_db : area_eq a.area db ≡ false → a.area_number ≡ pos 0
  pub only_bit : size_eq a.data_size bit ≡ false → a.start_bit ≡ pos 0
  pub words : is_numbered a.area ≡ true → a.data_size ≡ word

module _ (size : PlcDataSize) (b t : ℕ) (small : t < 8) (z : size_eq size bit ≡ false → t ≡ 0)
    (h : b < 2 ^ 31) where
  length-element_text : (is_db : Bool) → 0 < length (element_text size is_db b t)
  unfolding data_size_to_string
  length-element_text is_db = omega (
    arith,
    length-print_int b,
    length-append (data_size_to_string size is_db)
        (print_int (pos b) ++ (if size_eq size bit then codes "." ++ print_int (pos t) else [])),
    length-append (print_int (pos b))
        (if size_eq size bit then codes "." ++ print_int (pos t) else []),
  )

  letter_trip :
      (c : ℕ) (area : PlcArea)
      → string_to_area (c ∷ []) ≡ some area
      → ((d : ℕ) → string_to_area (c ∷ d ∷ []) ≡ none)
      → area_eq area db ≡ false
      → parse_rest area (element_text size false b t)
        ≡ parse_element area (pos 0) (element_text size false b t)
      → create_from_string (c ∷ element_text size false b t)
        ≡ some (record {
          area = area;
          area_number = pos 0;
          data_size = size;
          start_byte = pos b;
          start_bit = pos t;
        })
  letter_trip c area one two e r =
      create_from_string-letter c area (element_text size false b t) one two
        (length-element_text false)
      ∙ r
      ∙ subst
          (λ q.
            parse_element area (pos 0) (element_text size q b t)
            ≡ some (record {
              area = area;
              area_number = pos 0;
              data_size = size;
              start_byte = pos b;
              start_bit = pos t;
            }))
          e (parse_element-text area (pos 0) size b t small z h)

numbered_trip :
    (c : ℕ) (area : PlcArea) (b : ℕ)
    → string_to_area (c ∷ []) ≡ some area
    → ((d : ℕ) → string_to_area (c ∷ d ∷ []) ≡ none)
    → parse_rest area (print_int (pos b)) ≡ parse_numbered area (print_int (pos b))
    → b < 2 ^ 31
    → create_from_string (c ∷ print_int (pos b))
      ≡ some (record {
        area = area;
        area_number = pos 0;
        data_size = word;
        start_byte = pos b;
        start_bit = pos 0;
      })
numbered_trip c area b one two r h =
    create_from_string-letter c area (print_int (pos b)) one two (length-print_int b)
    ∙ r
    ∙ parse_numbered-digits area (print_int (pos b)) (print_int-AllDigits b)
    ∙ rw (atoi-print_int b h)

db_trip :
    (n : ℕ) (size : PlcDataSize) (b t : ℕ)
    → t < 8
    → (size_eq size bit ≡ false → t ≡ 0)
    → n < 2 ^ 31
    → b < 2 ^ 31
    → create_from_string
        (b'D' ∷ b'B' ∷ (print_int (pos n) ++ b'.' ∷ b'D' ∷ b'B' ∷ element_text size true b t))
      ≡ some (record {
        area = db;
        area_number = pos n;
        data_size = size;
        start_byte = pos b;
        start_bit = pos t;
      })
db_trip n size b t small z hn hb =
    create_from_string-db _ (
      omega (
        arith,
        length-append (print_int (pos n)) (b'.' ∷ b'D' ∷ b'B' ∷ element_text size true b t),
      ))
    ∙ (unfold parse_rest in
        rw
          (
            parse_db_number-digits (print_int (pos n)) (element_text size true b t)
                (print_int-AllDigits n) (length-print_int n),
            parse_rest,
          )
          (rw (atoi-print_int n hn) (parse_element-text db (pos n) size b t small z hb)))

two_letters : (c d : ℕ) → (upper c == b'D') ≡ false → string_to_area (c ∷ d ∷ []) ≡ none
unfolding string_to_area
two_letters c d e = rw e

trip :
    (area : PlcArea) (n : ℕ) (size : PlcDataSize) (b t : ℕ)
    → n < 2 ^ 31
    → b < 2 ^ 31
    → t < 8
    → (area_eq area db ≡ false → n ≡ 0)
    → (size_eq size bit ≡ false → t ≡ 0)
    → (is_numbered area ≡ true → size ≡ word)
    → let a : PlcAddress = record {
      area = area;
      area_number = pos n;
      data_size = size;
      start_byte = pos b;
      start_bit = pos t;
    } in
      create_from_string (to_string a) ≡ some a
trip db n size b t hn hb ht zn zt w =
    unfold to_string area_to_string in simp append_assoc (db_trip n size b t ht zt hn hb)
trip flags n size b t hn hb ht zn zt w = rw (zn refl) (
    unfold to_string in
    letter_trip size b t ht zt hb b'F' flags (unfold string_to_area in refl)
      (λ d. two_letters b'F' d refl) refl (unfold parse_rest in refl))
trip inputs n size b t hn hb ht zn zt w = rw (zn refl) (
    unfold to_string in
    letter_trip size b t ht zt hb b'I' inputs (unfold string_to_area in refl)
      (λ d. two_letters b'I' d refl) refl (unfold parse_rest in refl))
trip outputs n size b t hn hb ht zn zt w = rw (zn refl) (
    unfold to_string in
    letter_trip size b t ht zt hb b'Q' outputs (unfold string_to_area in refl)
      (λ d. two_letters b'Q' d refl) refl (unfold parse_rest in refl))
trip timer n size b t hn hb ht zn zt w =
    rw (zn refl, w refl, zt (rw (w refl)))
      (unfold to_string in
        rw append-nil (
          numbered_trip b'T' timer b (unfold string_to_area in refl) (λ d. two_letters b'T' d refl)
            (unfold parse_rest in refl) hb))
trip counter n size b t hn hb ht zn zt w =
    rw (zn refl, w refl, zt (rw (w refl)))
      (unfold to_string in
        rw append-nil (
          numbered_trip b'C' counter b (unfold string_to_area in refl)
            (λ d. two_letters b'C' d refl) (unfold parse_rest in refl) hb))

trip_ints :
    (area : PlcArea) (n : ℤ) (size : PlcDataSize) (b t : ℤ)
    → let a : PlcAddress = record {
      area = area;
      area_number = n;
      data_size = size;
      start_byte = b;
      start_bit = t;
    } in
      IsPrintable a → create_from_string (to_string a) ≡ some a
trip_ints area (pos n) size (pos b) (pos t) h =
    trip area n size b t h.number h.start (omega arith) (λ e. ap pos_part (h.only_db e))
      (λ e. ap pos_part (h.only_bit e)) h.words
trip_ints area (negsuc n) size b t h = absurd h.number
trip_ints area n size (negsuc b) t h = absurd h.start
trip_ints area n size b (negsuc t) h = absurd (omega arith)

-- An address is read back from its text, if its numbers are not negative and fit an `int`, its bit
-- is at most 7, only a data block has a number, only a bit address has a bit, and a timer or a
-- counter holds words.
pub create_from_string-to_string :
    (a : PlcAddress) → IsPrintable a → create_from_string (to_string a) ≡ some a
create_from_string-to_string a h =
    trip_ints a.area a.area_number a.data_size a.start_byte a.start_bit h
