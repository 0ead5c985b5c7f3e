-- ===== src/PlcAddress/Sound.antt =====
-- What the two `create` functions of s7nodaveApp/src/PlcAddress.cc accept.
use s7nodave.Asyn.{
  PlcArea, db, flags, inputs, outputs, timer, counter, area_eq, PlcDataSize, bit, word, size_eq,
}
use s7nodave.PlcAddress.Decimal.{print_int-AllDigits, find_first-digits_append, AllDigits}
use s7nodave.PlcAddress.Stages.{create_from_string-db}
use s7nodave.PlcAddress.{
  PlcAddress, print_int, parse_start, parse_element, create, parse_data_size, all_digits,
  parse_db_number, parse_numbered, parse_area, parse_rest, create_from_string, is_numbered,
}
use s7nodave.Prelude.{
  ℕ, ◌≡◌, refl, sym, true, false, some, ◌∷◌, ◌++◌, Bytes, length, length-append, arith,
  take-append_length, drop-append_after, is_digit, ℤ, pos, ◌≤ℤ◌, ◌↔◌, eqb_ℤ, >>=-eq-some, subst,
  some_inj, unless_some, when_some, ◌∙◌, ltb, is_empty,
}

-- The rules that hold for every address, however it was made.
pub record IsWellFormed (a : PlcAddress) : Type 0 where
  pub only_db : area_eq a.area db ≡ false → a.area_number ≡ pos 0
  pub only_bit : size_eq a.data_size bit ≡ false → a.start_bit ≡ pos 0
  pub bit_range : (pos 0 ≤ℤ a.start_bit) × (a.start_bit ≤ℤ pos 7)

eqb_ℤ-eq : (a b : ℤ) → eqb_ℤ a b ≡ true → a ≡ b
eqb_ℤ-eq a b h = ground arith

eqb_ℤ-refl : (a : ℤ) → eqb_ℤ a a ≡ true
eqb_ℤ-refl a = ground arith

create_sound :
    (a b : PlcAddress)
    → create a.area a.area_number a.data_size a.start_byte a.start_bit ≡ some b
    → (b ≡ a) × IsWellFormed a × (pos 0 ≤ℤ a.start_byte)
unfolding create
create_sound a b h = (
  ground arith,
  record {
    only_db = λ e. ground arith;
    only_bit = λ e. ground arith;
    bit_range = (ground arith, ground arith);
  },
  ground arith,
)

create_complete :
    (a : PlcAddress)
    → IsWellFormed a
    → pos 0 ≤ℤ a.start_byte
    → create a.area a.area_number a.data_size a.start_byte a.start_bit ≡ some a
unfolding create
create_complete a w start = ground (arith, w.only_db, w.only_bit)

-- `create` accepts its arguments exactly when only a data block has a number, only a bit address has
-- a bit, the bit is between 0 and 7 and the start byte is not negative; then it returns the address
-- of these arguments.
pub create_iff :
    (a b : PlcAddress)
    → (create a.area a.area_number a.data_size a.start_byte a.start_bit ≡ some b)
      ↔ ((b ≡ a) × IsWellFormed a × (pos 0 ≤ℤ a.start_byte))
create_iff a b = (λ h. create_sound a b h, λ (e, w, start). rw e (create_complete a w start))

parse_start-bit_range :
    (size : PlcDataSize) (s : Bytes) {r : ℤ × ℤ}
    → parse_start size s ≡ some r
    → (size_eq size bit ≡ false → r.1 ≡ pos 0) × (pos 0 ≤ℤ r.1) × (r.1 ≤ℤ pos 7)
unfolding parse_start
parse_start-bit_range bit s h = ground arith
parse_start-bit_range _ s h = ground arith

module _ (area : PlcArea) (n : ℤ) (z : area_eq area db ≡ false → n ≡ pos 0) where
  element_made :
      (size : PlcDataSize) (b t : ℤ) (a : PlcAddress)
      → (size_eq size bit ≡ false → t ≡ pos 0) × (pos 0 ≤ℤ t) × (t ≤ℤ pos 7)
      → some
          (record { area = area; area_number = n; data_size = size; start_byte = b; start_bit = t })
        ≡ some a
      → IsWellFormed a × (a.area ≡ area)
  element_made size b t a (zt, lo, hi) e =
      subst (λ x. IsWellFormed x × (x.area ≡ area)) (some_inj e)
        (record { only_db = z; only_bit = zt; bit_range = (lo, hi) }, refl)

  parse_element-IsWellFormed :
      (s : Bytes) {a : PlcAddress}
      → parse_element area n s ≡ some a
      → IsWellFormed a × (a.area ≡ area)
  unfolding parse_element
  parse_element-IsWellFormed s {a} h =
      let (r, e1, h1) = >>=-eq-some (parse_data_size area s) _ h in
      let (q, e2, h2) = >>=-eq-some (parse_start r.0 r.1) _ h1 in
      element_made r.0 q.0 q.1 a (parse_start-bit_range r.0 r.1 e2) h2

-- What the parser makes of the text behind an area.
abbrev pub IsParsed : PlcArea → PlcAddress → Type 0
IsParsed area a = IsWellFormed a × (a.area ≡ area) × (is_numbered area ≡ true → a.data_size ≡ word)

parse_numbered-IsParsed :
    (area : PlcArea) (s : Bytes) {a : PlcAddress} → parse_numbered area s ≡ some a → IsParsed area a
unfolding parse_numbered
parse_numbered-IsParsed area s h =
    subst (IsParsed area) (some_inj (when_some (all_digits s) _ h).1) (
      record { only_db = λ _. refl; only_bit = λ _. refl; bit_range = omega arith },
      refl,
      λ _. refl,
    )

parse_rest-IsParsed :
    (area : PlcArea) (s : Bytes) {a : PlcAddress} → parse_rest area s ≡ some a → IsParsed area a
unfolding parse_rest
parse_rest-IsParsed db s h =
    let (r, e, h1) = >>=-eq-some (parse_db_number s) _ h in
    let (w, k) = parse_element-IsWellFormed db r.0 (λ e. cc) r.1 h1 in (w, k, λ e. cc)
parse_rest-IsParsed timer s h = parse_numbered-IsParsed timer s h
parse_rest-IsParsed counter s h = parse_numbered-IsParsed counter s h
parse_rest-IsParsed flags s h =
    let (w, k) = parse_element-IsWellFormed flags (pos 0) (λ _. refl) s h in (w, k, λ e. cc)
parse_rest-IsParsed inputs s h =
    let (w, k) = parse_element-IsWellFormed inputs (pos 0) (λ _. refl) s h in (w, k, λ e. cc)
parse_rest-IsParsed outputs s h =
    let (w, k) = parse_element-IsWellFormed outputs (pos 0) (λ _. refl) s h in (w, k, λ e. cc)

parse_db_number-separator :
    (ds rest : Bytes) (c : ℕ)
    → AllDigits ds
    → is_digit c ≡ false
    → parse_db_number (ds ++ c ∷ rest) ≡ parse_db_number (ds ++ b'.' ∷ rest)
unfolding parse_db_number
parse_db_number-separator ds rest c h hc = ground (
  arith,
  find_first-digits_append ds rest c h hc,
  find_first-digits_append ds rest b'.' h refl,
  drop-append_after ds rest c,
  drop-append_after ds rest b'.',
  take-append_length ds (c ∷ rest),
  take-append_length ds (b'.' ∷ rest),
)

db_number_separator :
    (ds rest : Bytes) (c : ℕ)
    → AllDigits ds
    → is_digit c ≡ false
    → parse_rest db (ds ++ c ∷ rest) ≡ parse_rest db (ds ++ b'.' ∷ rest)
unfolding parse_rest
db_number_separator ds rest c h hc = rw (parse_db_number-separator ds rest c h hc)

-- Every address that is made from a text has a number only in a data block, a bit only in a bit
-- address, and this bit is between 0 and 7; in a timer or counter area it holds words.
pub create_from_string-IsWellFormed :
    (s : Bytes) {a : PlcAddress}
    → create_from_string s ≡ some a
    → IsWellFormed a × (is_numbered a.area ≡ true → a.data_size ≡ word)
unfolding create_from_string
create_from_string-IsWellFormed s {a} h =
    let (r, e, h1) = >>=-eq-some (parse_area s) _ (unless_some (ltb (length s) 2) _ h).1 in
    let (w, k, words) = parse_rest-IsParsed r.0 r.1 (unless_some (is_empty r.1) _ h1).1 in
    (w, λ numbered. words (rw k at numbered))

-- So the checked `create` accepts what the parser returns, unless the start byte has overflowed.
pub create-create_from_string :
    (s : Bytes) (a : PlcAddress)
    → create_from_string s ≡ some a
    → pos 0 ≤ℤ a.start_byte
    → create a.area a.area_number a.data_size a.start_byte a.start_bit ≡ some a
create-create_from_string s a h start =
    (create_iff a a).1 (refl, (create_from_string-IsWellFormed s h).0, start)

-- The character between a data-block number and its "DB" is not looked at: any character that is no
-- digit gives what a dot gives.
pub create_from_string_separator :
    (n c : ℕ) (rest : Bytes)
    → is_digit c ≡ false
    → create_from_string (b'D' ∷ b'B' ∷ (print_int (pos n) ++ c ∷ rest))
      ≡ create_from_string (b'D' ∷ b'B' ∷ (print_int (pos n) ++ b'.' ∷ rest))
create_from_string_separator n c rest h =
    create_from_string-db (print_int (pos n) ++ c ∷ rest)
      (omega (arith, length-append (print_int (pos n)) (c ∷ rest)))
    ∙ db_number_separator (print_int (pos n)) rest c (print_int-AllDigits n) h
    ∙ sym (
        create_from_string-db (print_int (pos n) ++ b'.' ∷ rest)
          (omega (arith, length-append (print_int (pos n)) (b'.' ∷ rest))))
