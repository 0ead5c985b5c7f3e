-- ===== src/PlcAddress/Letters.antt =====
-- The parser of s7nodaveApp/src/PlcAddress.cc does not distinguish small from capital letters.
use mathlib.Core.Path.{fun_ext}
use s7nodave.Asyn.{
  PlcArea, db, flags, inputs, outputs, timer, counter, area_eq, PlcDataSize, bit, byte, word, dword,
}
use s7nodave.PlcAddress.{
  parse_start, parse_element, parse_data_size, all_digits, parse_db_number, not_digit,
  parse_numbered, parse_area, parse_rest, string_to_area, string_to_data_size, create_from_string,
  digits_value, atoi, is_dot_at, start_with_bit, db_number_at,
}
use s7nodave.Prelude.{
  ℕ, zero, suc, ◌+◌, ◌-◌, ◌*◌, ◌≡◌, refl, Bool, Option, none, some, [], ◌∷◌, map, Bytes, take, drop,
  arith, map-take, map-drop, length-map, is_digit, is_empty, find_first, ℤ, pos, ◌==◌,
  if◌then◌else◌, ◌>>=◌,
}
use s7nodave.Utilities.{upper, to_upper}

upper-upper : (c : ℕ) → upper (upper c) ≡ upper c
upper-upper c = ground arith

is_digit-upper : (c : ℕ) → is_digit (upper c) ≡ is_digit c
is_digit-upper c = ground arith

is_dot-upper : (c : ℕ) → (upper c == b'.') ≡ (c == b'.')
is_dot-upper c = ground arith

map-upper-map-upper : (s : Bytes) → map upper (map upper s) ≡ map upper s
map-upper-map-upper [] = refl
map-upper-map-upper (c ∷ s) = rw (upper-upper c, map-upper-map-upper s)

string_to_area-upper : (s : Bytes) → string_to_area (map upper s) ≡ string_to_area s
unfolding string_to_area
string_to_area-upper s = rw (map-upper-map-upper s)

string_to_data_size-upper :
    (s : Bytes) (is_db : Bool)
    → string_to_data_size (map upper s) is_db ≡ string_to_data_size s is_db
unfolding string_to_data_size
string_to_data_size-upper s is_db = rw (map-upper-map-upper s)

find_first-not_digit-upper :
    (s : Bytes) → find_first not_digit (map upper s) ≡ find_first not_digit s
find_first-not_digit-upper [] = refl
find_first-not_digit-upper (c ∷ s) = rw (is_digit-upper c, find_first-not_digit-upper s)

find_first_digit-upper : (s : Bytes) → find_first is_digit (map upper s) ≡ find_first is_digit s
find_first_digit-upper [] = refl
find_first_digit-upper (c ∷ s) = rw (is_digit-upper c, find_first_digit-upper s)

all_digits-upper : (s : Bytes) → all_digits (map upper s) ≡ all_digits s
all_digits-upper s = rw (find_first-not_digit-upper s, all_digits)

is_empty-upper : (s : Bytes) → is_empty (map upper s) ≡ is_empty s
is_empty-upper [] = refl
is_empty-upper (c ∷ s) = refl

digits_value-upper : (acc : ℕ) (s : Bytes) → digits_value acc (map upper s) ≡ digits_value acc s
unfolding digits_value
digits_value-upper acc [] = refl
digits_value-upper acc (c ∷ s) =
    ground (arith, is_digit-upper c, digits_value-upper (acc * 10 + (c - b'0')) s)

atoi-upper : (s : Bytes) → atoi (map upper s) ≡ atoi s
unfolding atoi
atoi-upper s = rw (digits_value-upper 0 s)

is_dot_at-upper : (i : ℕ) (s : Bytes) → is_dot_at i (map upper s) ≡ is_dot_at i s
is_dot_at-upper i [] = refl
is_dot_at-upper zero (c ∷ s) = is_dot-upper c
is_dot_at-upper (suc i) (c ∷ s) = is_dot_at-upper i s

start_with_bit-upper : (i : ℕ) (s : Bytes) → start_with_bit (map upper s) i ≡ start_with_bit s i
unfolding start_with_bit
start_with_bit-upper i s =
    rw (is_dot_at-upper i s, ← map-drop upper (i + 1) s, ← map-take upper i s)
      (rw (length-map upper (drop (i + 1) s), all_digits-upper, atoi-upper (drop (i + 1) s))
        (rw (atoi-upper (take i s))))

parse_start-upper :
    (size : PlcDataSize) (s : Bytes) → parse_start size (map upper s) ≡ parse_start size s
parse_start-upper bit s =
    unfold parse_start in rw (find_first-not_digit-upper s, fun_ext (λ i. start_with_bit-upper i s))
parse_start-upper byte s = unfold parse_start in rw (all_digits-upper s, atoi-upper s)
parse_start-upper word s = unfold parse_start in rw (all_digits-upper s, atoi-upper s)
parse_start-upper dword s = unfold parse_start in rw (all_digits-upper s, atoi-upper s)

-- A parser's result with the rest of the text in capitals.
abbrev capital_rest : {A : Type 0} → Option (A × Bytes) → Option (A × Bytes)
capital_rest none = none
capital_rest (some (a, rest)) = some (a, map upper rest)

-- What goes on from such a result cannot tell, if it does not distinguish the letters.
capital_rest-bind :
    {A B : Type 0} (r : Option (A × Bytes)) (f : A × Bytes → Option B)
    → ((a : A) (rest : Bytes) → f (a, map upper rest) ≡ f (a, rest))
    → (capital_rest r >>= f) ≡ (r >>= f)
capital_rest-bind none f h = refl
capital_rest-bind (some (a, rest)) f h = h a rest

parse_data_size-upper :
    (area : PlcArea) (s : Bytes)
    → parse_data_size area (map upper s) ≡ capital_rest (parse_data_size area s)
unfolding parse_data_size
parse_data_size-upper area s = ground (
  arith,
  length-map upper s,
  map-take upper 1 s,
  map-drop upper 1 s,
  string_to_data_size-upper (take 1 s) (area_eq area db),
  find_first_digit-upper s,
)

parse_element-upper :
    (area : PlcArea) (n : ℤ) (s : Bytes)
    → parse_element area n (map upper s) ≡ parse_element area n s
unfolding parse_element
parse_element-upper area n s =
    rw (parse_data_size-upper area s)
      (capital_rest-bind (parse_data_size area s) _ (λ size rest. rw (parse_start-upper size rest)))

db_number_at-upper :
    (s : Bytes) (i : ℕ) → db_number_at (map upper s) i ≡ capital_rest (db_number_at s i)
unfolding db_number_at
db_number_at-upper s i =
    let rest = drop (i + 1) s in
    ground (
      arith,
      map-take upper i s,
      map-drop upper (i + 1) s,
      is_empty-upper (take i s),
      atoi-upper (take i s),
      length-map upper rest,
      map-take upper 2 rest,
      string_to_area-upper (take 2 rest),
      map-drop upper 2 rest,
    )

parse_db_number-upper :
    (s : Bytes) → parse_db_number (map upper s) ≡ capital_rest (parse_db_number s)
parse_db_number-upper s =
    unfold parse_db_number in
    rw (find_first-not_digit-upper s, fun_ext (λ i. db_number_at-upper s i)) (ground arith)

parse_numbered-upper :
    (area : PlcArea) (s : Bytes) → parse_numbered area (map upper s) ≡ parse_numbered area s
unfolding parse_numbered
parse_numbered-upper area s = rw (all_digits-upper s, atoi-upper s)

parse_rest-upper : (area : PlcArea) (s : Bytes) → parse_rest area (map upper s) ≡ parse_rest area s
unfolding parse_rest
parse_rest-upper db s =
    rw (parse_db_number-upper s)
      (capital_rest-bind (parse_db_number s) _ (λ n rest. parse_element-upper db n rest))
parse_rest-upper timer s = parse_numbered-upper timer s
parse_rest-upper counter s = parse_numbered-upper counter s
parse_rest-upper flags s = parse_element-upper flags (pos 0) s
parse_rest-upper inputs s = parse_element-upper inputs (pos 0) s
parse_rest-upper outputs s = parse_element-upper outputs (pos 0) s

parse_area-upper : (s : Bytes) → parse_area (map upper s) ≡ capital_rest (parse_area s)
unfolding parse_area
parse_area-upper s = ground (
  arith,
  map-take upper 2 s,
  map-take upper 1 s,
  map-drop upper 2 s,
  map-drop upper 1 s,
  string_to_area-upper (take 2 s),
  string_to_area-upper (take 1 s),
)

-- A text and the text in capitals give the same address, or both give none.
pub create_from_string-to_upper :
    (s : Bytes) → create_from_string (to_upper s) ≡ create_from_string s
unfolding create_from_string to_upper
create_from_string-to_upper s =
    rw (length-map upper s, parse_area-upper s)
      (rw (
        capital_rest-bind (parse_area s) (λ r. if is_empty r.1 then none else parse_rest r.0 r.1)
          (λ area rest. rw (is_empty-upper rest, parse_rest-upper area rest))))
