-- ===== src/PlcAddress/Decimal.antt =====
-- `printf("%d")` and `atoi` of s7nodaveApp/src/PlcAddress.cc, and the scan for the end of a number.
use s7nodave.Prelude.{
  ℕ, zero, suc, ◌+◌, ◌/◌, ◌%◌, ◌^◌, ◌<◌, ◌≡◌, refl, Bool-cases, true, false, none, some, inl, inr,
  Bytes, [], ◌∷◌, ◌++◌, All, length, arith, is_digit, find_first, ltb, pos,
}
use s7nodave.PlcAddress.{print_digits, print_int, digits_value, atoi, not_digit, all_digits}

abbrev pub AllDigits : Bytes → Type 0
AllDigits = All (λ c. is_digit c ≡ true)

digits_value-print_digits :
    (fuel n : ℕ) (out : Bytes)
    → n < fuel
    → digits_value 0 (print_digits fuel n out) ≡ digits_value n out
unfolding digits_value print_digits
digits_value-print_digits zero n out h = absurd (omega arith)
digits_value-print_digits (suc fuel) n out h =
    ground (arith, digits_value-print_digits fuel (n / 10) ((b'0' + n % 10) ∷ out))

print_digits-AllDigits :
    (fuel n : ℕ) (out : Bytes) → AllDigits out → AllDigits (print_digits fuel n out)
unfolding print_digits
print_digits-AllDigits zero n out h = h
print_digits-AllDigits (suc fuel) n out h = elim (Bool-cases (ltb n 10)) [
  | inl small ↦ rw small (ground arith, h)
  | inr large ↦
      rw large (print_digits-AllDigits fuel (n / 10) ((b'0' + n % 10) ∷ out) (ground arith, h))
]

length-print_digits :
    (fuel n : ℕ) (out : Bytes) → n < fuel → length out < length (print_digits fuel n out)
unfolding print_digits
length-print_digits zero n out h = absurd (omega arith)
length-print_digits (suc fuel) n out h =
    ground (arith, length-print_digits fuel (n / 10) ((b'0' + n % 10) ∷ out))

-- Every `int` that is not negative is read back from its print.
pub atoi-print_int : (n : ℕ) → n < 2 ^ 31 → atoi (print_int (pos n)) ≡ pos n
unfolding atoi print_int
atoi-print_int n h =
    rw (digits_value-print_digits (suc n) n [] (omega arith)) (unfold digits_value in ground arith)

pub print_int-AllDigits : (n : ℕ) → AllDigits (print_int (pos n))
unfolding print_int
print_int-AllDigits n = print_digits-AllDigits (suc n) n [] tt

pub length-print_int : (n : ℕ) → 0 < length (print_int (pos n))
unfolding print_int
length-print_int n = length-print_digits (suc n) n [] (omega arith)

pub print_int-digit : (n : ℕ) → n < 10 → print_int (pos n) ≡ (b'0' + n) ∷ []
unfolding print_int print_digits
print_int-digit n h = ground arith

pub find_first-digits : (ds : Bytes) → AllDigits ds → find_first not_digit ds ≡ none
find_first-digits [] h = refl
find_first-digits (d ∷ ds) (hd, hs) = rw (hd, find_first-digits ds hs)

pub find_first-digits_append :
    (ds rest : Bytes) (c : ℕ)
    → AllDigits ds
    → is_digit c ≡ false
    → find_first not_digit (ds ++ c ∷ rest) ≡ some (length ds)
find_first-digits_append [] rest c h hc = rw hc
find_first-digits_append (d ∷ ds) rest c (hd, hs) hc =
    rw (hd, find_first-digits_append ds rest c hs hc)

pub all_digits-true : (ds : Bytes) → AllDigits ds → all_digits ds ≡ true
all_digits-true ds h = rw (find_first-digits ds h, all_digits)
