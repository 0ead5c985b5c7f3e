-- ===== src/Utilities/Tokens.antt =====
-- The tokens of `splitString` in s7nodaveApp/src/utilities.cc.
use s7nodave.Prelude.{
  ℕ, ◌≡◌, refl, ap, false, List, [], ◌∷◌, ◌++◌, append_assoc, Bytes, ◌==◌, All, All-append,
  Bool-cases, inl, inr, arith,
}
use s7nodave.Utilities.{split_loop, split_string}

-- Each token behind a delimiter.
abbrev pub join : ℕ → List Bytes → Bytes
join delimiter [] = []
join delimiter (token ∷ tokens) = delimiter ∷ (token ++ join delimiter tokens)

abbrev pub IsFree : ℕ → Bytes → Type 0
IsFree delimiter = All (λ c. (c == delimiter) ≡ false)

split_loop-join :
    (delimiter : ℕ) (token s : Bytes)
    → IsFree delimiter token
    → (join delimiter (split_loop delimiter token s) ≡ delimiter ∷ (token ++ s))
      × All (IsFree delimiter) (split_loop delimiter token s)
unfolding split_loop
split_loop-join delimiter token [] h = (refl, (h, tt))
split_loop-join delimiter token (c ∷ s) h = elim (Bool-cases (c == delimiter)) [
  | inl same ↦
      let (joined, free) = split_loop-join delimiter [] s tt in
      let e : c ≡ delimiter = ground arith in rw (same, split_loop) (rw (joined, e) refl, (h, free))
  | inr other ↦
      let (joined, free) =
        split_loop-join delimiter (token ++ c ∷ []) s
          (All-append (λ x. (x == delimiter) ≡ false) token (c ∷ []) h (other, tt)) in
      rw (other, split_loop)
        (rw joined (ap (λ l. delimiter ∷ l) (append_assoc token (c ∷ []) s)), free)
]

-- No token contains the delimiter, and the tokens, each behind a delimiter, make up the text behind a
-- delimiter: nothing is lost, empty tokens at the ends included.
pub split_string-join :
    (s : Bytes) (delimiter : ℕ)
    → (join delimiter (split_string s delimiter) ≡ delimiter ∷ s)
      × All (IsFree delimiter) (split_string s delimiter)
unfolding split_string
split_string-join s delimiter = split_loop-join delimiter [] s tt
