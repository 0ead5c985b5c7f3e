-- ===== src/Prelude/Texts.antt =====
-- Texts as lists of bytes.
use Prim.Native.Nat.{ℕ, suc}
use Prim.Native.Char.{code}
use Prim.Native.String.{String}
use mathlib.Core.Bool.{Bool, true, false, ◌&&◌}
use mathlib.Core.List.{List, [], ◌∷◌}
use mathlib.Core.Option.{Option, none, some}
use s7nodave.Prelude.Tests.{◌==◌, leb, if◌then◌else◌}

abbrev pub Bytes : Type 0
Bytes = List ℕ

-- The code points of a literal; these are its bytes when the text is ASCII.
abbrev pub codes : String → Bytes
codes String.[] = []
codes (String.◌∷◌ c s) = code c ∷ codes s

-- `std::string::operator==`.
abbrev pub bytes_eq : Bytes → Bytes → Bool
bytes_eq [] [] = true
bytes_eq (x ∷ xs) (y ∷ ys) = x == y && bytes_eq xs ys
bytes_eq _ _ = false

-- The position of the first byte that passes the test: `find_first_of`, `find_first_not_of`.
abbrev pub find_first : (ℕ → Bool) → Bytes → Option ℕ
find_first p [] = none
find_first p (c ∷ s) =
    let rest = elim (find_first p s) as (λ _. Option ℕ) [ none ↦ none | some i ↦ some (suc i) ] in
    if p c then some 0 else rest

-- The characters "0123456789".
abbrev pub is_digit : ℕ → Bool
is_digit c = leb b'0' c && leb c b'9'
