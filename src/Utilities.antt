-- ===== src/Utilities.antt =====
-- s7nodaveApp/src/utilities.cc: texts in the classic locale. A `std::string` is a list of bytes, and
-- a function that changes its argument in place returns the new text.
pub mod Tokens
mod Tests
use s7nodave.Prelude.{
  ℕ, ◌+◌, ◌-◌, Bool, true, false, ◌||◌, ◌&&◌, List, [], ◌∷◌, ◌++◌, map, Bytes, leb, ◌==◌,
  if◌then◌else◌,
}
use mathlib.Core.List.{reverse}

-- `std::tolower` and `std::toupper` of the classic locale: the ASCII letters.
abbrev pub lower : ℕ → ℕ
lower c = if leb b'A' c && leb c b'Z' then c + 32 else c

abbrev pub upper : ℕ → ℕ
upper c = if leb b'a' c && leb c b'z' then c - 32 else c

unfoldable pub to_lower : Bytes → Bytes
to_lower str = map lower str

unfoldable pub to_upper : Bytes → Bytes
to_upper str = map upper str

-- `std::isspace` of the classic locale.
abbrev pub is_space : ℕ → Bool
is_space c = c == b' ' || leb 9 c && leb c 13

-- The loop of `splitString` over the rest of the text, with the characters since the last delimiter.
unfoldable pub split_loop : ℕ → Bytes → Bytes → List Bytes
split_loop delimiter token [] = token ∷ []
split_loop delimiter token (c ∷ str) = elim (c == delimiter) [
  | true ↦ token ∷ split_loop delimiter [] str
  | false ↦ split_loop delimiter (token ++ c ∷ []) str
]

unfoldable pub split_string : Bytes → ℕ → List Bytes
unfolding split_loop
split_string str delimiter = split_loop delimiter [] str

unfoldable pub trim_left : Bytes → Bytes
trim_left [] = []
trim_left (c ∷ str) = let rest = trim_left str in if is_space c then rest else c ∷ str

unfoldable pub trim_right : Bytes → Bytes
unfolding trim_left
trim_right str = reverse (trim_left (reverse str))

unfoldable pub trim : Bytes → Bytes
unfolding trim_left trim_right
trim str = trim_left (trim_right str)
