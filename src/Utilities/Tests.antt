-- ===== src/Utilities/Tests.antt =====
-- Texts of s7nodaveApp/tests/utilitiesTest.cpp's kind, and the theorem at one of them.
use s7nodave.Prelude.{◌≡◌, refl, [], ◌∷◌, codes}
use s7nodave.Utilities.{split_string, trim, trim_left, trim_right}

splits : split_string (codes "a,,b,") b',' ≡ codes "a" ∷ [] ∷ codes "b" ∷ [] ∷ []
unfolding split_string
splits = refl

trims : trim (codes "  a b ") ≡ codes "a b"
unfolding trim trim_left trim_right
trims = refl
