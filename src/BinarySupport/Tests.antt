-- ===== src/BinarySupport/Tests.antt =====
-- A flag in a float, and the theorem at it.
use s7nodave.Asyn.{float}
use s7nodave.BinarySupport.RoundTrip.{binary_write_internal-binary_read_internal}
use s7nodave.BinarySupport.{binary_write_internal, binary_read_internal}
use s7nodave.Prelude.{◌≡◌, refl, some, [], ◌∷◌, Bytes, arith}

-- A quiet NaN is read as true.
reads_nan : binary_read_internal (0 ∷ 0 ∷ 0xc0 ∷ 0x7f ∷ []) float ≡ some 1
unfolding binary_read_internal
reads_nan = refl

binary_write_internal-binary_read_internal_example :
    (s : Bytes) × (binary_write_internal 5 (9 ∷ 9 ∷ 9 ∷ 9 ∷ []) float ≡ some s)
    × (binary_read_internal s float ≡ some 1)
binary_write_internal-binary_read_internal_example =
    binary_write_internal-binary_read_internal 5 (9 ∷ 9 ∷ 9 ∷ 9 ∷ []) float (omega arith)
