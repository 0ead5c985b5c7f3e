-- ===== src/StringSupport/Tests.antt =====
-- Texts of a record, and the theorem at one of them.
use s7nodave.Asyn.{uint8}
use s7nodave.Prelude.{◌≡◌, refl, some, false, [], ◌∷◌, ◌++◌, Bytes, codes, arith}
use s7nodave.StringSupport.RoundTrip.{IsText, string_write_internal-string_read_internal}
use s7nodave.StringSupport.{
  zeros, strncpy, copy_string, string_read_internal, string_write_internal,
}

abbrev pump : Bytes
pump = codes "pump" ++ zeros 36

-- Behind its end, a text may go on.
abbrev stopped : Bytes
stopped = codes "pump" ++ 0 ∷ codes "off"

copies : copy_string stopped ≡ some pump
unfolding copy_string strncpy
copies = refl

string_write_internal-string_read_internal_example :
    IsText 39 stopped pump
    × (string_write_internal stopped (zeros 41) uint8 ≡ some (pump ++ 0 ∷ [], false))
    × (string_read_internal [] (pump ++ 0 ∷ []) uint8 ≡ some (pump, false))
string_write_internal-string_read_internal_example =
    string_write_internal-string_read_internal [] stopped (zeros 41) pump uint8 tt (omega arith)
      copies
