-- ===== src/LongSupport/Tests.antt =====
-- A negative number in a buffer, and the theorems at it.
use s7nodave.Asyn.{uint8, int16, int32, uint32}
use s7nodave.LongSupport.RoundTrip.{write_internal-read_internal}
use s7nodave.LongSupport.{
  read_internal, write_internal, get_plc_data_type, convert_from_or_to_plc_byte_order,
}
use s7nodave.Prelude.{◌≡◌, refl, true, false, none, some, [], ◌∷◌, Bytes, pos, negsuc, arith}

abbrev room_for_two : Bytes
room_for_two = 7 ∷ 7 ∷ 9 ∷ []

-- -2 as a word, the host's order first; a value that is too large for its type wraps around.
writes :
    (write_internal (negsuc 1) room_for_two int16 ≡ some (254 ∷ 255 ∷ 9 ∷ [], false))
    × (write_internal (pos 258) room_for_two uint8 ≡ some (2 ∷ 7 ∷ 9 ∷ [], false))
    × (write_internal (pos 258) room_for_two uint32 ≡ some (room_for_two, true))
    × (write_internal (pos 1) room_for_two int32 ≡ none)
unfolding write_internal
writes = (refl, refl, refl, refl)

write_internal-read_internal_example :
    (s : Bytes) × (write_internal (negsuc 1) room_for_two int16 ≡ some (s, false))
    × (read_internal (pos 0) s int16 ≡ some (negsuc 1, false))
write_internal-read_internal_example =
    write_internal-read_internal int16 (negsuc 1) (pos 0) room_for_two (omega arith, omega arith)
      (omega arith)

asks_nothing : get_plc_data_type none (some uint32) ≡ some int32
unfolding get_plc_data_type
asks_nothing = refl

converts : convert_from_or_to_plc_byte_order (1 ∷ 2 ∷ 3 ∷ 4 ∷ []) int16 ≡ some (2 ∷ 1 ∷ 4 ∷ 3 ∷ [])
unfolding convert_from_or_to_plc_byte_order
converts = refl
