-- ===== src/MultiBinarySupport/Tests.antt =====
-- A record with a mask of four bits, and the theorem at it.
use s7nodave.Asyn.{int16, byte}
use s7nodave.MultiBinarySupport.RoundTrip.{write_mbbo-multi_read_internal}
use s7nodave.MultiBinarySupport.{
  MultiBinary, bit_and, write_mbbo, multi_read_internal, init_mask_internal,
}
use s7nodave.Prelude.{◌≡◌, refl, some, [], ◌∷◌, Bytes, arith}

abbrev four_bits : MultiBinary
four_bits = record { val = 2; rval = 0x5a; mask = 0xf0; vals = 0 ∷ 3 ∷ [] }

-- Too many bits for a byte: there is no mask then.
no_mask : init_mask_internal 0x1ff 9 1 byte ≡ (0, 0)
unfolding init_mask_internal
no_mask = refl

write_mbbo-multi_read_internal_example :
    (s : Bytes) × (write_mbbo four_bits (0 ∷ 0 ∷ []) int16 ≡ some s)
    × (multi_read_internal 0 0 s int16 ≡ some 0x50)
    × (multi_read_internal 0 0xf0 s int16 ≡ some 0x50)
unfolding bit_and
write_mbbo-multi_read_internal_example =
    write_mbbo-multi_read_internal 0 four_bits (0 ∷ 0 ∷ []) int16 tt (omega arith) (omega arith)
      refl
