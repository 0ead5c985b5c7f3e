-- ===== src/MultiBinarySupport.antt =====
-- s7nodaveApp/src/MultiBinarySupport.cc: values of multi-binary records, of which a mask takes some bits.
-- The host is little-endian. `none` is a failed assertion.
pub mod RoundTrip
mod Tests
use s7nodave.Asyn.{PlcDataType, bool, int8, uint8, int16, uint16, int32, uint32, float, PlcDataSize}
use s7nodave.LongSupport.{load8, load16, load32, store8, store16, store32}
use s7nodave.PlcAddress.{data_size_in_bits}
use s7nodave.Prelude.{
  ℕ, zero, suc, ◌+◌, ◌*◌, ◌/◌, ◌%◌, ◌^◌, Bool, true, false, Option, none, some, ◌>>=◌, List, [],
  ◌∷◌, Bytes, ltb, ◌==◌, if◌then◌else◌,
}

-- `a & b` of so many bits.
unfoldable pub bit_and : ℕ → ℕ → ℕ → ℕ
bit_and zero a b = 0
bit_and (suc bits) a b = a % 2 * (b % 2) + 2 * bit_and bits (a / 2) (b / 2)

-- The bits of a 32-bit value that a mask takes; no mask takes all.
abbrev pub masked : ℕ → ℕ → ℕ
masked mask rval = if mask == 0 then rval else bit_and 32 rval mask

-- The buffer stays as it was for a type that is not supported.
unfoldable pub write_common : ℕ → Bytes → PlcDataType → Option Bytes
write_common rval buffer int8 = store8 rval buffer
write_common rval buffer uint8 = store8 rval buffer
write_common rval buffer int16 = store16 rval buffer
write_common rval buffer uint16 = store16 rval buffer
write_common rval buffer int32 = store32 rval buffer
write_common rval buffer uint32 = store32 rval buffer
write_common rval buffer bool = some buffer
write_common rval buffer float = some buffer

-- The fields of a multi-binary record; `vals` are the values of its states.
pub record MultiBinary : Type 0 where
  pub val : ℕ
  pub rval : ℕ
  pub mask : ℕ
  pub vals : List ℕ

abbrev pub has_value : List ℕ → Bool
has_value [] = false
has_value (v ∷ vals) = let rest = has_value vals in if v == 0 then rest else true

unfoldable pub write_mbbo : MultiBinary → Bytes → PlcDataType → Option Bytes
unfolding write_common
write_mbbo r buffer t =
    write_common (if has_value r.vals then masked r.mask r.rval else r.val) buffer t

unfoldable pub write_mbbo_direct : MultiBinary → Bytes → PlcDataType → Option Bytes
unfolding write_common
write_mbbo_direct r buffer t =
    write_common (if r.mask == 0 then r.rval else bit_and 32 r.val r.mask) buffer t

-- The mask and the number of bits, for a shift; the mask is a 32-bit value.
unfoldable pub init_mask_internal : ℕ → ℕ → ℕ → PlcDataSize → ℕ × ℕ
init_mask_internal mask nobt shft size =
    let (m, n) = (if ltb (data_size_in_bits size) nobt then (0, 0) else (mask, nobt)) in
    (if ltb 0 shft then m * 2 ^ shft % 2 ^ 32 else m, n)

-- The value stays as it was for a type that is not supported.
unfoldable pub multi_read_internal : ℕ → ℕ → Bytes → PlcDataType → Option ℕ
multi_read_internal rval mask buffer int8 = do n ← load8 buffer; some (masked mask n)
multi_read_internal rval mask buffer uint8 = do n ← load8 buffer; some (masked mask n)
multi_read_internal rval mask buffer int16 = do n ← load16 buffer; some (masked mask n)
multi_read_internal rval mask buffer uint16 = do n ← load16 buffer; some (masked mask n)
multi_read_internal rval mask buffer int32 = do n ← load32 buffer; some (masked mask n)
multi_read_internal rval mask buffer uint32 = do n ← load32 buffer; some (masked mask n)
multi_read_internal rval mask buffer bool = some rval
multi_read_internal rval mask buffer float = some rval

-- Bits are not supported, nor are floats, for which integers are proposed.
abbrev pub multi_plc_data_type : Option PlcDataType → Option PlcDataType → Option PlcDataType
multi_plc_data_type (some bool) default_type = none
multi_plc_data_type (some float) default_type = none
multi_plc_data_type (some t) default_type = some t
multi_plc_data_type none (some bool) = none
multi_plc_data_type none (some float) = some uint32
multi_plc_data_type none default_type = default_type
