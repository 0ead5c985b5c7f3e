-- ===== src/BinarySupport/RoundTrip.antt =====
-- Flags written and read again by s7nodaveApp/src/BinarySupport.cc.
use s7nodave.Asyn.{PlcDataType, bool, int8, uint8, int16, uint16, int32, uint32, float}
use s7nodave.BinarySupport.{flag, binary_read_internal, binary_write_internal}
use s7nodave.LongSupport.RoundTrip.{bytes_of_type, store8-load8, store16-load16, store32-load32}
use s7nodave.Prelude.{
  ℕ, ◌≤◌, ◌<◌, ◌^◌, ◌≡◌, refl, some, Bytes, length, ◌==◌, if◌then◌else◌, arith, Bool-cases, inl,
  inr,
}

flag_bound : (n : ℕ) → flag n < 2
flag_bound n = ground arith

flag_twice : (n : ℕ) → flag (flag n) ≡ flag n
flag_twice n = ground arith

word_bound : (n : ℕ) → (if n == 0 then 0 else 0x3f80_0000) < 2 ^ 32
word_bound n = ground arith

-- If the buffer has room for the type, the flag of a value is written, and it is read again, whatever the
-- type.
pub binary_write_internal-binary_read_internal :
    (rval : ℕ) (buffer : Bytes) (t : PlcDataType)
    → bytes_of_type t ≤ length buffer
    → (s : Bytes) × (binary_write_internal rval buffer t ≡ some s)
      × (binary_read_internal s t ≡ some (if rval == 0 then 0 else 1))
unfolding binary_write_internal binary_read_internal
binary_write_internal-binary_read_internal rval buffer bool room =
    let (s, w, r) = store8-load8 (flag rval) buffer (omega (arith, flag_bound rval)) room in
    (s, w, rw (r, flag_twice rval) refl)
binary_write_internal-binary_read_internal rval buffer int8 room =
    let (s, w, r) = store8-load8 (flag rval) buffer (omega (arith, flag_bound rval)) room in
    (s, w, rw (r, flag_twice rval) refl)
binary_write_internal-binary_read_internal rval buffer uint8 room =
    let (s, w, r) = store8-load8 (flag rval) buffer (omega (arith, flag_bound rval)) room in
    (s, w, rw (r, flag_twice rval) refl)
binary_write_internal-binary_read_internal rval buffer int16 room =
    let (s, w, r) = store16-load16 (flag rval) buffer (omega (arith, flag_bound rval)) room in
    (s, w, rw (r, flag_twice rval) refl)
binary_write_internal-binary_read_internal rval buffer uint16 room =
    let (s, w, r) = store16-load16 (flag rval) buffer (omega (arith, flag_bound rval)) room in
    (s, w, rw (r, flag_twice rval) refl)
binary_write_internal-binary_read_internal rval buffer int32 room =
    let (s, w, r) = store32-load32 (flag rval) buffer (omega (arith, flag_bound rval)) room in
    (s, w, rw (r, flag_twice rval) refl)
binary_write_internal-binary_read_internal rval buffer uint32 room =
    let (s, w, r) = store32-load32 (flag rval) buffer (omega (arith, flag_bound rval)) room in
    (s, w, rw (r, flag_twice rval) refl)
binary_write_internal-binary_read_internal rval buffer float room = elim (Bool-cases (rval == 0)) [
  | inl nothing ↦
      let (s, w, r) = store32-load32 0 buffer (omega arith) room in
      (s, rw (nothing, binary_write_internal) w, rw (r, nothing) refl)
  | inr other ↦
      let (s, w, r) = store32-load32 0x3f80_0000 buffer (omega arith) room in
      (s, rw (other, binary_write_internal) w, rw (r, other) refl)
]
