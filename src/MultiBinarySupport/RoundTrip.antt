-- ===== src/MultiBinarySupport/RoundTrip.antt =====
-- Masked values written and read again by s7nodaveApp/src/MultiBinarySupport.cc.
use s7nodave.Asyn.{PlcDataType, bool, int8, uint8, int16, uint16, int32, uint32, float}
use s7nodave.LongSupport.RoundTrip.{bytes_of_type, store8-load8, store16-load16, store32-load32}
use s7nodave.MultiBinarySupport.{
  bit_and, masked, write_common, MultiBinary, has_value, write_mbbo, multi_read_internal,
}
use s7nodave.Prelude.{
  ℕ, zero, suc, ◌+◌, ◌*◌, ◌/◌, ◌%◌, ◌^◌, ◌≤◌, ◌<◌, ◌≡◌, ◌⊎◌, refl, ap, some, Bytes, length, ◌==◌,
  arith, ◌∙◌, inl, inr, Bool-cases, true,
}

parity : (a : ℕ) → (a % 2 ≡ 0) ⊎ (a % 2 ≡ 1)
parity a = ground arith

product_bound : (a m : ℕ) → a % 2 * (m % 2) ≤ a % 2
product_bound a m = elim (parity m) [
  | inl even ↦ rw even (omega arith)
  | inr odd ↦ rw odd (omega arith)
]

product_twice : (x m : ℕ) → x * (m % 2) * (m % 2) ≡ x * (m % 2)
product_twice x m = elim (parity m) [
  | inl even ↦ rw even (omega arith)
  | inr odd ↦ rw odd (omega arith)
]

low_bit : (x r : ℕ) → x < 2 → (x + 2 * r) % 2 ≡ x
low_bit x r h = omega arith

high_bits : (x r : ℕ) → x < 2 → (x + 2 * r) / 2 ≡ r
high_bits x r h = omega arith

product_bit : (a m : ℕ) → a % 2 * (m % 2) < 2
product_bit a m = omega (arith, product_bound a m)

-- The mask takes nothing more the second time.
bit_and_twice : (bits a m : ℕ) → bit_and bits (bit_and bits a m) m ≡ bit_and bits a m
unfolding bit_and
bit_and_twice zero a m = refl
bit_and_twice (suc bits) a m =
    let r = bit_and bits (a / 2) (m / 2) in
    rw
      (
        low_bit (a % 2 * (m % 2)) r (product_bit a m),
        high_bits (a % 2 * (m % 2)) r (product_bit a m),
        bit_and_twice bits (a / 2) (m / 2),
        product_twice (a % 2) m,
      )
      refl

bit_and_bound : (bits a m : ℕ) → bit_and bits a m ≤ a
unfolding bit_and
bit_and_bound zero a m = omega arith
bit_and_bound (suc bits) a m = omega (arith, bit_and_bound bits (a / 2) (m / 2), product_bound a m)

masked_twice : (mask a : ℕ) → masked mask (masked mask a) ≡ masked mask a
masked_twice mask a = elim (Bool-cases (mask == 0)) [
  | inl no_mask ↦ rw no_mask refl
  | inr some_bits ↦ rw some_bits (bit_and_twice 32 a mask)
]

masked_bound : (mask a : ℕ) → masked mask a ≤ a
masked_bound mask a = elim (Bool-cases (mask == 0)) [
  | inl no_mask ↦ rw no_mask (omega arith)
  | inr some_bits ↦ rw some_bits (bit_and_bound 32 a mask)
]

-- The types that are supported.
abbrev pub IsMasked : PlcDataType → Type 0
IsMasked bool = ⊥
IsMasked float = ⊥
IsMasked _ = Unit

le_lt : {a b c : ℕ} → a ≤ b → b < c → a < c
le_lt h k = omega arith

write_common-multi_read_internal :
    (old mask n : ℕ) (buffer : Bytes) (t : PlcDataType)
    → IsMasked t
    → n < 2 ^ (8 * bytes_of_type t)
    → bytes_of_type t ≤ length buffer
    → (s : Bytes) × (write_common n buffer t ≡ some s)
      × (multi_read_internal old 0 s t ≡ some n)
      × (multi_read_internal old mask s t ≡ some (masked mask n))
unfolding write_common multi_read_internal
write_common-multi_read_internal old mask n buffer bool ok small room = absurd ok
write_common-multi_read_internal old mask n buffer float ok small room = absurd ok
write_common-multi_read_internal old mask n buffer int8 ok small room =
    let (s, w, r) = store8-load8 n buffer small room in (s, w, rw r refl, rw r refl)
write_common-multi_read_internal old mask n buffer uint8 ok small room =
    let (s, w, r) = store8-load8 n buffer small room in (s, w, rw r refl, rw r refl)
write_common-multi_read_internal old mask n buffer int16 ok small room =
    let (s, w, r) = store16-load16 n buffer small room in (s, w, rw r refl, rw r refl)
write_common-multi_read_internal old mask n buffer uint16 ok small room =
    let (s, w, r) = store16-load16 n buffer small room in (s, w, rw r refl, rw r refl)
write_common-multi_read_internal old mask n buffer int32 ok small room =
    let (s, w, r) = store32-load32 n buffer small room in (s, w, rw r refl, rw r refl)
write_common-multi_read_internal old mask n buffer uint32 ok small room =
    let (s, w, r) = store32-load32 n buffer small room in (s, w, rw r refl, rw r refl)

-- If the type is one of integers, the value can be held by it, the buffer has room and a state of the record
-- has a value, then the raw value is written, with the bits that the mask takes, or all if there is none: this is
-- what a record without a mask reads again, so no other bits are written, and what one with this mask reads.
pub write_mbbo-multi_read_internal :
    (old : ℕ) (record_fields : MultiBinary) (buffer : Bytes) (t : PlcDataType)
    → IsMasked t
    → record_fields.rval < 2 ^ (8 * bytes_of_type t)
    → bytes_of_type t ≤ length buffer
    → has_value record_fields.vals ≡ true
    → (s : Bytes) × (write_mbbo record_fields buffer t ≡ some s)
      × (multi_read_internal old 0 s t ≡ some (masked record_fields.mask record_fields.rval))
      × (multi_read_internal old record_fields.mask s t
          ≡ some (masked record_fields.mask record_fields.rval))
unfolding write_mbbo
write_mbbo-multi_read_internal old f buffer t ok small room valued =
    let n = masked f.mask f.rval in
    let (s, w, all, r) =
      write_common-multi_read_internal old f.mask n buffer t ok
        (le_lt (masked_bound f.mask f.rval) small) room in
    (s, rw valued w, all, r ∙ ap some (masked_twice f.mask f.rval))
