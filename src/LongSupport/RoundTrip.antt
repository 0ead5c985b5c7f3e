-- ===== src/LongSupport/RoundTrip.antt =====
-- Values written and read again by s7nodaveApp/src/LongSupport.cc.
use s7nodave.Asyn.{PlcDataType, bool, int8, uint8, int16, uint16, int32, uint32, float}
use s7nodave.LongSupport.{
  load8, load16, load32, store8, store16, store32, signed, to_word, read_internal, write_internal,
  is_unsupported, get_plc_data_type, swap16, swap32, convert_from_or_to_plc_byte_order,
}
use s7nodave.Prelude.{
  ℕ, ◌/◌, ◌%◌, ◌^◌, ◌≤◌, ◌<◌, ◌≡◌, refl, ap, false, Option, none, some, >>=-eq-some, some_inj, [],
  ◌∷◌, Bytes, length, if◌then◌else◌, ℤ, pos, negsuc, ◌≤ℤ◌, eqb_ℤ, arith, subst, unless_some,
  Bool-cases, inl, inr,
}

-- A word is stored in a buffer that has room for it, and loaded again.
abbrev pub IsStored : (ℕ → Bytes → Option Bytes) → (Bytes → Option ℕ) → ℕ → Bytes → Type 0
IsStored store load n buffer = (s : Bytes) × (store n buffer ≡ some s) × (load s ≡ some n)

pub store8-load8 : (n : ℕ) (s : Bytes) → n < 2 ^ 8 → 1 ≤ length s → IsStored store8 load8 n s
store8-load8 n [] h room = absurd (omega arith)
store8-load8 n (a ∷ s) h room = (n % 256 ∷ s, refl, ap some (omega arith))

pub store16-load16 : (n : ℕ) (s : Bytes) → n < 2 ^ 16 → 2 ≤ length s → IsStored store16 load16 n s
store16-load16 n [] h room = absurd (omega arith)
store16-load16 n (a ∷ []) h room = absurd (omega arith)
store16-load16 n (a ∷ b ∷ s) h room = (n % 256 ∷ n / 256 % 256 ∷ s, refl, ap some (omega arith))

pub store32-load32 : (n : ℕ) (s : Bytes) → n < 2 ^ 32 → 4 ≤ length s → IsStored store32 load32 n s
store32-load32 n [] h room = absurd (omega arith)
store32-load32 n (a ∷ []) h room = absurd (omega arith)
store32-load32 n (a ∷ b ∷ []) h room = absurd (omega arith)
store32-load32 n (a ∷ b ∷ c ∷ []) h room = absurd (omega arith)
store32-load32 n (a ∷ b ∷ c ∷ d ∷ s) h room = (
  n % 256 ∷ n / 256 % 256 ∷ n / 65536 % 256 ∷ n / 16777216 % 256 ∷ s,
  refl,
  ap some (omega arith),
)

-- The values that a type can hold, and the bytes that it takes.
abbrev pub Holds : PlcDataType → ℤ → Type 0
Holds bool v = (pos 0 ≤ℤ v) × (v ≤ℤ pos 1)
Holds int8 v = (negsuc 127 ≤ℤ v) × (v ≤ℤ pos 127)
Holds uint8 v = (pos 0 ≤ℤ v) × (v ≤ℤ pos 255)
Holds int16 v = (negsuc 32767 ≤ℤ v) × (v ≤ℤ pos 32767)
Holds uint16 v = (pos 0 ≤ℤ v) × (v ≤ℤ pos 65535)
Holds int32 v = (negsuc 2147483647 ≤ℤ v) × (v ≤ℤ pos 2147483647)
Holds uint32 v = ⊥
Holds float v = ⊥

abbrev pub bytes_of_type : PlcDataType → ℕ
bytes_of_type bool = 1
bytes_of_type int8 = 1
bytes_of_type uint8 = 1
bytes_of_type int16 = 2
bytes_of_type uint16 = 2
bytes_of_type _ = 4

to_word8_bound : (v : ℤ) → to_word (2 ^ 8) v < 2 ^ 8
to_word8_bound (pos n) = omega arith
to_word8_bound (negsuc n) = omega arith

signed8-to_word : (v : ℤ) → Holds int8 v → signed (2 ^ 8) (to_word (2 ^ 8) v) ≡ v
signed8-to_word (pos n) h = ground arith
signed8-to_word (negsuc n) h = ground arith

to_word16_bound : (v : ℤ) → to_word (2 ^ 16) v < 2 ^ 16
to_word16_bound (pos n) = omega arith
to_word16_bound (negsuc n) = omega arith

signed16-to_word : (v : ℤ) → Holds int16 v → signed (2 ^ 16) (to_word (2 ^ 16) v) ≡ v
signed16-to_word (pos n) h = ground arith
signed16-to_word (negsuc n) h = ground arith

to_word32_bound : (v : ℤ) → to_word (2 ^ 32) v < 2 ^ 32
to_word32_bound (pos n) = omega arith
to_word32_bound (negsuc n) = omega arith

signed32-to_word : (v : ℤ) → Holds int32 v → signed (2 ^ 32) (to_word (2 ^ 32) v) ≡ v
signed32-to_word (pos n) h = ground arith
signed32-to_word (negsuc n) h = ground arith

pos-to_word8 : (v : ℤ) → Holds uint8 v → pos (to_word (2 ^ 8) v) ≡ v
pos-to_word8 (pos n) h = ap pos (omega arith)
pos-to_word8 (negsuc n) h = absurd (omega arith)

pos-to_word16 : (v : ℤ) → Holds uint16 v → pos (to_word (2 ^ 16) v) ≡ v
pos-to_word16 (pos n) h = ap pos (omega arith)
pos-to_word16 (negsuc n) h = absurd (omega arith)

pos-bit : (v : ℤ) → Holds bool v → pos (if eqb_ℤ v (pos 0) then 0 else 1) ≡ v
pos-bit (pos n) h = ground arith
pos-bit (negsuc n) h = absurd (omega arith)

-- A value that a type can hold, in a buffer with room for the type, is written without an alarm, and
-- what was written is read as that value, again without one.
pub write_internal-read_internal :
    (t : PlcDataType) (v val : ℤ) (buffer : Bytes)
    → Holds t v
    → bytes_of_type t ≤ length buffer
    → (s : Bytes) × (write_internal v buffer t ≡ some (s, false))
      × (read_internal val s t ≡ some (v, false))
unfolding write_internal read_internal
write_internal-read_internal bool v val buffer h room =
    let (s, e, l) = store8-load8 (if eqb_ℤ v (pos 0) then 0 else 1) buffer (ground arith) room in
    (s, rw e refl, rw l (rw (pos-bit v h) refl))
write_internal-read_internal int8 v val buffer h room =
    let (s, e, l) = store8-load8 (to_word (2 ^ 8) v) buffer (to_word8_bound v) room in
    (s, rw e refl, rw l (rw (signed8-to_word v h) refl))
write_internal-read_internal uint8 v val buffer h room =
    let (s, e, l) = store8-load8 (to_word (2 ^ 8) v) buffer (to_word8_bound v) room in
    (s, rw e refl, rw l (rw (pos-to_word8 v h) refl))
write_internal-read_internal int16 v val buffer h room =
    let (s, e, l) = store16-load16 (to_word (2 ^ 16) v) buffer (to_word16_bound v) room in
    (s, rw e refl, rw l (rw (signed16-to_word v h) refl))
write_internal-read_internal uint16 v val buffer h room =
    let (s, e, l) = store16-load16 (to_word (2 ^ 16) v) buffer (to_word16_bound v) room in
    (s, rw e refl, rw l (rw (pos-to_word16 v h) refl))
write_internal-read_internal int32 v val buffer h room =
    let (s, e, l) = store32-load32 (to_word (2 ^ 32) v) buffer (to_word32_bound v) room in
    (s, rw e refl, rw l (rw (signed32-to_word v h) refl))
write_internal-read_internal uint32 v val buffer h room = absurd h
write_internal-read_internal float v val buffer h room = absurd h

-- The data type that is chosen is never `uint32` or `float`, which are not supported.
pub get_plc_data_type-IsSupported :
    (requested default_type : Option PlcDataType) {t : PlcDataType}
    → get_plc_data_type requested default_type ≡ some t
    → is_unsupported t ≡ false
unfolding get_plc_data_type
get_plc_data_type-IsSupported (some u) d e =
    let (supported, same) = unless_some (is_unsupported u) (some u) e in
    subst (λ x. is_unsupported x ≡ false) (some_inj same) supported
get_plc_data_type-IsSupported none (some u) e = elim (Bool-cases (is_unsupported u)) [
  | inl other ↦ subst (λ x. is_unsupported x ≡ false) (some_inj (rw other at e)) refl
  | inr supported ↦ subst (λ x. is_unsupported x ≡ false) (some_inj (rw supported at e)) supported
]
get_plc_data_type-IsSupported none none e = cc

swap16-swap16 : (s : Bytes) {s' : Bytes} → swap16 s ≡ some s' → swap16 s' ≡ some s
swap16-swap16 [] e = subst (λ x. swap16 x ≡ some []) (some_inj e) refl
swap16-swap16 (a ∷ []) e = cc
swap16-swap16 (a ∷ b ∷ s) e =
    let (s1, e1, e2) = >>=-eq-some (swap16 s) _ e in
    subst (λ x. swap16 x ≡ some (a ∷ b ∷ s)) (some_inj e2) (rw (swap16-swap16 s e1) refl)

swap32-swap32 : (s : Bytes) {s' : Bytes} → swap32 s ≡ some s' → swap32 s' ≡ some s
swap32-swap32 [] e = subst (λ x. swap32 x ≡ some []) (some_inj e) refl
swap32-swap32 (a ∷ []) e = cc
swap32-swap32 (a ∷ b ∷ []) e = cc
swap32-swap32 (a ∷ b ∷ c ∷ []) e = cc
swap32-swap32 (a ∷ b ∷ c ∷ d ∷ s) e =
    let (s1, e1, e2) = >>=-eq-some (swap32 s) _ e in
    subst (λ x. swap32 x ≡ some (a ∷ b ∷ c ∷ d ∷ s)) (some_inj e2) (rw (swap32-swap32 s e1) refl)

-- A buffer that is converted to the byte order of the PLC is converted back to what it was.
pub convert_from_or_to_plc_byte_order_twice :
    (buffer s : Bytes) (t : PlcDataType)
    → convert_from_or_to_plc_byte_order buffer t ≡ some s
    → convert_from_or_to_plc_byte_order s t ≡ some buffer
unfolding convert_from_or_to_plc_byte_order
convert_from_or_to_plc_byte_order_twice buffer s bool e = rw (some_inj e) refl
convert_from_or_to_plc_byte_order_twice buffer s int8 e = rw (some_inj e) refl
convert_from_or_to_plc_byte_order_twice buffer s uint8 e = rw (some_inj e) refl
convert_from_or_to_plc_byte_order_twice buffer s int16 e = swap16-swap16 buffer e
convert_from_or_to_plc_byte_order_twice buffer s uint16 e = swap16-swap16 buffer e
convert_from_or_to_plc_byte_order_twice buffer s int32 e = swap32-swap32 buffer e
convert_from_or_to_plc_byte_order_twice buffer s uint32 e = swap32-swap32 buffer e
convert_from_or_to_plc_byte_order_twice buffer s float e = swap32-swap32 buffer e
