-- ===== src/ArraySupport/Flags.antt =====
-- Arrays of flags that s7nodaveApp/src/ArraySupport.cc writes to bits and reads again.
use s7nodave.ArraySupport.Bits.{bit_at, IsReady, put_bit_lem}
use s7nodave.ArraySupport.Elements.{
  NumberType, epics_float32, epics_float64, whole, ElementFloats, size_of, element_type,
  bytes_of_word, word_of_number, read_bits, write_bits, convert_bool_buffer_to_record,
  convert_record_to_bool_buffer, array_read_internal, array_write_internal,
}
use s7nodave.ArraySupport.Numbers.{
  IsInteger, IsHeld, length-bytes_of_word, has_room, drop_word, both_empty, length-drop,
  load_number-bytes_of_word,
}
use s7nodave.ArraySupport.{FieldType, dbf_string, dbf_other, check_buffer_size}
use s7nodave.Asyn.{bool}
use s7nodave.Prelude.{
  ℕ, zero, suc, ◌+◌, ◌*◌, ◌/◌, ◌≤◌, ◌<◌, ◌≡◌, refl, ap, ◌∙◌, Bool, true, false, some, some_inj,
  >>=-eq-some, List, [], ◌∷◌, ◌++◌, Bytes, length, drop, get_elem?, subst, eqb_ℤ, inl, arith,
  if◌then◌else◌, pos,
}

abbrev value_of : Bool → ℕ
value_of b = if b then 1 else 0

get_elem?-below : (i : ℕ) (s : Bytes) → i < length s → (b : ℕ) × (get_elem? s i ≡ some b)
get_elem?-below i [] h = absurd (omega arith)
get_elem?-below zero (b ∷ s) h = (b, refl)
get_elem?-below (suc i) (b ∷ s) h = get_elem?-below i s (omega arith)

-- The bits of a buffer from this number on.
abbrev pub HasBits : ℕ → List Bool → Bytes → Type 0
HasBits i [] s = Unit
HasBits i (b ∷ bs) s = (bit_at i s ≡ some (value_of b)) × HasBits (i + 1) bs s

flag-IsHeld : (k : NumberType) (b : Bool) → IsInteger k → IsHeld k (pos (value_of b))
flag-IsHeld epics_float32 b i = absurd i
flag-IsHeld epics_float64 b i = absurd i
flag-IsHeld k true i = (omega arith, omega arith)
flag-IsHeld k false i = (omega arith, omega arith)

tested_flag : (b : Bool) → (if eqb_ℤ (pos (value_of b)) (pos 0) then 0 else 1) ≡ value_of b
tested_flag true = refl
tested_flag false = refl

module _ {ℓ} {D : Type ℓ} (fl : ElementFloats D) (k : NumberType) where
  -- The elements of an array of flags in memory.
  abbrev pub element_of : Bool → Bytes
  element_of b = bytes_of_word (size_of k) (word_of_number fl k (whole (pos (value_of b))))

  abbrev pub elements_of : List Bool → Bytes
  elements_of [] = []
  elements_of (b ∷ bs) = element_of b ++ elements_of bs

  write_bits-HasBits :
      (i : ℕ) (bs : List Bool) (s : Bytes)
      → IsInteger k
      → IsReady i s
      → i + length bs ≤ 8 * length s
      → (t : Bytes) × (write_bits fl k i (elements_of bs) s (length bs) ≡ some t)
        × (length t ≡ length s)
        × HasBits i bs t
        × ((j : ℕ) → j < i → bit_at j t ≡ bit_at j s)
  unfolding write_bits
  write_bits-HasBits i [] s h ready room = (s, refl, refl, tt, λ j h. refl)
  write_bits-HasBits i (b ∷ bs) s h ready room =
      let (byte, e) = get_elem?-below (i / 8) s (omega arith) in
      let (u, put, kept, new, old, ready') = put_bit_lem i (value_of b) s (ground arith) e ready in
      let next : IsReady (i + 1) u = subst (λ n. IsReady n u) (omega arith) ready' in
      let (t, written, kept', has, old') = write_bits-HasBits (i + 1) bs u h next (omega arith) in
      (
        t,
        rw
            (
              load_number-bytes_of_word fl k (pos (value_of b)) (elements_of bs) h
                  (flag-IsHeld k b h),
              tested_flag b,
              put,
              drop_word k (element_of b) (elements_of bs) (length-bytes_of_word (size_of k) _),
              written,
              write_bits,
            )
            refl,
        kept' ∙ kept,
        (old' i (omega arith) ∙ new, has),
        λ j h. old' j (omega arith) ∙ old j h,
      )

  read_bits-HasBits :
      (i : ℕ) (bs : List Bool) (s other : Bytes)
      → HasBits i bs s
      → length other ≡ length bs * size_of k
      → read_bits fl k i s other (length bs) ≡ some (elements_of bs)
  unfolding read_bits
  read_bits-HasBits i [] s other h e = ap some (both_empty other [] (omega arith) refl)
  read_bits-HasBits i (b ∷ bs) s other (bit, h) e =
      let (byte, found, same) = >>=-eq-some (get_elem? s (i / 8)) _ bit in
      let rest =
        read_bits-HasBits (i + 1) bs s (drop (size_of k) other) h
          (omega (arith, length-drop (size_of k) other)) in
      rw (found, some_inj same, has_room (size_of k) (length other) (omega arith), rest, read_bits)
        refl

  packs :
      (bs : List Bool) (buffer : Bytes) (f : FieldType)
      → element_type f ≡ some k
      → convert_record_to_bool_buffer fl (elements_of bs) buffer (length bs) f
        ≡ write_bits fl k 0 (elements_of bs) buffer (length bs)
  unfolding convert_record_to_bool_buffer
  packs bs buffer dbf_string e = cc
  packs bs buffer dbf_other e = cc
  packs bs buffer f e = ap (λ x. write_bits fl x 0 (elements_of bs) buffer (length bs)) (some_inj e)

  unpacks :
      (n : ℕ) (buffer other : Bytes) (f : FieldType)
      → element_type f ≡ some k
      → convert_bool_buffer_to_record fl buffer other n f ≡ read_bits fl k 0 buffer other n
  unfolding convert_bool_buffer_to_record
  unpacks n buffer other dbf_string e = cc
  unpacks n buffer other dbf_other e = cc
  unpacks n buffer other f e = ap (λ x. read_bits fl x 0 buffer other n) (some_inj e)

  room_for_bits : (size n : ℕ) → check_buffer_size size n bool ≡ true → n ≤ 8 * size
  unfolding check_buffer_size
  room_for_bits size n h = ground arith

  -- For a record of integers that are each 0 or 1, which are bits of the PLC: they are written to any buffer
  -- with room for so many bits, and within it, the element of number i to the bit i % 8 of the byte i / 8; and
  -- what was written is read as the same elements, in place of any others.
  pub array_write_internal-HasBits :
      (f : FieldType) (bs : List Bool) (buffer other : Bytes)
      → element_type f ≡ some k
      → IsInteger k
      → check_buffer_size (length buffer) (length bs) bool ≡ true
      → length other ≡ length bs * size_of k
      → (s : Bytes) × (array_write_internal fl (elements_of bs) (length bs) f buffer bool
          ≡ some (s, length bs))
        × (length s ≡ length buffer)
        × HasBits 0 bs s
        × (array_read_internal fl other (length bs) f s bool ≡ some (elements_of bs, length bs))
  unfolding array_write_internal array_read_internal
  array_write_internal-HasBits f bs buffer other e h room e' =
      let (s, written, kept, has, _) =
        write_bits-HasBits 0 bs buffer h (λ b found. inl refl)
          (omega (arith, room_for_bits (length buffer) (length bs) room)) in
      (
        s,
        rw (room, packs bs buffer f e, written, array_write_internal) refl,
        kept,
        has,
        rw
            (
              kept,
              room,
              unpacks (length bs) s other f e,
              read_bits-HasBits 0 bs s other has e',
              array_read_internal,
            )
            refl,
      )
