-- ===== src/ArraySupport/RoundTrip.antt =====
-- Arrays of integers that s7nodaveApp/src/ArraySupport.cc writes and reads again.
use s7nodave.ArraySupport.DataTypes.{
  type_range, field_range, is_inside, writes_all, get_plc_data_type_out-writes_all,
}
use s7nodave.ArraySupport.Elements.{
  NumberType, ElementFloats, size_of, plc_element_type, element_type, convert_buffer,
  convert_buffer_to_record, convert_record_to_buffer, array_read_internal, array_write_internal,
  read_elements, write_elements,
}
use s7nodave.ArraySupport.Numbers.{
  AreBytes, IsInteger, least, greatest, IsCovered, convert_buffer-IsCarried,
}
use s7nodave.ArraySupport.{
  FieldType, dbf_string, dbf_float, dbf_double, dbf_other, check_buffer_size, get_plc_data_type_out,
}
use s7nodave.Asyn.{PlcDataSize, PlcDataType, bool, int8, uint8, float}
use s7nodave.Prelude.{
  ℕ, ◌*◌, ◌≤◌, ◌≡◌, refl, sym, ap, Bool, true, Option, none, some, some_inj, Bytes, length, ℤ,
  arith, subst,
}

-- The ranges of the tables of types are those of the integers.
field_range-element_type :
    (f : FieldType) {k : NumberType}
    → element_type f ≡ some k
    → IsInteger k
    → field_range f ≡ some (least k, greatest k)
field_range-element_type dbf_string e i = cc
field_range-element_type dbf_other e i = cc
field_range-element_type dbf_float e i = absurd (subst IsInteger (sym (some_inj e)) i)
field_range-element_type dbf_double e i = absurd (subst IsInteger (sym (some_inj e)) i)
field_range-element_type f e i = ap (λ x. some (least x, greatest x)) (some_inj e)

type_range-plc_element_type :
    (t : PlcDataType) {u : NumberType}
    → plc_element_type t ≡ some u
    → IsInteger u
    → type_range t ≡ some (least u, greatest u)
type_range-plc_element_type bool e i = cc
type_range-plc_element_type float e i = absurd (subst IsInteger (sym (some_inj e)) i)
type_range-plc_element_type t e i = ap (λ x. some (least x, greatest x)) (some_inj e)

is_inside-IsCovered :
    (k u : NumberType)
    → is_inside (least k, greatest k) (least u, greatest u) ≡ true
    → IsCovered k u
is_inside-IsCovered k u h = ground arith

-- The test of a type that is not that of bits.
abbrev is_wide : Option (ℤ × ℤ) → Option (ℤ × ℤ) → Bool
is_wide o p = elim o [ none ↦ true | some q ↦ elim p [ none ↦ true | some r ↦ is_inside r q ] ]

writes_all-is_wide :
    (f : FieldType) (t : PlcDataType) {u : NumberType}
    → plc_element_type t ≡ some u
    → writes_all f t ≡ is_wide (type_range t) (field_range f)
writes_all-is_wide f bool e = cc
writes_all-is_wide f t e = refl

inside-types :
    (f : FieldType) (t : PlcDataType) {k u : NumberType}
    → element_type f ≡ some k
    → plc_element_type t ≡ some u
    → IsInteger k
    → IsInteger u
    → writes_all f t ≡ true
    → is_inside (least k, greatest k) (least u, greatest u) ≡ true
inside-types f t e e' i j h =
    rw
      (
        writes_all-is_wide f t e',
        type_range-plc_element_type t e' j,
        field_range-element_type f e i,
      )
      at h

room_for_elements :
    (t : PlcDataType) (size n : ℕ) {u : NumberType}
    → plc_element_type t ≡ some u
    → n * size_of u ≤ size
    → check_buffer_size size n t ≡ true
unfolding check_buffer_size
room_for_elements bool size n e h = cc
room_for_elements int8 size n e h =
    let room = subst (λ x. n * size_of x ≤ size) (sym (some_inj e)) h in ground (arith, room)
room_for_elements uint8 size n e h =
    let room = subst (λ x. n * size_of x ≤ size) (sym (some_inj e)) h in ground (arith, room)
room_for_elements t size n e h =
    let room = subst (λ x. n * size_of x ≤ size) (sym (some_inj e)) h in ground (arith, room)

module _ {ℓ} {D : Type ℓ} (fl : ElementFloats D) where
  writes_elements :
      (k u : NumberType) (source target : Bytes) (n : ℕ) (f : FieldType)
      → element_type f ≡ some k
      → convert_record_to_buffer fl u source target n f ≡ convert_buffer fl k u source target n
  unfolding convert_record_to_buffer
  writes_elements k u source target n dbf_string e = cc
  writes_elements k u source target n dbf_other e = cc
  writes_elements k u source target n f e =
      ap (λ x. convert_buffer fl x u source target n) (some_inj e)

  reads_elements :
      (k u : NumberType) (source target : Bytes) (n : ℕ) (f : FieldType)
      → element_type f ≡ some k
      → convert_buffer_to_record fl u source target n f ≡ convert_buffer fl u k source target n
  unfolding convert_buffer_to_record
  reads_elements k u source target n dbf_string e = cc
  reads_elements k u source target n dbf_other e = cc
  reads_elements k u source target n f e =
      ap (λ x. convert_buffer fl u x source target n) (some_inj e)

  write_elements_lem :
      (t : PlcDataType) (k u : NumberType) (elements buffer : Bytes) (n : ℕ) (f : FieldType)
      → element_type f ≡ some k
      → plc_element_type t ≡ some u
      → write_elements fl elements n f buffer t ≡ convert_buffer fl k u elements buffer n
  write_elements_lem t k u elements buffer n f e e' =
      rw (e', write_elements) (writes_elements k u elements buffer n f e)

  read_elements_lem :
      (t : PlcDataType) (k u : NumberType) (elements buffer : Bytes) (n : ℕ) (f : FieldType)
      → element_type f ≡ some k
      → plc_element_type t ≡ some u
      → read_elements fl elements n f buffer t ≡ convert_buffer fl u k buffer elements n
  read_elements_lem t k u elements buffer n f e e' =
      rw (e', read_elements) (reads_elements k u buffer elements n f e)

  -- For a record of integers, whose elements are bytes in memory, and a type of integers of the PLC that is
  -- chosen for it, asked for or not: the elements are written to any buffer with room for them, all of them and
  -- within the buffer, and what was written is read as the same elements, in place of any others.
  pub array_write_internal-array_read_internal :
      (size : PlcDataSize) (suggestion : Option PlcDataType) (f : FieldType) (t : PlcDataType)
      (k u : NumberType) (elements buffer other : Bytes) (nelm : ℕ)
      → get_plc_data_type_out size suggestion f ≡ some t
      → element_type f ≡ some k
      → plc_element_type t ≡ some u
      → IsInteger k
      → IsInteger u
      → AreBytes elements
      → length elements ≡ nelm * size_of k
      → length other ≡ nelm * size_of k
      → nelm * size_of u ≤ length buffer
      → (s : Bytes) × (array_write_internal fl elements nelm f buffer t ≡ some (s, nelm))
        × (length s ≡ length buffer)
        × (array_read_internal fl other nelm f s t ≡ some (elements, nelm))
  unfolding array_write_internal array_read_internal
  array_write_internal-array_read_internal size suggestion f t k u elements buffer other nelm chosen
        e e' i j h len len' fits =
      let room = room_for_elements t (length buffer) nelm e' fits in
      let c =
        is_inside-IsCovered k u
          (inside-types f t e e' i j (get_plc_data_type_out-writes_all size suggestion f chosen)) in
      let (s, written, kept, carried) =
        convert_buffer-IsCarried fl k u elements buffer other nelm i j c h len fits len' in
      (
        s,
        rw
            (
              room,
              write_elements_lem t k u elements buffer nelm f e e',
              written,
              array_write_internal,
            )
            refl,
        kept,
        rw (kept, room, read_elements_lem t k u other s nelm f e e', carried, array_read_internal)
            refl,
      )
