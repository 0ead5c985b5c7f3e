-- ===== src/ArraySupport/Numbers.antt =====
-- Numbers of array records, written and read again by s7nodaveApp/src/ArraySupport.cc.
use s7nodave.ArraySupport.Elements.{
  NumberType, epics_int8, epics_uint8, epics_int16, epics_uint16, epics_int32, epics_uint32,
  epics_float32, epics_float64, Number, whole, ElementFloats, size_of, load_word, bytes_of_word,
  number_of_word, word_of_number, load_number, convert_buffer,
}
use s7nodave.Asyn.{}
use s7nodave.LongSupport.{signed}
use s7nodave.Prelude.{
  ℕ, zero, suc, ◌+◌, ◌-◌, ◌*◌, ◌/◌, ◌≤◌, ◌<◌, ◌≡◌, refl, ap, ◌∙◌, true, some, [], ◌∷◌, ◌++◌, Bytes,
  All, length, take, drop, length-append, drop-append_length, leb, ℤ, pos, negsuc, ◌≤ℤ◌, arith,
  subst,
}

pub length-drop : (n : ℕ) (s : Bytes) → length (drop n s) ≡ length s - n
length-drop zero s = omega arith
length-drop (suc n) [] = omega arith
length-drop (suc n) (b ∷ s) = omega (arith, length-drop n s)

take-append-drop : (n : ℕ) (s : Bytes) → take n s ++ drop n s ≡ s
take-append-drop zero s = refl
take-append-drop (suc n) [] = refl
take-append-drop (suc n) (b ∷ s) = ap (λ l. b ∷ l) (take-append-drop n s)

pub both_empty : (s t : Bytes) → length s ≡ 0 → length t ≡ 0 → s ≡ t
both_empty [] [] h k = refl
both_empty [] (b ∷ t) h k = absurd (omega arith)
both_empty (b ∷ s) t h k = absurd (omega arith)

pub has_room : (n m : ℕ) → n ≤ m → leb n m ≡ true
has_room n m h = ground arith

pub drop_word :
    (u : NumberType) (word t : Bytes) → length word ≡ size_of u → drop (size_of u) (word ++ t) ≡ t
drop_word u word t sized = subst (λ n. drop n (word ++ t) ≡ t) sized (drop-append_length word t)

-- The words of so many bytes.
abbrev bound : ℕ → ℕ
bound zero = 1
bound (suc size) = 256 * bound size

abbrev pub AreBytes : Bytes → Type 0
AreBytes = All (λ b. b < 256)

AreBytes-drop : (n : ℕ) (s : Bytes) → AreBytes s → AreBytes (drop n s)
AreBytes-drop zero s h = h
AreBytes-drop (suc n) [] h = h
AreBytes-drop (suc n) (b ∷ s) h = AreBytes-drop n s h.1

ap_cons : {a b : ℕ} {s t : Bytes} → a ≡ b → s ≡ t → ◌≡◌ {A = Bytes} (a ∷ s) (b ∷ t)
ap_cons h k = cc

load_word-take :
    (size : ℕ) (s : Bytes)
    → AreBytes s
    → size ≤ length s
    → (n : ℕ) × (load_word size s ≡ some n)
      × (n < bound size)
      × (bytes_of_word size n ≡ take size s)
load_word-take zero s h room = (0, refl, omega arith, refl)
load_word-take (suc size) [] h room = absurd (omega arith)
load_word-take (suc size) (b ∷ s) (small, h) room =
    let (n, e, bounded, same) = load_word-take size s h (omega arith) in
    (
      b + 256 * n,
      rw e refl,
      omega arith,
      ap_cons (omega arith) (ap (bytes_of_word size) (omega arith) ∙ same),
    )

load_word-bytes_of_word :
    (size n : ℕ) (rest : Bytes)
    → n < bound size
    → load_word size (bytes_of_word size n ++ rest) ≡ some n
load_word-bytes_of_word zero n rest h = ap some (omega arith)
load_word-bytes_of_word (suc size) n rest h =
    rw (load_word-bytes_of_word size (n / 256) rest (omega arith)) (ap some (omega arith))

pub length-bytes_of_word : (size n : ℕ) → length (bytes_of_word size n) ≡ size
length-bytes_of_word zero n = refl
length-bytes_of_word (suc size) n = omega (arith, length-bytes_of_word size (n / 256))

abbrev pub IsInteger : NumberType → Type 0
IsInteger epics_float32 = ⊥
IsInteger epics_float64 = ⊥
IsInteger _ = Unit

-- The range of a type of integers.
abbrev pub least : NumberType → ℤ
least epics_int8 = negsuc 127
least epics_int16 = negsuc 32767
least epics_int32 = negsuc 2147483647
least _ = pos 0

abbrev pub greatest : NumberType → ℤ
greatest epics_int8 = pos 127
greatest epics_uint8 = pos 255
greatest epics_int16 = pos 32767
greatest epics_uint16 = pos 65535
greatest epics_int32 = pos 2147483647
greatest epics_uint32 = pos 4294967295
greatest _ = pos 0

abbrev pub IsHeld : NumberType → ℤ → Type 0
IsHeld k v = (least k ≤ℤ v) × (v ≤ℤ greatest k)

-- The second type has all the numbers of the first one.
abbrev pub IsCovered : NumberType → NumberType → Type 0
IsCovered k u = (least u ≤ℤ least k) × (greatest k ≤ℤ greatest u)

covered : (k u : NumberType) (v : ℤ) → IsCovered k u → IsHeld k v → IsHeld u v
covered k u v (below, above) (low, high) = (omega arith, omega arith)

module _ {ℓ} {D : Type ℓ} (fl : ElementFloats D) where
  -- An integer and its word.
  IsWordOf : NumberType → ℤ → ℕ → Type ℓ
  IsWordOf k v n =
      (number_of_word fl k n ≡ whole v)
      × (word_of_number fl k (whole v) ≡ n)
      × (n < bound (size_of k))

  IsHeld-IsWordOf : (k : NumberType) (v : ℤ) → IsInteger k → IsHeld k v → (n : ℕ) × IsWordOf k v n
  unfolding IsWordOf
  IsHeld-IsWordOf epics_int8 (pos m) i h = (m, (ap whole (ground arith), omega arith, omega arith))
  IsHeld-IsWordOf epics_int8 (negsuc m) i h =
      (255 - m, (ap whole (ground arith), omega arith, omega arith))
  IsHeld-IsWordOf epics_uint8 (pos m) i h = (m, (refl, omega arith, omega arith))
  IsHeld-IsWordOf epics_uint8 (negsuc m) i h = absurd (omega arith)
  IsHeld-IsWordOf epics_int16 (pos m) i h = (m, (ap whole (ground arith), omega arith, omega arith))
  IsHeld-IsWordOf epics_int16 (negsuc m) i h =
      (65535 - m, (ap whole (ground arith), omega arith, omega arith))
  IsHeld-IsWordOf epics_uint16 (pos m) i h = (m, (refl, omega arith, omega arith))
  IsHeld-IsWordOf epics_uint16 (negsuc m) i h = absurd (omega arith)
  IsHeld-IsWordOf epics_int32 (pos m) i h = (m, (ap whole (ground arith), omega arith, omega arith))
  IsHeld-IsWordOf epics_int32 (negsuc m) i h =
      (4294967295 - m, (ap whole (ground arith), omega arith, omega arith))
  IsHeld-IsWordOf epics_uint32 (pos m) i h = (m, (refl, omega arith, omega arith))
  IsHeld-IsWordOf epics_uint32 (negsuc m) i h = absurd (omega arith)
  IsHeld-IsWordOf epics_float32 v i h = absurd i
  IsHeld-IsWordOf epics_float64 v i h = absurd i

  IsWordOf-IsHeld :
      (k : NumberType) (n : ℕ)
      → IsInteger k
      → n < bound (size_of k)
      → (v : ℤ) × IsHeld k v × IsWordOf k v n
  unfolding IsWordOf
  IsWordOf-IsHeld epics_int8 n i h = (signed 256 n, ground arith, (refl, ground arith, h))
  IsWordOf-IsHeld epics_uint8 n i h = (pos n, (omega arith, omega arith), (refl, omega arith, h))
  IsWordOf-IsHeld epics_int16 n i h = (signed 65536 n, ground arith, (refl, ground arith, h))
  IsWordOf-IsHeld epics_uint16 n i h = (pos n, (omega arith, omega arith), (refl, omega arith, h))
  IsWordOf-IsHeld epics_int32 n i h = (signed 4294967296 n, ground arith, (refl, ground arith, h))
  IsWordOf-IsHeld epics_uint32 n i h = (pos n, (omega arith, omega arith), (refl, omega arith, h))
  IsWordOf-IsHeld epics_float32 n i h = absurd i
  IsWordOf-IsHeld epics_float64 n i h = absurd i

  -- An integer that was stored is loaded.
  pub load_number-bytes_of_word :
      (k : NumberType) (v : ℤ) (rest : Bytes)
      → IsInteger k
      → IsHeld k v
      → load_number fl k (bytes_of_word (size_of k) (word_of_number fl k (whole v)) ++ rest)
        ≡ some (whole v)
  unfolding IsWordOf
  load_number-bytes_of_word k v rest i h =
      let (n, (e, back, small)) = IsHeld-IsWordOf k v i h in
      rw (back, load_word-bytes_of_word (size_of k) n rest small) (ap some e)

  -- A number at the front of a buffer, and its word in the other type.
  IsElement : NumberType → NumberType → Bytes → Number D → Bytes → Type ℓ
  IsElement k u s x word =
      (load_number fl k s ≡ some x)
      × (bytes_of_word (size_of u) (word_of_number fl u x) ≡ word)
      × (length word ≡ size_of u)
      × ((rest : Bytes) → load_number fl u (word ++ rest) ≡ some x)
      × (bytes_of_word (size_of k) (word_of_number fl k x) ≡ take (size_of k) s)

  IsElement-exists :
      (k u : NumberType) (s : Bytes)
      → IsInteger k
      → IsInteger u
      → IsCovered k u
      → AreBytes s
      → size_of k ≤ length s
      → (x : Number D) × (word : Bytes) × IsElement k u s x word
  unfolding IsElement IsWordOf
  IsElement-exists k u s i j c h room =
      let (n, loaded, small, same) = load_word-take (size_of k) s h room in
      let (v, held, (e, back, _)) = IsWordOf-IsHeld k n i small in
      let (m, (e', back', small')) = IsHeld-IsWordOf u v j (covered k u v c held) in
      (
        whole v,
        bytes_of_word (size_of u) m,
        (
          rw loaded (ap some e),
          ap (bytes_of_word (size_of u)) back',
          length-bytes_of_word (size_of u) m,
          λ rest. rw (load_word-bytes_of_word (size_of u) m rest small') (ap some e'),
          ap (bytes_of_word (size_of k)) back ∙ same,
        ),
      )

  abbrev pub IsCarried : NumberType → NumberType → Bytes → Bytes → Bytes → ℕ → Type 0
  IsCarried k u source target other n =
      (t : Bytes) × (convert_buffer fl k u source target n ≡ some t)
      × (length t ≡ length target)
      × (convert_buffer fl u k t other n ≡ some source)

  pub convert_buffer-IsCarried :
      (k u : NumberType) (source target other : Bytes) (n : ℕ)
      → IsInteger k
      → IsInteger u
      → IsCovered k u
      → AreBytes source
      → length source ≡ n * size_of k
      → n * size_of u ≤ length target
      → length other ≡ n * size_of k
      → IsCarried k u source target other n
  unfolding convert_buffer IsElement
  convert_buffer-IsCarried k u source target other zero i j c h e room e' =
      (target, refl, refl, ap some (both_empty other source (omega arith) (omega arith)))
  convert_buffer-IsCarried k u source target other (suc n) i j c h e room e' =
      let (x, word, (loaded, stored, sized, read, same)) =
        IsElement-exists k u source i j c h (omega arith) in
      let (t, written, kept, carried) =
        convert_buffer-IsCarried k u (drop (size_of k) source) (drop (size_of u) target)
          (drop (size_of k) other) n i j c (AreBytes-drop (size_of k) source h)
          (omega (arith, length-drop (size_of k) source))
          (omega (arith, length-drop (size_of u) target))
          (omega (arith, length-drop (size_of k) other)) in
      (
        word ++ t,
        rw
            (
              loaded,
              has_room (size_of u) (length target) (omega arith),
              stored,
              written,
              convert_buffer,
            )
            refl,
        omega (arith, length-append word t, length-drop (size_of u) target),
        rw
            (
              read t,
              has_room (size_of k) (length other) (omega arith),
              same,
              drop_word u word t sized,
              carried,
              convert_buffer,
            )
            (ap some (take-append-drop (size_of k) source)),
      )
