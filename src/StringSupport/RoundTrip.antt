-- ===== src/StringSupport/RoundTrip.antt =====
-- Texts written and read again by s7nodaveApp/src/StringSupport.cc.
use s7nodave.Asyn.{PlcDataType, bool, int8, uint8, int16, uint16, int32, uint32, float}
use s7nodave.Prelude.{
  ℕ, zero, suc, ◌≤◌, ◌≡◌, ◌⊎◌, refl, ap, true, false, some, ◌>>=◌, >>=-eq-some, some_inj, [], ◌∷◌,
  ◌++◌, Bytes, ◌==◌, leb, length, length-append, drop, arith, Bool-cases, inl, inr, le→leb, sym,
  subst, ◌∙◌,
}
use s7nodave.StringSupport.{
  zeros, strncpy, end_at, copy_string, string_read_internal, write_characters,
  string_write_internal,
}

zeros-length : (n : ℕ) → length (zeros n) ≡ n
zeros-length zero = refl
zeros-length (suc n) = ap suc (zeros-length n)

end_at-zeros : (n k : ℕ) → end_at n (zeros k) ≡ zeros k
end_at-zeros n zero = refl
end_at-zeros zero (suc k) = refl
end_at-zeros (suc n) (suc k) = ap (λ l. 0 ∷ l) (end_at-zeros n k)

end_at-length : (n : ℕ) (s : Bytes) → length (end_at n s) ≡ length s
end_at-length n [] = refl
end_at-length zero (c ∷ s) = refl
end_at-length (suc n) (c ∷ s) = ap suc (end_at-length n s)

end_at_twice : (n : ℕ) (s : Bytes) → end_at n (end_at n s) ≡ end_at n s
end_at_twice n [] = refl
end_at_twice zero (c ∷ s) = refl
end_at_twice (suc n) (c ∷ s) = ap (λ l. c ∷ l) (end_at_twice n s)

strncpy-length : (n : ℕ) (s : Bytes) {r : Bytes} → strncpy n s ≡ some r → length r ≡ n
unfolding strncpy
strncpy-length zero s e = subst (λ x. length x ≡ 0) (some_inj e) refl
strncpy-length (suc n) [] e = cc
strncpy-length (suc n) (c ∷ s) e = elim (Bool-cases (c == 0)) [
  | inl ended ↦
      subst (λ x. length x ≡ suc n) (some_inj (rw (ended, strncpy) at e)) (ap suc (zeros-length n))
  | inr more ↦
      let (r, k, l) = >>=-eq-some (strncpy n s) (λ r. some (c ∷ r)) (rw (more, strncpy) at e) in
      subst (λ x. length x ≡ suc n) (some_inj l) (ap suc (strncpy-length n s k))
]

-- A text that was copied and ended is copied as it is.
strncpy-end_at :
    (n : ℕ) (s rest : Bytes) {r : Bytes}
    → strncpy (suc n) s ≡ some r
    → strncpy (suc n) (end_at n r ++ rest) ≡ some (end_at n r)
unfolding strncpy
strncpy-end_at n [] rest e = cc
strncpy-end_at zero (c ∷ s) rest {r = []} e = absurd (omega (arith, strncpy-length 1 (c ∷ s) e))
strncpy-end_at zero (c ∷ s) rest {r = d ∷ []} e = refl
strncpy-end_at zero (c ∷ s) rest {r = d ∷ d' ∷ r} e =
    absurd (omega (arith, strncpy-length 1 (c ∷ s) e))
strncpy-end_at (suc n) (c ∷ s) rest {r = r} e = elim (Bool-cases (c == 0)) [
  | inl ended ↦
      subst (λ x. strncpy (suc (suc n)) (end_at (suc n) x ++ rest) ≡ some (end_at (suc n) x))
        (some_inj (rw (ended, strncpy) at e))
        (ap (λ l. some (0 ∷ l)) (sym (end_at-zeros n (suc n))))
  | inr more ↦
      let (q, k, l) =
        >>=-eq-some (strncpy (suc n) s) (λ r. some (c ∷ r)) (rw (more, strncpy) at e) in
      subst (λ x. strncpy (suc (suc n)) (end_at (suc n) x ++ rest) ≡ some (end_at (suc n) x))
        (some_inj l)
        (rw (more, strncpy) (ap (λ o. o >>= (λ r. some (c ∷ r))) (strncpy-end_at n s rest k)))
]

-- The text of `n + 1` bytes is that of the value up to its end, filled up with zeros, or its first `n` bytes and
-- a zero.
abbrev pub IsText : ℕ → Bytes → Bytes → Type 0
IsText zero val copy = copy ≡ 0 ∷ []
IsText (suc n) [] copy = ⊥
IsText (suc n) (c ∷ val) copy =
    ((c ≡ 0) × (copy ≡ zeros (suc (suc n))))
    ⊎ ((rest : Bytes) × (¬ c ≡ 0) × (copy ≡ c ∷ rest) × IsText n val rest)

not_zero : (c : ℕ) → (c == 0) ≡ false → ¬ c ≡ 0
not_zero c h e = ground arith

is_zero : (c : ℕ) → (c == 0) ≡ true → c ≡ 0
is_zero c h = ground arith

end_at-IsText :
    (n : ℕ) (s : Bytes) {r : Bytes} → strncpy (suc n) s ≡ some r → IsText n s (end_at n r)
unfolding strncpy
end_at-IsText n [] e = cc
end_at-IsText zero (c ∷ s) {r = []} e = absurd (omega (arith, strncpy-length 1 (c ∷ s) e))
end_at-IsText zero (c ∷ s) {r = d ∷ []} e = refl
end_at-IsText zero (c ∷ s) {r = d ∷ d' ∷ r} e = absurd (omega (arith, strncpy-length 1 (c ∷ s) e))
end_at-IsText (suc n) (c ∷ s) {r = r} e = elim (Bool-cases (c == 0)) [
  | inl ended ↦
      subst (λ x. IsText (suc n) (c ∷ s) (end_at (suc n) x)) (some_inj (rw (ended, strncpy) at e))
        (inl (is_zero c ended, ap (λ l. 0 ∷ l) (end_at-zeros n (suc n))))
  | inr more ↦
      let (q, k, l) =
        >>=-eq-some (strncpy (suc n) s) (λ r. some (c ∷ r)) (rw (more, strncpy) at e) in
      subst (λ x. IsText (suc n) (c ∷ s) (end_at (suc n) x)) (some_inj l)
        (inr (end_at n q, not_zero c more, refl, end_at-IsText n s k))
]

copy_string-IsText : (val : Bytes) {copy : Bytes} → copy_string val ≡ some copy → IsText 39 val copy
unfolding copy_string
copy_string-IsText val e =
    let (r, k, l) = >>=-eq-some (strncpy 40 val) (λ r. some (end_at 39 r)) e in
    subst (λ copy. IsText 39 val copy) (some_inj l) (end_at-IsText 39 val k)

copy_string-again :
    (val rest : Bytes) {copy : Bytes}
    → copy_string val ≡ some copy
    → (copy_string (copy ++ rest) ≡ some copy) × (length copy ≡ 40)
unfolding copy_string
copy_string-again val rest e =
    let (r, k, l) = >>=-eq-some (strncpy 40 val) (λ r. some (end_at 39 r)) e in
    subst (λ copy. (copy_string (copy ++ rest) ≡ some copy) × (length copy ≡ 40)) (some_inj l)
      (
        ap (λ o. o >>= (λ r. some (end_at 39 r))) (strncpy-end_at 39 val rest k)
            ∙ ap some (end_at_twice 39 r),
        end_at-length 39 r ∙ strncpy-length 40 val k,
      )

-- The types of characters.
abbrev pub IsCharacter : PlcDataType → Type 0
IsCharacter int8 = Unit
IsCharacter uint8 = Unit
IsCharacter _ = ⊥

has_room : (copy rest : Bytes) → length copy ≡ 40 → leb 40 (length (copy ++ rest)) ≡ true
has_room copy rest e = le→leb 40 (length (copy ++ rest)) (omega (arith, length-append copy rest, e))

-- If the type is one of characters, the buffer has 40 bytes and the text of the record can be copied, then
-- the first 40 bytes of the buffer become this copy, without an alarm, and the same copy is read again. The
-- copy is the text up to its end, filled up with zeros, or the first 39 bytes of a longer text and a zero.
pub string_write_internal-string_read_internal :
    (old val buffer copy : Bytes) (t : PlcDataType)
    → IsCharacter t
    → 40 ≤ length buffer
    → copy_string val ≡ some copy
    → IsText 39 val copy
      × (string_write_internal val buffer t ≡ some (copy ++ drop 40 buffer, false))
      × (string_read_internal old (copy ++ drop 40 buffer) t ≡ some (copy, false))
unfolding string_write_internal string_read_internal write_characters
string_write_internal-string_read_internal old val buffer copy int8 c room e =
    let (again, size) = copy_string-again val (drop 40 buffer) e in
    (
      copy_string-IsText val e,
      rw (le→leb 40 (length buffer) room, e) refl,
      rw (has_room copy (drop 40 buffer) size, again) refl,
    )
string_write_internal-string_read_internal old val buffer copy uint8 c room e =
    let (again, size) = copy_string-again val (drop 40 buffer) e in
    (
      copy_string-IsText val e,
      rw (le→leb 40 (length buffer) room, e) refl,
      rw (has_room copy (drop 40 buffer) size, again) refl,
    )
string_write_internal-string_read_internal old val buffer copy bool c room e = absurd c
string_write_internal-string_read_internal old val buffer copy int16 c room e = absurd c
string_write_internal-string_read_internal old val buffer copy uint16 c room e = absurd c
string_write_internal-string_read_internal old val buffer copy int32 c room e = absurd c
string_write_internal-string_read_internal old val buffer copy uint32 c room e = absurd c
string_write_internal-string_read_internal old val buffer copy float c room e = absurd c
