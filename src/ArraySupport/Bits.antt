-- ===== src/ArraySupport/Bits.antt =====
-- The bits that s7nodaveApp/src/ArraySupport.cc packs into the bytes of a buffer.
use native.Mathlib.Nat.{add-mul-div_left, add-mul-div_right, div-eq_of_lt, pow-succ'}
use s7nodave.ArraySupport.Elements.{change_byte, put_bit, bit_of}
use s7nodave.Prelude.{
  ℕ, zero, suc, ◌+◌, ◌-◌, ◌*◌, ◌/◌, ◌%◌, ◌^◌, ◌<◌, ◌≡◌, ◌≢◌, ◌⊎◌, refl, sym, ap, ◌∙◌, Option, some,
  some_inj, ◌>>=◌, [], ◌∷◌, Bytes, length, get_elem?, ◌==◌, if◌then◌else◌, inl, inr, arith,
  Bool-cases, subst,
}

same_tail : (b c : ℕ) (s : Bytes) (k : ℕ) → k ≢ 0 → get_elem? (b ∷ s) k ≡ get_elem? (c ∷ s) k
same_tail b c s zero h = absurd (h refl)
same_tail b c s (suc k) h = refl

same_but :
    (c : ℕ) (t s : Bytes) (i : ℕ)
    → ((k : ℕ) → k ≢ i → get_elem? t k ≡ get_elem? s k)
    → (k : ℕ) → k ≢ suc i
    → get_elem? (c ∷ t) k ≡ get_elem? (c ∷ s) k
same_but c t s i others zero h = refl
same_but c t s i others (suc k) h = others k (λ e. h (ap suc e))

-- What a changed byte leaves of a buffer.
change_byte_lem :
    (f : ℕ → ℕ) (i : ℕ) (s : Bytes) {b : ℕ}
    → get_elem? s i ≡ some b
    → (t : Bytes) × (change_byte f i s ≡ some t)
      × (length t ≡ length s)
      × (get_elem? t i ≡ some (f b))
      × ((k : ℕ) → k ≢ i → get_elem? t k ≡ get_elem? s k)
change_byte_lem f i [] e = cc
change_byte_lem f zero (c ∷ s) e =
    (f c ∷ s, refl, refl, ap (λ x. some (f x)) (some_inj e), same_tail (f c) c s)
change_byte_lem f (suc i) (c ∷ s) e =
    let (t, changed, kept, new, others) = change_byte_lem f i s e in
    (c ∷ t, rw changed refl, ap suc kept, new, same_but c t s i others)

power_pos : (m : ℕ) → 0 < 2 ^ m
power_pos zero = omega arith
power_pos (suc m) = subst (λ x. 0 < x) (sym (pow-succ' 2 m)) (omega (arith, power_pos m))

power_split : (j d : ℕ) → 2 ^ (j + suc d) ≡ 2 ^ j * (2 * 2 ^ d)
power_split zero d = ap (λ n. 2 ^ n) (omega arith) ∙ pow-succ' 2 d ∙ omega arith
power_split (suc j) d =
    ap (λ n. 2 ^ n) (omega arith)
    ∙ pow-succ' 2 (j + suc d)
    ∙ ap (λ x. 2 * x) (power_split j d)
    ∙ omega arith
    ∙ ap (λ x. x * (2 * 2 ^ d)) (sym (pow-succ' 2 j))

power_below : (j m : ℕ) → j < m → 2 ^ m ≡ 2 ^ j * (2 * 2 ^ (m - suc j))
power_below j m h =
    ap (λ n. 2 ^ n) {x = m} {y = j + suc (m - suc j)} (omega arith) ∙ power_split j (m - suc j)

-- A bit above those of a number.
high_bit : (c v m : ℕ) → c < 2 ^ m → v < 2 → (c + v * 2 ^ m) / 2 ^ m % 2 ≡ v
high_bit c v m h small =
    ap (λ x. x % 2) (add-mul-div_right c v (power_pos m) ∙ ap (λ x. x + v) (div-eq_of_lt h))
    ∙ omega arith

-- It leaves the bits below as they were.
low_bits : (c v m j : ℕ) → j < m → (c + v * 2 ^ m) / 2 ^ j % 2 ≡ c / 2 ^ j % 2
low_bits c v m j h =
    let q = 2 ^ (m - suc j) in
    ap (λ x. (c + v * x) / 2 ^ j % 2) (power_below j m h)
    ∙ ap (λ x. (c + x) / 2 ^ j % 2) (omega arith)
    ∙ ap (λ x. x % 2) (add-mul-div_left c (v * (2 * q)) (power_pos j))
    ∙ omega arith

-- A bit of a buffer, by its number.
abbrev pub bit_at : ℕ → Bytes → Option ℕ
bit_at j s = do byte ← get_elem? s (j / 8); some (bit_of j byte)

-- The bits of the last byte from this number on are zero, if it has bits below.
abbrev pub IsReady : ℕ → Bytes → Type 0
IsReady i s = (b : ℕ) → get_elem? s (i / 8) ≡ some b → (i % 8 ≡ 0) ⊎ (b < 2 ^ (i % 8))

-- The byte that a bit joins.
abbrev joined : ℕ → ℕ → ℕ → ℕ
joined i v b = if i % 8 == 0 then v else b + v * 2 ^ (i % 8)

-- What the byte is made of.
IsMade : ℕ → ℕ → ℕ → Type 0
IsMade i v b =
    (c : ℕ) × (c < 2 ^ (i % 8)) × (joined i v b ≡ c + v * 2 ^ (i % 8)) × ((i % 8 ≡ 0) ⊎ (c ≡ b))

joined_first : (i v b : ℕ) → i % 8 ≡ 0 → IsMade i v b
unfolding IsMade
joined_first i v b first = (0, power_pos (i % 8), rw first (omega arith), inl first)

joined_lem : (i v b : ℕ) → (i % 8 ≡ 0) ⊎ (b < 2 ^ (i % 8)) → IsMade i v b
unfolding IsMade
joined_lem i v b (inl first) = joined_first i v b first
joined_lem i v b (inr below) = elim (Bool-cases (i % 8 == 0)) [
  | inl first ↦ joined_first i v b (ground arith)
  | inr later ↦ (b, below, rw later refl, inr refl)
]

bit_at-byte :
    (j : ℕ) (s : Bytes) {b : ℕ} → get_elem? s (j / 8) ≡ some b → bit_at j s ≡ some (bit_of j b)
bit_at-byte j s e = rw e refl

-- The bits below, in the same byte or in another one.
bits_below :
    (i j v c : ℕ) (t s : Bytes) {b x : ℕ}
    → j < i
    → get_elem? s (i / 8) ≡ some b
    → get_elem? t (i / 8) ≡ some x
    → x ≡ c + v * 2 ^ (i % 8)
    → (i % 8 ≡ 0) ⊎ (c ≡ b)
    → ((k : ℕ) → k ≢ i / 8 → get_elem? t k ≡ get_elem? s k)
    → bit_at j t ≡ bit_at j s
bits_below i j v c t s {b} {x} below e new same old others = elim (Bool-cases (j / 8 == i / 8)) [
  | inl together ↦
      let alike : j / 8 ≡ i / 8 = ground arith in
      let before : c ≡ b = elim old [ inl first ↦ absurd (omega arith) | inr known ↦ known ] in
      bit_at-byte j t (ap (get_elem? t) alike ∙ new)
      ∙ ap some
          (ap (bit_of j) same ∙ low_bits c v (i % 8) (j % 8) (omega arith) ∙ ap (bit_of j) before)
      ∙ sym (bit_at-byte j s (ap (get_elem? s) alike ∙ e))
  | inr apart ↦ ap (λ o. o >>= (λ byte. some (bit_of j byte))) (others (j / 8) (ground arith))
]

joined_bound : (c v p : ℕ) → v < 2 → c < p → c + v * p < 2 * p
joined_bound c zero p small below = omega arith
joined_bound c (suc zero) p small below = omega arith
joined_bound c (suc (suc v)) p small below = absurd (omega arith)

IsReady-suc :
    (i v c : ℕ) (t : Bytes) {x : ℕ}
    → v < 2
    → c < 2 ^ (i % 8)
    → get_elem? t (i / 8) ≡ some x
    → x ≡ c + v * 2 ^ (i % 8)
    → IsReady (suc i) t
IsReady-suc i v c t {x} small below new same b' e' = elim (Bool-cases (i % 8 == 7)) [
  | inl last ↦ inl (ground arith)
  | inr inside ↦
      let alike : suc i / 8 ≡ i / 8 = ground arith in
      let b'_is : b' ≡ x = some_inj (sym e' ∙ ap (get_elem? t) alike ∙ new) in
      let next : suc i % 8 ≡ suc (i % 8) = ground arith in
      inr (rw (next, pow-succ' 2 (i % 8), b'_is, same) (joined_bound c v (2 ^ (i % 8)) small below))
]

-- A bit joins a buffer.
pub put_bit_lem :
    (i v : ℕ) (s : Bytes) {b : ℕ}
    → v < 2
    → get_elem? s (i / 8) ≡ some b
    → IsReady i s
    → (t : Bytes) × (put_bit i v s ≡ some t)
      × (length t ≡ length s)
      × (bit_at i t ≡ some v)
      × ((j : ℕ) → j < i → bit_at j t ≡ bit_at j s)
      × IsReady (suc i) t
unfolding IsMade
put_bit_lem i v s {b} small e ready =
    let (c, below, same, old) = joined_lem i v b (ready b e) in
    let (t, changed, kept, new, others) = change_byte_lem (joined i v) (i / 8) s e in
    (
      t,
      changed,
      kept,
      bit_at-byte i t new ∙ ap some (ap (bit_of i) same ∙ high_bit c v (i % 8) below small),
      λ j h. bits_below i j v c t s h e new same old others,
      IsReady-suc i v c t small below new same,
    )
