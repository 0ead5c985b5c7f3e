-- ===== src/ReadOptimizer/Absorption.antt =====
-- The first loop of `optimizeWithinArea` in s7nodaveApp/src/PortDriverReadOptimizer.cc: an item that
-- another one includes becomes its child.
use s7nodave.Asyn.{PlcArea, area_eq}
use s7nodave.Prelude.{
  ℕ, ◌+◌, ◌≤◌, ◌≡◌, refl, true, false, Bool-cases, inl, inr, List, [], ◌∷◌, All, All-map_of, arith,
  Option, Bytes, ℤ, eqb_ℤ, leb, if◌then◌else◌, length, min, max, some, leb→le,
}
use s7nodave.ReadItem.Contents.{item_weight, items_weight, forest_weight-append_forest}
use s7nodave.ReadItem.Ranges.{Contains, InArea, IsNested, AreNested-append_forest}
use s7nodave.ReadItem.{
  Header, ReadItem, nil, cons, end_byte, append_forest, includes_no_area_check, add_read_item,
  resize, extend,
}
use s7nodave.ReadOptimizer.{Absorbed, absorb, pass_by}
use s7nodave.ReadOptimizer.Sorting.{AreSorted}

-- The outer item with the inner one behind its children.
abbrev pub with_child : ReadItem → ReadItem → ReadItem
with_child outer inner = record {
  header = outer.header;
  children = append_forest outer.children (cons inner.header inner.children nil);
}

area_eq-same : (x y a : PlcArea) → x ≡ a → y ≡ a → area_eq x y ≡ true
area_eq-same x y a ex ey = rw (ex, ey) (ground arith)

eqb_ℤ-same : (x y a : ℤ) → x ≡ a → y ≡ a → eqb_ℤ x y ≡ true
eqb_ℤ-same x y a ex ey = rw (ex, ey) (ground arith)

module _ (malloc : ℕ → Option Bytes) (area : PlcArea) (number : ℤ) where
  abbrev pub Here : ReadItem → Type 0
  Here i = InArea area number i.header

  resize_included :
      (outer inner : Header)
      → includes_no_area_check outer inner ≡ true
      → resize malloc outer
          (min outer.start_byte inner.start_byte)
          (max (end_byte outer) (end_byte inner))
        ≡ some outer
  unfolding resize includes_no_area_check
  resize_included outer inner e = ground arith

  -- An item takes in an included one without a new buffer, so it never refuses.
  add_included :
      (outer inner : ReadItem)
      → Here outer
      → Here inner
      → includes_no_area_check outer.header inner.header ≡ true
      → add_read_item malloc outer inner ≡ (with_child outer inner, true)
  unfolding add_read_item extend
  add_included outer inner (a, n) (b, m) e = rw (
    area_eq-same outer.header.area inner.header.area area a b,
    eqb_ℤ-same outer.header.area_number inner.header.area_number number n m,
    resize_included outer.header inner.header e,
  )

-- The runs of the inner loop in one area: the first item, the items behind it, the outcome.
pub data Absorbs : ReadItem → List ReadItem → Absorbed → Type 0 where
  done : {f : ReadItem} → Absorbs f [] (record { first = f; rest = []; keep = true })
  into :
      {f : ReadItem} (item : ReadItem) (items : List ReadItem)
      → includes_no_area_check item.header f.header ≡ true
      → Absorbs f
          (item ∷ items)
          (record { first = f; rest = with_child item f ∷ items; keep = false })
  takes :
      {f : ReadItem} (item : ReadItem) {items : List ReadItem} {a : Absorbed}
      → includes_no_area_check f.header item.header ≡ true
      → Absorbs (with_child f item) items a
      → Absorbs f (item ∷ items) a
  stops :
      {f : ReadItem} (item : ReadItem) (items : List ReadItem)
      → end_byte f.header ≤ item.header.start_byte
      → Absorbs f (item ∷ items) (record { first = f; rest = item ∷ items; keep = true })
  passes :
      {f : ReadItem} (item : ReadItem) {items : List ReadItem} {a : Absorbed}
      → includes_no_area_check f.header item.header ≡ false
      → Absorbs f items a
      → Absorbs f (item ∷ items) (pass_by item a)

module _ (malloc : ℕ → Option Bytes) (area : PlcArea) (number : ℤ) where
  pub absorb-Absorbs :
      (first : ReadItem) (items : List ReadItem)
      → InArea area number first.header
      → All (λ i. InArea area number i.header) items
      → Absorbs first items (absorb malloc first items)
  unfolding absorb
  absorb-Absorbs first [] f fs = done
  absorb-Absorbs first (item ∷ items) f (here, fs) =
      elim (Bool-cases (includes_no_area_check item.header first.header)) [
        | inl inside ↦
            rw (inside, absorb)
              (rw (add_included malloc area number item first here f inside)
                (into item items inside))
        | inr outside ↦ elim (Bool-cases (includes_no_area_check first.header item.header)) [
          | inl around ↦
              let taken = add_included malloc area number first item f here around in
              rw (outside, absorb)
                (rw (around, absorb)
                  (rw taken (
                    rw taken
                      (takes item around (absorb-Absorbs (with_child first item) items f fs)))))
          | inr apart ↦ elim (Bool-cases (leb (end_byte first.header) item.header.start_byte)) [
            | inl beyond ↦
                rw (outside, absorb)
                  (rw (apart, absorb) (rw beyond (stops item items (leb→le _ _ beyond))))
            | inr near ↦
                rw (outside, absorb)
                  (rw (apart, absorb)
                    (rw near (passes item apart (absorb-Absorbs first items f fs))))
          ]
        ]
      ]

-- What holds of a run of the inner loop.
module _ (w : Header → ℕ) where
  item_weight-with_child :
      (outer inner : ReadItem)
      → item_weight w (with_child outer inner) ≡ item_weight w outer + item_weight w inner
  item_weight-with_child outer inner =
      omega
        (arith, forest_weight-append_forest w outer.children (cons inner.header inner.children nil))

  abbrev pub kept_weight : Absorbed → ℕ
  kept_weight a = (if a.keep then item_weight w a.first else 0) + items_weight w a.rest

  pub Absorbs-kept_weight :
      {f : ReadItem} {items : List ReadItem} {a : Absorbed}
      → Absorbs f items a
      → kept_weight a ≡ item_weight w f + items_weight w items
  Absorbs-kept_weight done = refl
  Absorbs-kept_weight {f} (into item items e) = omega (arith, item_weight-with_child item f)
  Absorbs-kept_weight {f} (takes item e r) =
      omega (arith, item_weight-with_child f item, Absorbs-kept_weight r)
  Absorbs-kept_weight (stops item items e) = refl
  Absorbs-kept_weight (passes item {a = a} e r) = omega (arith, Absorbs-kept_weight r)

pub Absorbs-length :
    {f : ReadItem} {items : List ReadItem} {a : Absorbed}
    → Absorbs f items a
    → length a.rest ≤ length items
Absorbs-length done = omega arith
Absorbs-length (into item items e) = omega arith
Absorbs-length (takes item e r) = omega (arith, Absorbs-length r)
Absorbs-length (stops item items e) = omega arith
Absorbs-length (passes item e r) = omega (arith, Absorbs-length r)

-- The loop changes children, and no header.
pub Absorbs-first :
    {f : ReadItem} {items : List ReadItem} {a : Absorbed}
    → Absorbs f items a
    → a.first.header ≡ f.header
Absorbs-first done = refl
Absorbs-first (into item items e) = refl
Absorbs-first (takes item e r) = Absorbs-first r
Absorbs-first (stops item items e) = refl
Absorbs-first (passes item e r) = Absorbs-first r

module _ {ℓ} (P : Header → Type ℓ) where
  pub Absorbs-rest :
      {f : ReadItem} {items : List ReadItem} {a : Absorbed}
      → Absorbs f items a
      → All (λ i. P i.header) items
      → All (λ i. P i.header) a.rest
  Absorbs-rest done ps = tt
  Absorbs-rest (into item items e) ps = ps
  Absorbs-rest (takes item e r) (q, ps) = Absorbs-rest r ps
  Absorbs-rest (stops item items e) ps = ps
  Absorbs-rest (passes item e r) (q, ps) = (q, Absorbs-rest r ps)

pub Absorbs-AreSorted :
    {f : ReadItem} {items : List ReadItem} {a : Absorbed}
    → Absorbs f items a
    → AreSorted items
    → AreSorted a.rest
Absorbs-AreSorted done s = tt
Absorbs-AreSorted (into item items e) s = s
Absorbs-AreSorted (takes item e r) (_, s) = Absorbs-AreSorted r s
Absorbs-AreSorted (stops item items e) s = s
Absorbs-AreSorted (passes item e r) (h, s) =
    (Absorbs-rest (λ i. item.header.start_byte ≤ i.start_byte) r h, Absorbs-AreSorted r s)

-- Begins and ends no earlier.
abbrev pub IsBehind : Header → Header → Type 0
IsBehind x y = (x.start_byte ≤ y.start_byte) × (end_byte x ≤ end_byte y)

passed-IsBehind :
    (f f' item : Header)
    → f' ≡ f
    → f.start_byte ≤ item.start_byte
    → includes_no_area_check f item ≡ false
    → IsBehind f' item
unfolding includes_no_area_check
passed-IsBehind f f' item same lo e = rw same (ground arith)

-- A kept item begins and ends no later than the items left behind it.
pub Absorbs-IsBehind :
    {f : ReadItem} {items : List ReadItem} {a : Absorbed}
    → Absorbs f items a
    → All (λ i. f.header.start_byte ≤ i.header.start_byte) items
    → AreSorted items
    → a.keep ≡ true
    → All (λ i. IsBehind a.first.header i.header) a.rest
Absorbs-IsBehind done h s k = tt
Absorbs-IsBehind (into item items e) h s k = cc
Absorbs-IsBehind (takes item e r) (_, h) (_, s) k = Absorbs-IsBehind r h s k
Absorbs-IsBehind {f} (stops item items e) (lo, h) (hs, s) k = (
  omega arith,
  All-map_of (λ i. item.header.start_byte ≤ i.header.start_byte) (λ i. IsBehind f.header i.header)
      (λ i later. omega arith) items hs,
)
Absorbs-IsBehind {f} (passes item {a = a} e r) (lo, h) (_, s) k = (
  passed-IsBehind f.header a.first.header item.header (Absorbs-first r) lo e,
  Absorbs-IsBehind r h s k,
)

module _ (area : PlcArea) (number : ℤ) where
  includes-Contains :
      (outer inner : Header)
      → InArea area number outer
      → InArea area number inner
      → includes_no_area_check outer inner ≡ true
      → Contains outer inner
  unfolding includes_no_area_check
  includes-Contains outer inner (a, n) (b, m) e = record {
    same_area = area_eq-same outer.area inner.area area a b;
    same_number = eqb_ℤ-same outer.area_number inner.area_number number n m;
    begins = ground arith;
    ends = ground arith;
  }

  with_child-IsNested :
      (outer inner : ReadItem)
      → InArea area number outer.header
      → InArea area number inner.header
      → includes_no_area_check outer.header inner.header ≡ true
      → IsNested outer
      → IsNested inner
      → IsNested (with_child outer inner)
  with_child-IsNested outer inner o i e around inside =
      AreNested-append_forest outer.header outer.children (cons inner.header inner.children nil)
        around (includes-Contains outer.header inner.header o i e, inside, tt)

  pub Absorbs-IsNested :
      {f : ReadItem} {items : List ReadItem} {a : Absorbed}
      → Absorbs f items a
      → InArea area number f.header
      → All (λ i. InArea area number i.header) items
      → IsNested f
      → All IsNested items
      → IsNested a.first × All IsNested a.rest
  Absorbs-IsNested done fh fs n ns = (n, tt)
  Absorbs-IsNested {f} (into item items e) fh (ih, fs) n (m, ns) =
      (n, (with_child-IsNested item f ih fh e m n, ns))
  Absorbs-IsNested {f} (takes item e r) fh (ih, fs) n (m, ns) =
      Absorbs-IsNested r fh fs (with_child-IsNested f item fh ih e n m) ns
  Absorbs-IsNested (stops item items e) fh fs n ns = (n, ns)
  Absorbs-IsNested (passes item e r) fh (ih, fs) n (m, ns) =
      let (p, ps) = Absorbs-IsNested r fh fs n ns in (p, (m, ps))
