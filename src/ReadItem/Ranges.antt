-- ===== src/ReadItem/Ranges.antt =====
-- The ranges of the items that a read item includes (s7nodaveApp/src/PortDriverReadItem.cc): each
-- lies in the range of the item around it, in the same area.
use s7nodave.Asyn.{PlcArea, area_eq}
use s7nodave.Prelude.{ℕ, ◌≤◌, ◌≡◌, true, List, [], ◌∷◌, arith, All, eqb_ℤ, ℤ, min, max}
use s7nodave.ReadItem.Growth.{IsAdded}
use s7nodave.ReadItem.{
  Header, Forest, nil, cons, ReadItem, append_forest, forest_of, end_byte, lowest_start,
  highest_end,
}

pub record Contains (outer inner : Header) : Type 0 where
  pub same_area : area_eq outer.area inner.area ≡ true
  pub same_number : eqb_ℤ outer.area_number inner.area_number ≡ true
  pub begins : outer.start_byte ≤ inner.start_byte
  pub ends : end_byte inner ≤ end_byte outer

abbrev pub AreNested : Header → Forest → Type 0
AreNested outer nil = Unit
AreNested outer (cons h below rest) = Contains outer h × AreNested h below × AreNested outer rest

abbrev pub IsNested : ReadItem → Type 0
IsNested i = AreNested i.header i.children

-- The same area and number.
abbrev pub InArea : PlcArea → ℤ → Header → Type 0
InArea area number h = (h.area ≡ area) × (h.area_number ≡ number)

pub AreNested-append_forest :
    (outer : Header) (f g : Forest)
    → AreNested outer f
    → AreNested outer g
    → AreNested outer (append_forest f g)
AreNested-append_forest outer nil g hf hg = hg
AreNested-append_forest outer (cons h below rest) g (c, b, r) hg =
    (c, b, AreNested-append_forest outer rest g r hg)

AreNested-grow :
    (h h' : Header) (f : Forest)
    → h'.area ≡ h.area
    → h'.area_number ≡ h.area_number
    → h'.start_byte ≤ h.start_byte
    → end_byte h ≤ end_byte h'
    → AreNested h f
    → AreNested h' f
AreNested-grow h h' nil a n lo hi x = tt
AreNested-grow h h' (cons c below rest) a n lo hi (x, b, r) = (
  record {
    same_area = rw a x.same_area;
    same_number = rw n x.same_number;
    begins = omega (arith, x.begins);
    ends = omega (arith, x.ends);
  },
  b,
  AreNested-grow h h' rest a n lo hi r,
)

lowest_start-le : (s : ℕ) (items : List ReadItem) → lowest_start s items ≤ s
lowest_start-le s [] = omega arith
lowest_start-le s (i ∷ items) = omega (arith, lowest_start-le (min s i.header.start_byte) items)

le-highest_end : (e : ℕ) (items : List ReadItem) → e ≤ highest_end e items
le-highest_end e [] = omega arith
le-highest_end e (i ∷ items) = omega (arith, le-highest_end (max e (end_byte i.header)) items)

eqb_ℤ-refl : (a : ℤ) → eqb_ℤ a a ≡ true
eqb_ℤ-refl a = ground arith

area_eq_refl : (a : PlcArea) → area_eq a a ≡ true
area_eq_refl a = ground arith

-- Items of one area lie in every range that spans them.
forest_of-AreNested :
    (outer : Header) (items : List ReadItem)
    → All (λ i. InArea outer.area outer.area_number i.header) items
    → All IsNested items
    → (s e : ℕ) → outer.start_byte ≤ lowest_start s items
    → highest_end e items ≤ end_byte outer
    → AreNested outer (forest_of items)
forest_of-AreNested outer [] same nested s e lo hi = tt
forest_of-AreNested outer (i ∷ items) ((a, n), same) (here, nested) s e lo hi = (
  record {
    same_area = rw a (area_eq_refl outer.area);
    same_number = rw n (eqb_ℤ-refl outer.area_number);
    begins = omega (arith, lowest_start-le (min s i.header.start_byte) items);
    ends = omega (arith, le-highest_end (max e (end_byte i.header)) items);
  },
  here,
  forest_of-AreNested outer items same nested (min s i.header.start_byte)
      (max e (end_byte i.header)) lo hi,
)

-- Taking in items of the same area keeps the nesting.
pub IsAdded-IsNested :
    (this : ReadItem) (items : List ReadItem) (r : ReadItem)
    → IsAdded this items r
    → All (λ i. InArea this.header.area this.header.area_number i.header) items
    → IsNested this
    → All IsNested items
    → IsNested r
IsAdded-IsNested this items r a same nested inner =
    let lo = lowest_start-le this.header.start_byte items in
    let hi = le-highest_end (end_byte this.header) items in
    let spans : (r.header.start_byte ≤ lowest_start this.header.start_byte items)
        × (highest_end (end_byte this.header) items ≤ end_byte r.header) =
      (omega (arith, a.header.start), omega (arith, a.header.start, a.header.length)) in
    rw a.children (
      AreNested-append_forest r.header this.children (forest_of items)
        (AreNested-grow this.header r.header this.children a.header.area a.header.number
          (omega (arith, lo, spans.0)) (omega (arith, hi, spans.1)) nested)
        (forest_of-AreNested r.header items (rw (a.header.area, a.header.number) same) inner
          this.header.start_byte (end_byte this.header) spans.0 spans.1))
