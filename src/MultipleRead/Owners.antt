-- ===== src/MultipleRead/Owners.antt =====
-- Each request's item in the optimised list of `asynPlcReadMultipleItems` in
-- s7nodaveApp/src/PortDriver.cc has the range of the request that it belongs to.
use s7nodave.Asyn.{PlcArea, area_eq, db, flags, inputs, outputs, timer, counter}
use s7nodave.MultipleRead.Memory.{Range, range_of_header, range_of}
use s7nodave.Prelude.{
  ℕ, ◌+◌, ◌≡◌, refl, sym, ap, ◌∙◌, subst, Bool, true, ◌&&◌, Option, none, some, List, [], ◌∷◌, ◌++◌,
  Bytes, map, length, get_elem?, get_elem?-append_length, append_assoc, length-append, ◌==◌,
  if◌then◌else◌, ℤ, pos, negsuc, eqb_ℤ, arith, Bool-cases, Option-cases, inl, inr,
}
use s7nodave.ReadItem.Contents.{items_weight, forest_weight, own_weight, forest_weight-forest_of}
use s7nodave.ReadItem.{
  Header, Owner, internal, request, Forest, nil, cons, Request, of_request, forest_of,
}
use s7nodave.ReadOptimizer.Groups.{numbered, items_weight-create_optimized_list}
use s7nodave.ReadOptimizer.{create_optimized_list}

pub area_eq-same : (a b : PlcArea) → area_eq a b ≡ true → a ≡ b
area_eq-same db db h = refl
area_eq-same flags flags h = refl
area_eq-same inputs inputs h = refl
area_eq-same outputs outputs h = refl
area_eq-same timer timer h = refl
area_eq-same counter counter h = refl
area_eq-same a b h = cc

pub eqb_ℤ-same : (a b : ℤ) → eqb_ℤ a b ≡ true → a ≡ b
eqb_ℤ-same (pos m) (pos n) h = ap pos (ground arith)
eqb_ℤ-same (pos m) (negsuc n) h = absurd (ground arith)
eqb_ℤ-same (negsuc m) (pos n) h = absurd (ground arith)
eqb_ℤ-same (negsuc m) (negsuc n) h = ap negsuc (ground arith)

abbrev range_eq : Range → Range → Bool
range_eq p q =
    area_eq p.area q.area
    && (eqb_ℤ p.area_number q.area_number
        && (p.start_byte == q.start_byte && p.read_bytes == q.read_bytes))

range_eq_refl : (q : Range) → range_eq q q ≡ true
range_eq_refl q = ground arith

all_four :
    (a b c d : Bool)
    → (a && (b && (c && d))) ≡ true
    → (a ≡ true) × (b ≡ true) × (c ≡ true) × (d ≡ true)
all_four true true true true h = (refl, refl, refl, refl)
all_four a b c d h = cc

range-ext :
    (p q : Range)
    → p.area ≡ q.area
    → p.area_number ≡ q.area_number
    → p.start_byte ≡ q.start_byte
    → p.read_bytes ≡ q.read_bytes
    → p ≡ q
range-ext p q a b c d = rw (a, b, c, d) refl

range_eq-same : (p q : Range) → range_eq p q ≡ true → p ≡ q
range_eq-same p q h =
    let (a, b, c, d) =
      all_four (area_eq p.area q.area) (eqb_ℤ p.area_number q.area_number)
        (p.start_byte == q.start_byte) (p.read_bytes == q.read_bytes) h in
    range-ext p q (area_eq-same p.area q.area a) (eqb_ℤ-same p.area_number q.area_number b)
      (ground (arith, c)) (ground (arith, d))

-- The item belongs to no request, or to the one of its number, whose range it has.
abbrev pub IsOwnedBy : List Range → Owner → Range → Type 0
IsOwnedBy ranges internal q = Unit
IsOwnedBy ranges (request n) q = get_elem? ranges n ≡ some q

abbrev pub IsOwned : List Range → Header → Type 0
IsOwned ranges h = IsOwnedBy ranges h.owner (range_of_header h)

abbrev pub AllForest : (Header → Type 0) → Forest → Type 0
AllForest P nil = Unit
AllForest P (cons h below rest) = P h × AllForest P below × AllForest P rest

-- One for an item that is not owned so.
abbrev difference : Option Range → Range → ℕ
difference none q = 1
difference (some p) q = if range_eq p q then 0 else 1

abbrev strangeness_by : List Range → Owner → Range → ℕ
strangeness_by ranges internal q = 0
strangeness_by ranges (request n) q = difference (get_elem? ranges n) q

abbrev strangeness : List Range → Header → ℕ
strangeness ranges h = strangeness_by ranges h.owner (range_of_header h)

one_zero : ◌≡◌ {A = ℕ} 1 0 → ⊥
one_zero e = omega (arith, e)

not_strange :
    (ranges : List Range) (o : Owner) (q : Range)
    → strangeness_by ranges o q ≡ 0
    → IsOwnedBy ranges o q
not_strange ranges internal q e = tt
not_strange ranges (request n) q e = elim (Option-cases (get_elem? ranges n)) [
  | inl missing ↦ absurd (one_zero (rw missing at e))
  | inr (p, found) ↦ elim (Bool-cases (range_eq p q)) [
    | inl same ↦ found ∙ ap some (range_eq-same p q same)
    | inr other ↦ absurd (one_zero (rw (found, other) at e))
  ]
]

own_weight-strangeness :
    (ranges : List Range) (h : Header) (o : Owner)
    → h.owner ≡ o
    → own_weight (strangeness ranges) h ≡ strangeness ranges h
own_weight-strangeness ranges h internal e = rw e refl
own_weight-strangeness ranges h (request n) e = rw e refl

no_weight-IsOwned :
    (ranges : List Range) (h : Header) → own_weight (strangeness ranges) h ≡ 0 → IsOwned ranges h
no_weight-IsOwned ranges h e =
    not_strange ranges h.owner (range_of_header h)
      (sym (own_weight-strangeness ranges h h.owner refl) ∙ e)

forest_weight-IsOwned :
    (ranges : List Range) (f : Forest)
    → forest_weight (strangeness ranges) f ≡ 0
    → AllForest (IsOwned ranges) f
forest_weight-IsOwned ranges nil e = tt
forest_weight-IsOwned ranges (cons h below rest) e = (
  no_weight-IsOwned ranges h (omega (arith, e)),
  forest_weight-IsOwned ranges below (omega (arith, e)),
  forest_weight-IsOwned ranges rest (omega (arith, e)),
)

request_difference :
    (before later : List Range) (q : Range)
    → difference (get_elem? (before ++ q ∷ later) (length before)) q ≡ 0
request_difference before later q =
    rw (get_elem?-append_length before later q, range_eq_refl q) refl

-- The requests themselves are not strange.
numbered-strangeness :
    (before : List Range) (chain : List Request)
    → items_weight (strangeness (before ++ map range_of chain)) (numbered (length before) chain) ≡ 0
unfolding of_request
numbered-strangeness before [] = refl
numbered-strangeness before (r ∷ chain) =
    let q = range_of r in
    let later = map range_of chain in
    let rest : items_weight (strangeness (before ++ q ∷ later)) (numbered (length before + 1) chain)
        ≡ 0 =
      subst (λ l. items_weight (strangeness l) (numbered (length before + 1) chain) ≡ 0)
        (append_assoc before (q ∷ []) later)
        (subst
          (λ n. items_weight (strangeness ((before ++ q ∷ []) ++ later)) (numbered n chain) ≡ 0)
          (length-append before (q ∷ [])) (numbered-strangeness (before ++ q ∷ []) chain)) in
    omega (arith, request_difference before later q, rest)

-- The items of the optimised list and those included in them are owned as they should be.
pub create_optimized_list-IsOwned :
    (malloc : ℕ → Option Bytes) (max : ℕ) (chain : List Request)
    → AllForest (IsOwned (map range_of chain)) (forest_of (create_optimized_list malloc max chain))
create_optimized_list-IsOwned malloc max chain =
    let ranges = map range_of chain in
    let w = strangeness ranges in
    let items = create_optimized_list malloc max chain in
    forest_weight-IsOwned ranges (forest_of items) (
      forest_weight-forest_of w items
      ∙ items_weight-create_optimized_list malloc max w chain
      ∙ numbered-strangeness [] chain)
