-- ===== src/ReadOptimizer/Rounds.antt =====
-- All rounds of the first loop of `optimizeWithinArea` in
-- s7nodaveApp/src/PortDriverReadOptimizer.cc, over the items of one area.
use s7nodave.Asyn.{PlcArea}
use s7nodave.Prelude.{
  ℕ, zero, suc, ◌≤◌, ◌≡◌, refl, Bool-cases, inl, inr, List, [], ◌∷◌, All, arith, Option, Bytes, ℤ,
  length,
}
use s7nodave.ReadItem.Contents.{items_weight}
use s7nodave.ReadItem.Ranges.{InArea, IsNested}
use s7nodave.ReadItem.{Header, ReadItem}
use s7nodave.ReadOptimizer.{absorb, absorb_all}
use s7nodave.ReadOptimizer.Absorption.{
  Absorbs, absorb-Absorbs, Absorbs-kept_weight, Absorbs-length, Absorbs-first, Absorbs-rest,
  Absorbs-AreSorted, IsBehind, Absorbs-IsBehind, Absorbs-IsNested,
}
use s7nodave.ReadOptimizer.Sorting.{AreSorted}

-- Each item begins and ends no earlier than the one before it.
abbrev pub IsStaircase : List ReadItem → Type 0
IsStaircase [] = Unit
IsStaircase (x ∷ items) = All (λ i. IsBehind x.header i.header) items × IsStaircase items

module _ (malloc : ℕ → Option Bytes) (area : PlcArea) (number : ℤ) where
  abbrev pub InPlace : List ReadItem → Type 0
  InPlace = All (λ i. InArea area number i.header)

  -- The outcome of the first round.
  round :
      (x : ReadItem) (items : List ReadItem)
      → InPlace (x ∷ items)
      → Absorbs x items (absorb malloc x items)
  round x items (here, rest) = absorb-Absorbs malloc area number x items here rest

  rest-InPlace :
      (x : ReadItem) (items : List ReadItem)
      → InPlace (x ∷ items)
      → InPlace (absorb malloc x items).rest
  rest-InPlace x items h = Absorbs-rest (InArea area number) (round x items h) h.1

  -- No request is lost or doubled.
  pub items_weight-absorb_all :
      (w : Header → ℕ) (fuel : ℕ) (items : List ReadItem)
      → InPlace items
      → items_weight w (absorb_all malloc fuel items) ≡ items_weight w items
  unfolding absorb_all
  items_weight-absorb_all w zero [] h = refl
  items_weight-absorb_all w zero (x ∷ items) h = refl
  items_weight-absorb_all w (suc fuel) [] h = refl
  items_weight-absorb_all w (suc fuel) (x ∷ items) h = ground (
    arith,
    Absorbs-kept_weight w (round x items h),
    items_weight-absorb_all w fuel (absorb malloc x items).rest (rest-InPlace x items h),
  )

  pub absorb_all-All :
      (P : Header → Type 0) (fuel : ℕ) (items : List ReadItem)
      → InPlace items
      → All (λ i. P i.header) items
      → All (λ i. P i.header) (absorb_all malloc fuel items)
  unfolding absorb_all
  absorb_all-All P zero [] h ps = tt
  absorb_all-All P zero (x ∷ items) h ps = ps
  absorb_all-All P (suc fuel) [] h ps = tt
  absorb_all-All P (suc fuel) (x ∷ items) h (p, ps) =
      let r = round x items h in
      let later =
        absorb_all-All P fuel (absorb malloc x items).rest (rest-InPlace x items h)
          (Absorbs-rest P r ps) in
      elim (Bool-cases (absorb malloc x items).keep) [
        | inl keep ↦ rw keep (rw (Absorbs-first r) p, later)
        | inr drop ↦ rw drop later
      ]

  pub absorb_all-IsNested :
      (fuel : ℕ) (items : List ReadItem)
      → InPlace items
      → All IsNested items
      → All IsNested (absorb_all malloc fuel items)
  unfolding absorb_all
  absorb_all-IsNested zero [] h ns = tt
  absorb_all-IsNested zero (x ∷ items) h ns = ns
  absorb_all-IsNested (suc fuel) [] h ns = tt
  absorb_all-IsNested (suc fuel) (x ∷ items) h (n, ns) =
      let (first, rest) = Absorbs-IsNested area number (round x items h) h.0 h.1 n ns in
      let later =
        absorb_all-IsNested fuel (absorb malloc x items).rest (rest-InPlace x items h) rest in
      elim (Bool-cases (absorb malloc x items).keep) [
        | inl keep ↦ rw keep (first, later)
        | inr drop ↦ rw drop later
      ]

  -- If the items are in one area and sorted, and the fuel is at least their number, then of any two
  -- items that are kept the earlier one begins no later and ends no later.
  pub absorb_all-IsStaircase :
      (fuel : ℕ) (items : List ReadItem)
      → length items ≤ fuel
      → InPlace items
      → AreSorted items
      → IsStaircase (absorb_all malloc fuel items)
  unfolding absorb_all
  absorb_all-IsStaircase fuel [] enough h s = tt
  absorb_all-IsStaircase zero (x ∷ items) enough h s = absurd (omega arith)
  absorb_all-IsStaircase (suc fuel) (x ∷ items) enough h (hs, s) =
      let r = round x items h in
      let later =
        absorb_all-IsStaircase fuel (absorb malloc x items).rest (omega (arith, Absorbs-length r))
          (rest-InPlace x items h) (Absorbs-AreSorted r s) in
      elim (Bool-cases (absorb malloc x items).keep) [
        | inl keep ↦ rw keep (
          absorb_all-All (IsBehind (absorb malloc x items).first.header) fuel
              (absorb malloc x items).rest (rest-InPlace x items h) (Absorbs-IsBehind r hs s keep),
          later,
        )
        | inr drop ↦ rw drop later
      ]

  -- The loop has ended when each item has had its round: on items of one area, any two fuels that
  -- are at least the number of items give the same.
  pub absorb_all_enough :
      (f g : ℕ) (items : List ReadItem)
      → length items ≤ f
      → length items ≤ g
      → InPlace items
      → absorb_all malloc f items ≡ absorb_all malloc g items
  unfolding absorb_all
  absorb_all_enough f g [] hf hg h = refl
  absorb_all_enough zero g (x ∷ items) hf hg h = absurd (omega arith)
  absorb_all_enough (suc f) zero (x ∷ items) hf hg h = absurd (omega arith)
  absorb_all_enough (suc f) (suc g) (x ∷ items) hf hg h =
      let short = Absorbs-length (round x items h) in
      rw (
        absorb_all_enough f g (absorb malloc x items).rest (omega (arith, short))
          (omega (arith, short)) (rest-InPlace x items h))
