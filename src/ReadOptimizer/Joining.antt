-- ===== src/ReadOptimizer/Joining.antt =====
-- `optimizeWithinArea` of s7nodaveApp/src/PortDriverReadOptimizer.cc as a whole, over the items of
-- one area.
use s7nodave.Asyn.{PlcArea}
use s7nodave.Prelude.{
  ℕ, zero, suc, ◌≡◌, refl, ap, ◌∙◌, List, [], ◌∷◌, ◌++◌, All, All-append, arith, Option, Bytes, ℤ,
  length, le_refl,
}
use s7nodave.ReadItem.Contents.{items_weight, items_weight-append}
use s7nodave.ReadItem.Ranges.{InArea, IsNested}
use s7nodave.ReadItem.{Header, ReadItem, end_byte}
use s7nodave.ReadOptimizer.{
  Block, collect_block, close_block, join_blocks, absorb_all, sort_items, optimize_within_area,
}
use s7nodave.ReadOptimizer.Blocks.{
  collect_block_split, collect_block-IsWithin, items_weight-close_block, close_block-IsNested, Fits,
  close_block-Fits,
}
use s7nodave.ReadOptimizer.Absorption.{IsBehind}
use s7nodave.ReadOptimizer.Rounds.{
  IsStaircase, InPlace, items_weight-absorb_all, absorb_all-All, absorb_all-IsNested,
  absorb_all-IsStaircase,
}
use s7nodave.ReadOptimizer.Sorting.{
  sort_items-All, length-sort_items, sort_items-AreSorted, items_weight-sort_items,
}

pub All-parts :
    {A : Type 0} (P : A → Type 0) (xs ys : List A) → All P (xs ++ ys) → All P xs × All P ys
All-parts P [] ys h = (tt, h)
All-parts P (x ∷ xs) ys (p, h) = let (a, b) = All-parts P xs ys h in ((p, a), b)

IsStaircase-drop : (xs ys : List ReadItem) → IsStaircase (xs ++ ys) → IsStaircase ys
IsStaircase-drop [] ys h = h
IsStaircase-drop (x ∷ xs) ys (_, h) = IsStaircase-drop xs ys h

module _ (malloc : ℕ → Option Bytes) (max_payload_size : ℕ) where
  -- The block behind the first item of the list.
  abbrev pub block_of : ReadItem → List ReadItem → Block
  block_of first items =
      collect_block max_payload_size first.header.start_byte (end_byte first.header) items

  pub split_of :
      (first : ReadItem) (items : List ReadItem)
      → (block_of first items).members ++ (block_of first items).rest ≡ items
  split_of first items =
      collect_block_split max_payload_size first.header.start_byte (end_byte first.header) items

  pub items_weight-join_blocks :
      (w : Header → ℕ) (fuel : ℕ) (items : List ReadItem)
      → items_weight w (join_blocks malloc max_payload_size fuel items) ≡ items_weight w items
  unfolding join_blocks
  items_weight-join_blocks w zero [] = refl
  items_weight-join_blocks w zero (x ∷ items) = refl
  items_weight-join_blocks w (suc fuel) [] = refl
  items_weight-join_blocks w (suc fuel) (x ∷ items) =
      let b = block_of x items in
      omega (
        arith,
        items_weight-append w (close_block malloc max_payload_size x b.end b.members)
            (join_blocks malloc max_payload_size fuel b.rest),
        items_weight-close_block malloc max_payload_size x w b.end b.members,
        items_weight-join_blocks w fuel b.rest,
        items_weight-append w b.members b.rest,
        ap (items_weight w) (split_of x items),
      )

  join_blocks-IsNested :
      (area : PlcArea) (number : ℤ) (fuel : ℕ) (items : List ReadItem)
      → InPlace malloc area number items
      → All IsNested items
      → All IsNested (join_blocks malloc max_payload_size fuel items)
  unfolding join_blocks
  join_blocks-IsNested area number zero [] h ns = tt
  join_blocks-IsNested area number zero (x ∷ items) h ns = ns
  join_blocks-IsNested area number (suc fuel) [] h ns = tt
  join_blocks-IsNested area number (suc fuel) (x ∷ items) (here, h) (n, ns) =
      let b = block_of x items in
      let (hm, hr) =
        All-parts (λ i. InArea area number i.header) b.members b.rest (rw (split_of x items) h) in
      let (nm, nr) = All-parts IsNested b.members b.rest (rw (split_of x items) ns) in
      All-append IsNested _ _
        (close_block-IsNested malloc max_payload_size x b.end b.members (rw (here.0, here.1) hm) n
          nm)
        (join_blocks-IsNested area number fuel b.rest hr nr)

  join_blocks-Fits :
      (fuel : ℕ) (items : List ReadItem)
      → IsStaircase items
      → All (λ i. Fits max_payload_size i.header) items
      → All (λ i. Fits max_payload_size i.header) (join_blocks malloc max_payload_size fuel items)
  unfolding join_blocks
  join_blocks-Fits zero [] s f = tt
  join_blocks-Fits zero (x ∷ items) s f = f
  join_blocks-Fits (suc fuel) [] s f = tt
  join_blocks-Fits (suc fuel) (x ∷ items) (behind, s) (f, fs) =
      let b = block_of x items in
      let split = split_of x items in
      let (inside, reach) =
        collect_block-IsWithin max_payload_size x.header.start_byte (end_byte x.header) items in
      let (fm, fr) =
        All-parts (λ i. Fits max_payload_size i.header) b.members b.rest (rw split fs) in
      All-append (λ i. Fits max_payload_size i.header) _ _
        (close_block-Fits malloc max_payload_size x b.end b.members
          (All-parts (λ i. IsBehind x.header i.header) b.members b.rest (rw split behind)).0 inside
          reach f fm)
        (join_blocks-Fits fuel b.rest (IsStaircase-drop b.members b.rest (rw split s)) fr)

  module _ (area : PlcArea) (number : ℤ) (items : List ReadItem)
      (here : InPlace malloc area number items) where
    kept : List ReadItem
    kept = absorb_all malloc (length items) (sort_items items)

    sorted_here : InPlace malloc area number (sort_items items)
    sorted_here = sort_items-All (λ i. InArea area number i.header) items here

    -- Whatever weight the requests are given, its sum stays the same: each request of the list is in
    -- exactly one item of the optimised list, as often as in the list.
    pub items_weight-optimize_within_area :
        (w : Header → ℕ)
        → items_weight w (optimize_within_area malloc max_payload_size items) ≡ items_weight w items
    unfolding optimize_within_area kept
    items_weight-optimize_within_area w =
        items_weight-join_blocks w (length kept) kept
        ∙ items_weight-absorb_all malloc area number w (length items) (sort_items items) sorted_here
        ∙ items_weight-sort_items w items

    -- Every item lies in the range of the item that includes it.
    pub optimize_within_area-IsNested :
        All IsNested items → All IsNested (optimize_within_area malloc max_payload_size items)
    unfolding optimize_within_area kept
    optimize_within_area-IsNested ns =
        join_blocks-IsNested area number (length kept) kept
          (absorb_all-All malloc area number (InArea area number) (length items) (sort_items items)
            sorted_here sorted_here)
          (absorb_all-IsNested malloc area number (length items) (sort_items items) sorted_here
            (sort_items-All IsNested items ns))

    -- A joined request of the optimised list fits the payload.
    pub optimize_within_area-Fits :
        All (λ i. Fits max_payload_size i.header) items
        → All
            (λ i. Fits max_payload_size i.header)
            (optimize_within_area malloc max_payload_size items)
    unfolding optimize_within_area kept
    optimize_within_area-Fits fs =
        join_blocks-Fits (length kept) kept
          (absorb_all-IsStaircase malloc area number (length items) (sort_items items)
            (rw (length-sort_items items) (le_refl (length items))) sorted_here
            (sort_items-AreSorted items))
          (absorb_all-All malloc area number (Fits max_payload_size) (length items)
            (sort_items items) sorted_here
            (sort_items-All (λ i. Fits max_payload_size i.header) items fs))
