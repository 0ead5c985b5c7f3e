-- ===== src/ReadOptimizer/Sorting.antt =====
-- The sort at the start of `optimizeWithinArea` in s7nodaveApp/src/PortDriverReadOptimizer.cc.
use s7nodave.Prelude.{
  ℕ, suc, length, ◌+◌, ◌≤◌, ◌≡◌, refl, Bool-cases, inl, inr, List, [], ◌∷◌, All, All-map_of, arith,
}
use s7nodave.ReadItem.Contents.{item_weight, items_weight}
use s7nodave.ReadItem.{Header, ReadItem, compare_start_byte}
use s7nodave.ReadOptimizer.{insert_item, sort_items}

-- Later items do not begin earlier.
abbrev pub AreSorted : List ReadItem → Type 0
AreSorted [] = Unit
AreSorted (x ∷ items) = All (λ i. x.header.start_byte ≤ i.header.start_byte) items × AreSorted items

module _ {ℓ} (P : ReadItem → Type ℓ) where
  insert_item-All :
      (x : ReadItem) (items : List ReadItem) → P x → All P items → All P (insert_item x items)
  unfolding insert_item
  insert_item-All x [] p ps = (p, tt)
  insert_item-All x (y ∷ items) p (q, qs) =
      elim (Bool-cases (compare_start_byte y.header x.header)) [
        | inl later ↦ rw later (q, insert_item-All x items p qs)
        | inr here ↦ rw here (p, (q, qs))
      ]

  pub sort_items-All : (items : List ReadItem) → All P items → All P (sort_items items)
  unfolding sort_items
  sort_items-All [] ps = tt
  sort_items-All (x ∷ items) (p, ps) =
      insert_item-All x (sort_items items) p (sort_items-All items ps)

insert_item-AreSorted :
    (x : ReadItem) (items : List ReadItem) → AreSorted items → AreSorted (insert_item x items)
unfolding insert_item compare_start_byte
insert_item-AreSorted x [] s = (tt, tt)
insert_item-AreSorted x (y ∷ items) (ys, s) =
    elim (Bool-cases (compare_start_byte y.header x.header)) [
      | inl later ↦ rw later (
        insert_item-All (λ i. y.header.start_byte ≤ i.header.start_byte) x items (ground arith) ys,
        insert_item-AreSorted x items s,
      )
      | inr here ↦ rw here (
        (
          ground arith,
          All-map_of (λ i. y.header.start_byte ≤ i.header.start_byte)
              (λ i. x.header.start_byte ≤ i.header.start_byte) (λ i h. ground arith) items ys,
        ),
        (ys, s),
      )
    ]

pub sort_items-AreSorted : (items : List ReadItem) → AreSorted (sort_items items)
unfolding sort_items
sort_items-AreSorted [] = tt
sort_items-AreSorted (x ∷ items) =
    insert_item-AreSorted x (sort_items items) (sort_items-AreSorted items)

module _ (w : Header → ℕ) where
  items_weight-insert_item :
      (x : ReadItem) (items : List ReadItem)
      → items_weight w (insert_item x items) ≡ item_weight w x + items_weight w items
  unfolding insert_item
  items_weight-insert_item x [] = refl
  items_weight-insert_item x (y ∷ items) = ground (arith, items_weight-insert_item x items)

  pub items_weight-sort_items :
      (items : List ReadItem) → items_weight w (sort_items items) ≡ items_weight w items
  unfolding sort_items
  items_weight-sort_items [] = refl
  items_weight-sort_items (x ∷ items) =
      omega (arith, items_weight-insert_item x (sort_items items), items_weight-sort_items items)

length-insert_item :
    (x : ReadItem) (items : List ReadItem) → length (insert_item x items) ≡ suc (length items)
unfolding insert_item
length-insert_item x [] = refl
length-insert_item x (y ∷ items) = ground (arith, length-insert_item x items)

pub length-sort_items : (items : List ReadItem) → length (sort_items items) ≡ length items
unfolding sort_items
length-sort_items [] = refl
length-sort_items (x ∷ items) =
    omega (arith, length-insert_item x (sort_items items), length-sort_items items)
