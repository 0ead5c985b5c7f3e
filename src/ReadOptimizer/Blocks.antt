-- ===== src/ReadOptimizer/Blocks.antt =====
-- One block of the second loop of `optimizeWithinArea` in
-- s7nodaveApp/src/PortDriverReadOptimizer.cc: the members that are collected behind the first item,
-- and the item that is made for them.
use s7nodave.Prelude.{
  ℕ, ◌+◌, ◌-◌, ◌≤◌, ◌≡◌, refl, true, Bool-cases, inl, inr, ◌⊎◌, List, [], ◌∷◌, ◌++◌, All,
  All-map_of, arith, Option, Bytes, ltb, leb, ap, min, max, le_refl,
}
use s7nodave.ReadItem.Contents.{
  item_weight, items_weight, item_weight-new_item, item_weight-IsAdded,
}
use s7nodave.ReadItem.Growth.{IsAdded, add_read_items-IsAdded}
use s7nodave.ReadItem.Ranges.{InArea, IsNested, IsAdded-IsNested}
use s7nodave.ReadItem.{
  Header, ReadItem, end_byte, is_internal, new_item, add_read_items, lowest_start, highest_end,
}
use s7nodave.ReadOptimizer.{Block, collect_block, close_block, join_member}
use s7nodave.ReadOptimizer.Absorption.{IsBehind}

module _ (max_payload_size : ℕ) where
  -- The members and the rest are the items, in order.
  pub collect_block_split :
      (start end : ℕ) (items : List ReadItem)
      → let b = collect_block max_payload_size start end items in b.members ++ b.rest ≡ items
  unfolding collect_block
  collect_block_split start end [] = refl
  collect_block_split start end (x ∷ items) =
      elim (Bool-cases (ltb max_payload_size (end_byte x.header - start + 4))) [
        | inl big ↦ rw (big, collect_block)
        | inr fits ↦ elim (Bool-cases (leb x.header.start_byte (end + 4))) [
          | inl near ↦
              rw (fits, collect_block)
                (rw near (ap (λ l. x ∷ l) (collect_block_split start (end_byte x.header) items)))
          | inr far ↦ rw (fits, collect_block) (rw far)
        ]
      ]

  -- A position that a block from this start may reach.
  abbrev pub InPayload : ℕ → ℕ → Type 0
  InPayload start e = e - start + 4 ≤ max_payload_size

  -- A block that is more than its first item ends within the payload.
  abbrev pub IsWithin : ℕ → ℕ → Block → Type 0
  IsWithin start end b =
      All (λ i. InPayload start (end_byte i.header)) b.members
      × ((b.end ≡ end) ⊎ InPayload start b.end)

  IsWithin-step :
      (start end : ℕ) (x : ReadItem) (b : Block)
      → InPayload start (end_byte x.header)
      → IsWithin start (end_byte x.header) b
      → IsWithin start end (join_member x b)
  IsWithin-step start end x b fits (ms, inl same) = ((fits, ms), inr (omega arith))
  IsWithin-step start end x b fits (ms, inr inside) = ((fits, ms), inr inside)

  pub collect_block-IsWithin :
      (start end : ℕ) (items : List ReadItem)
      → IsWithin start end (collect_block max_payload_size start end items)
  unfolding collect_block
  collect_block-IsWithin start end [] = (tt, inl refl)
  collect_block-IsWithin start end (x ∷ items) =
      elim (Bool-cases (ltb max_payload_size (end_byte x.header - start + 4))) [
        | inl big ↦ rw (big, collect_block) (tt, inl refl)
        | inr fits ↦ elim (Bool-cases (leb x.header.start_byte (end + 4))) [
          | inl near ↦
              rw (fits, collect_block)
                (rw near (
                  IsWithin-step start end x
                    (collect_block max_payload_size start (end_byte x.header) items) (ground arith)
                    (collect_block-IsWithin start (end_byte x.header) items)))
          | inr far ↦ rw (fits, collect_block) (rw far (tt, inl refl))
        ]
      ]

-- A joined request is of a payload's size at most.
abbrev pub Fits : ℕ → Header → Type 0
Fits max_payload_size h = is_internal h.owner ≡ true → h.read_bytes + 4 ≤ max_payload_size

-- Bounds of the range that a new item for several items has.
lowest_start-eq :
    (s : ℕ) (items : List ReadItem)
    → All (λ i. s ≤ i.header.start_byte) items
    → lowest_start s items ≡ s
lowest_start-eq s [] h = refl
lowest_start-eq s (i ∷ items) (le, h) =
    let same : min s i.header.start_byte ≡ s = omega arith in rw same (lowest_start-eq s items h)

highest_end-le :
    (e k : ℕ) (items : List ReadItem)
    → e ≤ k
    → All (λ i. end_byte i.header ≤ k) items
    → highest_end e items ≤ k
highest_end-le e k [] le h = le
highest_end-le e k (i ∷ items) le (x, h) =
    highest_end-le (max e (end_byte i.header)) k items (omega arith) h

module _ (malloc : ℕ → Option Bytes) (max_payload_size : ℕ) (first : ReadItem) where
  -- The new item for a block that ends there.
  abbrev pub block_item : ℕ → ReadItem
  block_item end =
      new_item malloc first.header.area first.header.area_number first.header.start_byte
        (end - first.header.start_byte)

  -- A closed block is the first item alone, one item that took in all, or all the items.
  pub close_block_cases :
      (P : List ReadItem → Type 0) (e : ℕ) (x : ReadItem) (members : List ReadItem)
      → ((r : ReadItem) → IsAdded (block_item e) (first ∷ x ∷ members) r → P (r ∷ []))
      → P (first ∷ x ∷ members)
      → P (close_block malloc max_payload_size first e (x ∷ members))
  unfolding close_block
  close_block_cases P e x members one all =
      elim (Bool-cases (add_read_items malloc (block_item e) (first ∷ x ∷ members)).1) [
        | inl added ↦
            rw added
              (one _ (add_read_items-IsAdded malloc (block_item e) (first ∷ x ∷ members) added))
        | inr refused ↦ rw refused all
      ]

  pub items_weight-close_block :
      (w : Header → ℕ) (e : ℕ) (members : List ReadItem)
      → items_weight w (close_block malloc max_payload_size first e members)
        ≡ item_weight w first + items_weight w members
  items_weight-close_block w e [] = unfold close_block in refl
  items_weight-close_block w e (x ∷ members) =
      close_block_cases (λ l. items_weight w l ≡ item_weight w first + items_weight w (x ∷ members))
        e x members
        (λ r a. omega (
          arith,
          item_weight-IsAdded w (block_item e) (first ∷ x ∷ members) r a,
          item_weight-new_item w malloc first.header.area first.header.area_number
              first.header.start_byte (e - first.header.start_byte),
        ))
        refl

  pub close_block-IsNested :
      (e : ℕ) (members : List ReadItem)
      → All (λ i. InArea first.header.area first.header.area_number i.header) members
      → IsNested first
      → All IsNested members
      → All IsNested (close_block malloc max_payload_size first e members)
  close_block-IsNested e [] same n ns = unfold close_block in (n, tt)
  close_block-IsNested e (x ∷ members) same n ns =
      close_block_cases (All IsNested) e x members
        (λ r a. (
          IsAdded-IsNested (block_item e) (first ∷ x ∷ members) r a
              (unfold new_item in ((refl, refl), same)) (unfold new_item in tt) (n, ns),
          tt,
        ))
        (n, ns)

  fits_block :
      (e : ℕ) (x : ReadItem) (members : List ReadItem) (r : ReadItem)
      → IsAdded (block_item e) (first ∷ x ∷ members) r
      → All (λ i. IsBehind first.header i.header) (x ∷ members)
      → All
          (λ i. InPayload max_payload_size first.header.start_byte (end_byte i.header))
          (x ∷ members)
      → (e ≡ end_byte first.header) ⊎ InPayload max_payload_size first.header.start_byte e
      → r.header.read_bytes + 4 ≤ max_payload_size
  unfolding new_item
  fits_block e x members r a behind inside reach =
      let s = first.header.start_byte in
      let k : ℕ = s + (max_payload_size - 4) in
      let low = lowest_start-eq s (first ∷ x ∷ members) (
        le_refl s,
        All-map_of _ (λ i. s ≤ i.header.start_byte) (λ i b. b.0) (x ∷ members) behind,
      ) in
      let high =
        highest_end-le (s + (e - s)) k (first ∷ x ∷ members) (omega (arith, behind.0, inside.0)) (
          omega (arith, behind.0, inside.0),
          All-map_of _ (λ i. end_byte i.header ≤ k) (λ i h. omega arith) (x ∷ members) inside,
        ) in
      omega (arith, a.header.length, low, high, inside.0)

  pub close_block-Fits :
      (e : ℕ) (members : List ReadItem)
      → All (λ i. IsBehind first.header i.header) members
      → All (λ i. InPayload max_payload_size first.header.start_byte (end_byte i.header)) members
      → (e ≡ end_byte first.header) ⊎ InPayload max_payload_size first.header.start_byte e
      → Fits max_payload_size first.header
      → All (λ i. Fits max_payload_size i.header) members
      → All
          (λ i. Fits max_payload_size i.header)
          (close_block malloc max_payload_size first e members)
  close_block-Fits e [] behind inside reach f fs = unfold close_block in (f, tt)
  close_block-Fits e (x ∷ members) behind inside reach f fs =
      close_block_cases (All (λ i. Fits max_payload_size i.header)) e x members
        (λ r a. ((λ _. fits_block e x members r a behind inside reach), tt)) (f, fs)
