-- ===== src/ReadItem/Growth.antt =====
-- `addReadItem` and `addReadItems` of s7nodaveApp/src/PortDriverReadItem.cc, when they succeed: the
-- new range, and the items added behind the children.
use s7nodave.Asyn.{area_eq}
use s7nodave.Prelude.{
  ℕ, ◌-◌, ◌≡◌, refl, true, false, Bool-cases, Option, none, some, inl, inr, List, [], ◌∷◌, Bytes,
  arith, eqb_ℤ, min, max, subst, sym, ap,
}
use s7nodave.ReadItem.{
  Header, ReadItem, append_forest, forest_of, resize, add_read_item, add_read_items, extend,
  end_byte, lowest_start, highest_end, is_internal,
}

pub record IsResized (h : Header) (new_start new_end : ℕ) (h' : Header) : Type 0 where
  pub start : h'.start_byte ≡ new_start
  pub length : h'.read_bytes ≡ new_end - new_start
  pub area : h'.area ≡ h.area
  pub number : h'.area_number ≡ h.area_number
  pub owner : h'.owner ≡ h.owner
  pub kept : is_internal h.owner ≡ false → h' ≡ h
  pub unread : h'.bytes_read ≡ h.bytes_read

pub record IsAdded (this : ReadItem) (items : List ReadItem) (r : ReadItem) : Type 0 where
  pub header :
      IsResized this.header
        (lowest_start this.header.start_byte items)
        (highest_end (end_byte this.header) items)
        r.header
  pub children : r.children ≡ append_forest this.children (forest_of items)

module _ (malloc : ℕ → Option Bytes) where
  resize-IsResized :
      (h : Header) (s e : ℕ) {h' : Header} → resize malloc h s e ≡ some h' → IsResized h s e h'
  unfolding resize
  resize-IsResized h s e r = record {
    start = ground arith;
    length = ground arith;
    area = ground arith;
    number = ground arith;
    owner = ground arith;
    kept = λ x. ground arith;
    unread = ground arith;
  }

  extend-IsAdded :
      (this : ReadItem) (items : List ReadItem) (o : Option Header)
      → ((h : Header)
          → o ≡ some h
          → IsResized this.header
              (lowest_start this.header.start_byte items)
              (highest_end (end_byte this.header) items)
              h)
      → (extend this items o).1 ≡ true
      → IsAdded this items (extend this items o).0
  unfolding extend
  extend-IsAdded this items none resized e = cc
  extend-IsAdded this items (some h) resized e = record { header = resized h refl; children = refl }

  pub add_read_items-IsAdded :
      (this : ReadItem) (items : List ReadItem)
      → (add_read_items malloc this items).1 ≡ true
      → IsAdded this items (add_read_items malloc this items).0
  unfolding add_read_items
  add_read_items-IsAdded this items e =
      extend-IsAdded this items _ (λ h r. resize-IsResized this.header _ _ r) e

  add_read_item_extends :
      (this item : ReadItem)
      → (add_read_item malloc this item).1 ≡ true
      → (add_read_item malloc this item
          ≡ extend this (item ∷ []) (
              resize malloc this.header
                (min this.header.start_byte item.header.start_byte)
                (max (end_byte this.header) (end_byte item.header))))
        × (area_eq this.header.area item.header.area ≡ true)
        × (eqb_ℤ this.header.area_number item.header.area_number ≡ true)
  unfolding add_read_item
  add_read_item_extends this item e =
      elim (Bool-cases (area_eq this.header.area item.header.area)) [
        | inl area ↦ elim (Bool-cases (eqb_ℤ this.header.area_number item.header.area_number)) [
          | inl number ↦ (rw (area, number), area, number)
          | inr other ↦ cc (rw (area, other) at e)
        ]
        | inr other ↦ cc (rw other at e)
      ]

  pub add_read_item-IsAdded :
      (this item : ReadItem)
      → (add_read_item malloc this item).1 ≡ true
      → IsAdded this (item ∷ []) (add_read_item malloc this item).0
        × (area_eq this.header.area item.header.area ≡ true)
        × (eqb_ℤ this.header.area_number item.header.area_number ≡ true)
  add_read_item-IsAdded this item e =
      let r =
        resize malloc this.header (min this.header.start_byte item.header.start_byte)
          (max (end_byte this.header) (end_byte item.header)) in
      let (same, area, number) = add_read_item_extends this item e in
      (
        subst (IsAdded this (item ∷ [])) (sym (ap (λ q. q.0) same)) (
            extend-IsAdded this (item ∷ []) r (λ h g. resize-IsResized this.header _ _ g)
              (subst (λ q. q.1 ≡ true) same e)),
        area,
        number,
      )

  -- An item that refuses stays as it was.
  pub add_read_item_refused :
      (this item : ReadItem)
      → (add_read_item malloc this item).1 ≡ false
      → (add_read_item malloc this item).0 ≡ this
  unfolding add_read_item extend
  add_read_item_refused this item e = ground arith
