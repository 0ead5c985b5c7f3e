-- ===== src/ReadItem/Contents.antt =====
-- Which of the caller's requests a read item holds (s7nodaveApp/src/PortDriverReadItem.cc). A weight
-- on headers adds up over the requests; two forests with the same sums for every weight hold the
-- same requests, as often.
use s7nodave.Prelude.{
  ℕ, ◌+◌, ◌≡◌, refl, true, Bool-cases, Option, inl, inr, List, [], ◌∷◌, ◌++◌, Bytes, arith, ℤ, ◌∙◌,
  sym,
}
use s7nodave.Asyn.{PlcArea}
use s7nodave.ReadItem.Growth.{IsResized, IsAdded}
use s7nodave.ReadItem.{
  is_internal, Header, Owner, internal, request, Forest, nil, cons, ReadItem, append_forest,
  forest_of, new_item,
}

module _ (w : Header → ℕ) where
  abbrev weight_by : Owner → Header → ℕ
  weight_by internal h = 0
  weight_by (request n) h = w h

  -- An internal item is no request.
  abbrev pub own_weight : Header → ℕ
  own_weight h = weight_by h.owner h

  abbrev pub forest_weight : Forest → ℕ
  forest_weight nil = 0
  forest_weight (cons h below rest) = own_weight h + forest_weight below + forest_weight rest

  abbrev pub item_weight : ReadItem → ℕ
  item_weight i = own_weight i.header + forest_weight i.children

  abbrev pub items_weight : List ReadItem → ℕ
  items_weight [] = 0
  items_weight (i ∷ items) = item_weight i + items_weight items

  weight_by-internal : (o : Owner) (h : Header) → is_internal o ≡ true → weight_by o h ≡ 0
  weight_by-internal internal h e = refl
  weight_by-internal (request n) h e = cc

  no_weight :
      (h h' : Header)
      → is_internal h.owner ≡ true
      → h'.owner ≡ h.owner
      → own_weight h' ≡ own_weight h
  no_weight h h' e same =
      weight_by-internal h'.owner h' (rw same e) ∙ sym (weight_by-internal h.owner h e)

  pub forest_weight-append_forest :
      (f g : Forest) → forest_weight (append_forest f g) ≡ forest_weight f + forest_weight g
  forest_weight-append_forest nil g = omega arith
  forest_weight-append_forest (cons h below rest) g =
      omega (arith, forest_weight-append_forest rest g)

  pub forest_weight-forest_of :
      (items : List ReadItem) → forest_weight (forest_of items) ≡ items_weight items
  forest_weight-forest_of [] = refl
  forest_weight-forest_of (i ∷ items) = omega (arith, forest_weight-forest_of items)

  pub items_weight-append :
      (xs ys : List ReadItem) → items_weight (xs ++ ys) ≡ items_weight xs + items_weight ys
  items_weight-append [] ys = omega arith
  items_weight-append (x ∷ xs) ys = omega (arith, items_weight-append xs ys)

  -- Only internal items are resized, and those have no weight.
  own_weight-resized :
      (h : Header) (s e : ℕ) (h' : Header) → IsResized h s e h' → own_weight h' ≡ own_weight h
  own_weight-resized h s e h' r = elim (Bool-cases (is_internal h.owner)) [
    | inl inside ↦ no_weight h h' inside r.owner
    | inr outside ↦ rw (r.kept outside)
  ]

  -- An item that takes in others holds its requests and theirs.
  pub item_weight-IsAdded :
      (this : ReadItem) (items : List ReadItem) (r : ReadItem)
      → IsAdded this items r
      → item_weight r ≡ item_weight this + items_weight items
  item_weight-IsAdded this items r a = rw a.children (
      omega (
        arith,
        own_weight-resized this.header _ _ r.header a.header,
        forest_weight-append_forest this.children (forest_of items),
        forest_weight-forest_of items,
      ))

pub item_weight-new_item :
    (w : Header → ℕ) (malloc : ℕ → Option Bytes) (area : PlcArea) (number : ℤ) (start length : ℕ)
    → item_weight w (new_item malloc area number start length) ≡ 0
unfolding new_item
item_weight-new_item w malloc area number start length = refl
