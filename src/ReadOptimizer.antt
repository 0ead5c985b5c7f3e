-- ===== src/ReadOptimizer.antt =====
-- s7nodaveApp/src/PortDriverReadOptimizer.cc: read requests of one area are joined, so that fewer
-- items are asked for.
pub mod Sorting
pub mod Absorption
pub mod Rounds
pub mod Blocks
pub mod Joining
pub mod Groups
pub mod Unread
mod Tests
use s7nodave.Asyn.{PlcArea, db, flags, inputs, outputs, timer, counter, area_eq, area_number_of}
use s7nodave.Prelude.{
  ℕ, zero, suc, ◌+◌, ◌-◌, Bool, true, false, ◌||◌, ◌&&◌, Option, none, some, ◌>>=◌, List, [], ◌∷◌,
  ◌++◌, Bytes, ltb, leb, ◌==◌, if◌then◌else◌, is_empty, length, ℤ, eqb_ℤ, ltb_ℤ,
}
use s7nodave.ReadItem.{
  Header, ReadItem, Request, of_request, end_byte, includes_no_area_check, compare_start_byte,
  add_read_item, add_read_items, new_item, dispatch_read_result_to_children,
}

-- `std::list::sort` is stable: an item goes in front of the first one that does not begin earlier.
unfoldable pub insert_item : ReadItem → List ReadItem → List ReadItem
insert_item item [] = item ∷ []
insert_item item (x ∷ items) =
    let rest = insert_item item items in
    if compare_start_byte x.header item.header then x ∷ rest else item ∷ x ∷ items

unfoldable pub sort_items : List ReadItem → List ReadItem
unfolding insert_item
sort_items [] = []
sort_items (item ∷ items) = insert_item item (sort_items items)

-- The first item of a round, the items left behind it, and whether it is kept.
pub record Absorbed : Type 0 where
  pub first : ReadItem
  pub rest : List ReadItem
  pub keep : Bool

-- The items of a block, where it ends, and the items left.
pub record Block : Type 0 where
  pub members : List ReadItem
  pub end : ℕ
  pub rest : List ReadItem

-- An item that the loop passes by stays in front of the rest.
abbrev pub pass_by : ReadItem → Absorbed → Absorbed
pass_by item a = record a { rest = item ∷ a.rest }

abbrev pub join_member : ReadItem → Block → Block
join_member item b = record b { members = item ∷ b.members }

abbrev pub is_byte_area : PlcArea → Bool
is_byte_area area =
    area_eq area inputs || (area_eq area outputs || (area_eq area db || area_eq area flags))

-- `std::map<std::tuple<s7nodavePlcArea, int>, ReadItemList>` in the order of its keys.
abbrev pub Group : Type 0
Group = (PlcArea × ℤ) × List ReadItem

abbrev pub key_eq : PlcArea × ℤ → PlcArea × ℤ → Bool
key_eq (a, n) (b, m) = area_eq a b && eqb_ℤ n m

abbrev pub key_lt : PlcArea × ℤ → PlcArea × ℤ → Bool
key_lt (a, n) (b, m) = ltb (area_number_of a) (area_number_of b) || (area_eq a b && ltb_ℤ n m)

unfoldable pub add_to_group : PlcArea × ℤ → ReadItem → List Group → List Group
add_to_group key item [] = (key, item ∷ []) ∷ []
add_to_group key item ((k, items) ∷ groups) =
    let later = add_to_group key item groups in
    if key_eq key k
    then (k, items ++ item ∷ []) ∷ groups
    else if key_lt key k
    then (key, item ∷ []) ∷ (k, items) ∷ groups
    else (k, items) ∷ later

-- The chain of requests, from the request of a number on.
unfoldable pub group_requests : ℕ → List Request → List Group → List Group
unfolding add_to_group of_request
group_requests n [] groups = groups
group_requests n (r ∷ chain) groups =
    group_requests (n + 1) chain (add_to_group (r.area, r.area_number) (of_request n r) groups)

module _ (max_payload_size : ℕ) where
  -- The members of the block that begins at a byte and reaches to an end.
  unfoldable pub collect_block : ℕ → ℕ → List ReadItem → Block
  collect_block start end [] = record { members = []; end = end; rest = [] }
  collect_block start end (item ∷ items) =
      let joined = join_member item (collect_block start (end_byte item.header) items) in
      if ltb max_payload_size (end_byte item.header - start + 4)
      then record { members = []; end = end; rest = item ∷ items }
      else if leb item.header.start_byte (end + 4)
      then joined
      else record { members = []; end = end; rest = item ∷ items }

module _ (malloc : ℕ → Option Bytes) where
  -- The inner loop over the items behind the first one.
  unfoldable pub absorb : ReadItem → List ReadItem → Absorbed
  absorb first [] = record { first = first; rest = []; keep = true }
  absorb first (item ∷ items) = elim (includes_no_area_check item.header first.header) [
    | true ↦
        let r = add_read_item malloc item first in
        record { first = first; rest = r.0 ∷ items; keep = if r.1 then false else true }
    | false ↦ elim (includes_no_area_check first.header item.header) [
      | true ↦
          let r = add_read_item malloc first item in
          elim r.1 [
            | true ↦ absorb r.0 items
            | false ↦ record { first = r.0; rest = item ∷ items; keep = true }
          ]
      | false ↦ elim (leb (end_byte first.header) item.header.start_byte) [
        | true ↦ record { first = first; rest = item ∷ items; keep = true }
        | false ↦ pass_by item (absorb first items)
      ]
    ]
  ]

  -- `while (!items.empty())`: each round takes the first item from the list.
  unfoldable pub absorb_all : ℕ → List ReadItem → List ReadItem
  unfolding absorb
  absorb_all fuel [] = []
  absorb_all zero items = items
  absorb_all (suc fuel) (first ∷ items) =
      let a = absorb first items in
      let later = absorb_all fuel a.rest in if a.keep then a.first ∷ later else later

  module _ (max_payload_size : ℕ) where
    -- What is kept of a block that ends there: its only item, one new item for all of them, or all
    -- of them if it refuses.
    unfoldable pub close_block : ReadItem → ℕ → List ReadItem → List ReadItem
    close_block first end [] = first ∷ []
    close_block first end (x ∷ members) =
        let new =
          new_item malloc first.header.area first.header.area_number first.header.start_byte
            (end - first.header.start_byte) in
        let r = add_read_items malloc new (first ∷ x ∷ members) in
        if r.1 then r.0 ∷ [] else first ∷ x ∷ members

    unfoldable pub join_blocks : ℕ → List ReadItem → List ReadItem
    unfolding collect_block close_block
    join_blocks fuel [] = []
    join_blocks zero items = items
    join_blocks (suc fuel) (first ∷ items) =
        let b =
          collect_block max_payload_size first.header.start_byte (end_byte first.header) items in
        let later = join_blocks fuel b.rest in close_block first b.end b.members ++ later

    -- The fuel of both loops is the number of items.
    unfoldable pub optimize_within_area : List ReadItem → List ReadItem
    unfolding sort_items absorb_all join_blocks
    optimize_within_area items =
        let kept = absorb_all (length items) (sort_items items) in join_blocks (length kept) kept

    unfoldable pub optimize_groups : List Group → List ReadItem
    unfolding optimize_within_area
    optimize_groups [] = []
    optimize_groups (((area, n), items) ∷ groups) =
        (if is_byte_area area then optimize_within_area items else items) ++ optimize_groups groups

    unfoldable pub create_optimized_list : List Request → List ReadItem
    unfolding group_requests optimize_groups
    create_optimized_list chain = optimize_groups (group_requests 0 chain [])

-- Each item of the list hands its result to its children.
unfoldable pub dispatch_results : List ReadItem → Option (List ReadItem)
unfolding dispatch_read_result_to_children
dispatch_results [] = some []
dispatch_results (item ∷ items) = do
  children ← dispatch_read_result_to_children item.header item.children
  rest ← dispatch_results items
  some (record item { children = children } ∷ rest)
