-- ===== src/ReadOptimizer/Tests.antt =====
-- Requests that are included, joined and kept apart, and the theorems at these requests.
use s7nodave.Asyn.{db, success}
use s7nodave.Prelude.{ℕ, ◌≡◌, refl, some, Option, List, [], ◌∷◌, pos, Bytes, arith, All, map}
use s7nodave.ReadItem.Contents.{items_weight}
use s7nodave.ReadItem.Ranges.{IsNested}
use s7nodave.ReadItem.{
  ReadItem, Request, of_request, add_read_item, add_read_items, extend, new_item, resize,
  includes_no_area_check, compare_start_byte,
}
use s7nodave.ReadOptimizer.Blocks.{Fits}
use s7nodave.ReadOptimizer.Groups.{
  numbered, items_weight-create_optimized_list, create_optimized_list-IsNested,
  create_optimized_list-Fits,
}
use s7nodave.ReadOptimizer.Rounds.{absorb_all-IsStaircase, IsStaircase}
use s7nodave.ReadOptimizer.{create_optimized_list, absorb_all}

abbrev ask : ℕ → ℕ → Request
ask start count = record {
  area = db;
  area_number = pos 1;
  start_byte = start;
  read_bytes = count;
  buffer = some [];
  bytes_read = 0;
  status = success;
}

-- The allocator of the tests gives an empty buffer of any size.
abbrev malloc : ℕ → Option Bytes
malloc n = some []

-- Four bytes at 0, two of them again, four bytes at 6, and four at 100.
abbrev chain : List Request
chain = ask 6 4 ∷ ask 0 4 ∷ ask 100 4 ∷ ask 2 2 ∷ []

abbrev ranges : List ReadItem → List (ℕ × ℕ)
ranges = map (λ i. (i.header.start_byte, i.header.read_bytes))

joined : ranges (create_optimized_list malloc 200 chain) ≡ (0, 10) ∷ (100, 4) ∷ []
unfolding create_optimized_list add_read_item add_read_items extend new_item resize
    includes_no_area_check compare_start_byte
joined = refl

-- With a small payload nothing is joined, and the included request is still absorbed.
not_joined : ranges (create_optimized_list malloc 10 chain) ≡ (0, 4) ∷ (6, 4) ∷ (100, 4) ∷ []
unfolding create_optimized_list add_read_item add_read_items extend new_item resize
    includes_no_area_check compare_start_byte
not_joined = refl

items_weight-create_optimized_list_example :
    items_weight (λ h. h.read_bytes) (create_optimized_list malloc 200 chain)
    ≡ items_weight (λ h. h.read_bytes) (numbered 0 chain)
items_weight-create_optimized_list_example =
    items_weight-create_optimized_list malloc 200 (λ h. h.read_bytes) chain

create_optimized_list-IsNested_example : All IsNested (create_optimized_list malloc 200 chain)
create_optimized_list-IsNested_example = create_optimized_list-IsNested malloc 200 chain

create_optimized_list-Fits_example :
    All (λ i. Fits 200 i.header) (create_optimized_list malloc 200 chain)
create_optimized_list-Fits_example = create_optimized_list-Fits malloc 200 chain

abbrev two_items : List ReadItem
two_items = of_request 0 (ask 0 4) ∷ of_request 1 (ask 2 2) ∷ []

absorb_all-IsStaircase_example : IsStaircase (absorb_all malloc 2 two_items)
unfolding of_request
absorb_all-IsStaircase_example =
    absorb_all-IsStaircase malloc db (pos 1) 2 two_items (omega arith)
      ((refl, refl), ((refl, refl), tt)) (omega arith)
