-- ===== src/ReadOptimizer/Unread.antt =====
-- The items that s7nodaveApp/src/PortDriverReadOptimizer.cc joins are unread, if the requests are.
use s7nodave.Asyn.{PlcArea}
use s7nodave.Prelude.{
  ℕ, zero, suc, ◌+◌, ◌≡◌, refl, ◌∙◌, List, [], ◌∷◌, All, All-append, Option, Bytes, ℤ, length,
}
use s7nodave.ReadItem.Ranges.{InArea}
use s7nodave.ReadItem.{Header, ReadItem, Request, of_request, new_item}
use s7nodave.ReadOptimizer.Blocks.{close_block_cases}
use s7nodave.ReadOptimizer.Groups.{numbered, group_requests-IsGroup, optimize_groups-All}
use s7nodave.ReadOptimizer.Joining.{All-parts, block_of, split_of}
use s7nodave.ReadOptimizer.Rounds.{absorb_all-All}
use s7nodave.ReadOptimizer.Sorting.{sort_items-All}
use s7nodave.ReadOptimizer.{
  close_block, join_blocks, sort_items, absorb_all, optimize_within_area, group_requests,
  create_optimized_list,
}

abbrev pub IsUnread : Header → Type 0
IsUnread h = h.bytes_read ≡ 0

abbrev AreUnread : List ReadItem → Type 0
AreUnread = All (λ i. IsUnread i.header)

module _ (malloc : ℕ → Option Bytes) (max_payload_size : ℕ) where
  close_block-AreUnread :
      (first : ReadItem) (e : ℕ) (members : List ReadItem)
      → IsUnread first.header
      → AreUnread members
      → AreUnread (close_block malloc max_payload_size first e members)
  close_block-AreUnread first e [] u us = unfold close_block in (u, tt)
  close_block-AreUnread first e (x ∷ members) u us =
      close_block_cases malloc max_payload_size first AreUnread e x members
        (λ r a. (a.header.unread ∙ (unfold new_item in refl), tt)) (u, us)

  join_blocks-AreUnread :
      (fuel : ℕ) (items : List ReadItem)
      → AreUnread items
      → AreUnread (join_blocks malloc max_payload_size fuel items)
  unfolding join_blocks
  join_blocks-AreUnread zero [] us = tt
  join_blocks-AreUnread zero (x ∷ items) us = us
  join_blocks-AreUnread (suc fuel) [] us = tt
  join_blocks-AreUnread (suc fuel) (x ∷ items) (u, us) =
      let b = block_of malloc max_payload_size x items in
      let (um, ur) =
        All-parts (λ i. IsUnread i.header) b.members b.rest
          (rw (split_of malloc max_payload_size x items) us) in
      All-append (λ i. IsUnread i.header) _ _ (close_block-AreUnread x b.end b.members u um)
        (join_blocks-AreUnread fuel b.rest ur)

  optimize_within_area-AreUnread :
      (area : PlcArea) (number : ℤ) (items : List ReadItem)
      → All (λ i. InArea area number i.header) items
      → AreUnread items
      → AreUnread (optimize_within_area malloc max_payload_size items)
  unfolding optimize_within_area
  optimize_within_area-AreUnread area number items here us =
      let kept = absorb_all malloc (length items) (sort_items items) in
      join_blocks-AreUnread (length kept) kept (
        absorb_all-All malloc area number IsUnread (length items) (sort_items items)
          (sort_items-All (λ i. InArea area number i.header) items here)
          (sort_items-All (λ i. IsUnread i.header) items us))

  numbered-AreUnread :
      (n : ℕ) (chain : List Request)
      → All (λ r. r.bytes_read ≡ 0) chain
      → AreUnread (numbered n chain)
  unfolding of_request
  numbered-AreUnread n [] us = tt
  numbered-AreUnread n (r ∷ chain) (u, us) = (u, numbered-AreUnread (n + 1) chain us)

  -- If nothing has been read of the requests yet, nothing has been of the items of the optimised list.
  pub create_optimized_list-AreUnread :
      (chain : List Request)
      → All (λ r. r.bytes_read ≡ 0) chain
      → All (λ i. IsUnread i.header) (create_optimized_list malloc max_payload_size chain)
  unfolding create_optimized_list
  create_optimized_list-AreUnread chain us =
      optimize_groups-All malloc max_payload_size IsUnread (λ i. IsUnread i.header)
        (group_requests 0 chain [])
        (group_requests-IsGroup IsUnread 0 chain [] (numbered-AreUnread 0 chain us) tt)
        (λ a n items (hs, ns, ps). (ps, optimize_within_area-AreUnread a n items hs ps))
