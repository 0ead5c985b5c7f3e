-- ===== src/ReadOptimizer/Groups.antt =====
-- `createOptimizedList` and `dispatchResults` of s7nodaveApp/src/PortDriverReadOptimizer.cc: the
-- requests grouped by area, each group optimised.
use s7nodave.Asyn.{PlcArea}
use s7nodave.Prelude.{
  ℕ, ◌+◌, ◌≡◌, refl, subst, true, Bool-cases, inl, inr, List, [], ◌∷◌, All, All-append, arith,
  Option, Bytes, ℤ, if◌then◌else◌,
}
use s7nodave.ReadItem.Contents.{item_weight, items_weight, items_weight-append}
use s7nodave.ReadItem.Ranges.{InArea, IsNested}
use s7nodave.ReadItem.{Header, ReadItem, Request, of_request}
use s7nodave.ReadOptimizer.Blocks.{Fits}
use s7nodave.ReadOptimizer.Joining.{
  items_weight-optimize_within_area, optimize_within_area-IsNested, optimize_within_area-Fits,
}
use s7nodave.ReadOptimizer.{
  Group, key_eq, key_lt, add_to_group, group_requests, optimize_within_area, optimize_groups,
  create_optimized_list, is_byte_area,
}

-- The requests of a chain as items, numbered from there.
abbrev pub numbered : ℕ → List Request → List ReadItem
numbered n [] = []
numbered n (r ∷ chain) = of_request n r ∷ numbered (n + 1) chain

-- The items of a group are of its area, nested, and satisfy a predicate.
abbrev pub IsGroup : (Header → Type 0) → Group → Type 0
IsGroup P ((area, number), items) =
    All (λ i. InArea area number i.header) items × All IsNested items × All (λ i. P i.header) items

key_eq_sound : (a b : PlcArea) (n m : ℤ) → key_eq (a, n) (b, m) ≡ true → (a ≡ b) × (n ≡ m)
key_eq_sound a b n m e = ground arith

module _ (P : Header → Type 0) (a : PlcArea) (n : ℤ) (item : ReadItem)
    (here : InArea a n item.header) (nested : IsNested item) (p : P item.header) where
  add_to_group-IsGroup :
      (groups : List Group)
      → All (IsGroup P) groups
      → All (IsGroup P) (add_to_group (a, n) item groups)
  unfolding add_to_group
  add_to_group-IsGroup [] gs = (((here, tt), (nested, tt), (p, tt)), tt)
  add_to_group-IsGroup (((b, m), items) ∷ groups) ((hs, ns, ps), gs) =
      elim (Bool-cases (key_eq (a, n) (b, m))) [
        | inl same ↦
            let (ea, en) = key_eq_sound a b n m same in
            rw same (
              (
                All-append (λ i. InArea b m i.header) items (item ∷ []) hs
                    (
                      subst (λ x. InArea x m item.header) ea
                          (subst (λ x. InArea a x item.header) en here),
                      tt,
                    ),
                All-append IsNested items (item ∷ []) ns (nested, tt),
                All-append (λ i. P i.header) items (item ∷ []) ps (p, tt),
              ),
              gs,
            )
        | inr other ↦ elim (Bool-cases (key_lt (a, n) (b, m))) [
          | inl before ↦
              rw other (rw before (((here, tt), (nested, tt), (p, tt)), ((hs, ns, ps), gs)))
          | inr behind ↦ rw other (rw behind ((hs, ns, ps), add_to_group-IsGroup groups gs))
        ]
      ]

pub group_requests-IsGroup :
    (P : Header → Type 0) (n : ℕ) (chain : List Request) (groups : List Group)
    → All (λ i. P i.header) (numbered n chain)
    → All (IsGroup P) groups
    → All (IsGroup P) (group_requests n chain groups)
unfolding group_requests
group_requests-IsGroup P n [] groups ps gs = gs
group_requests-IsGroup P n (r ∷ chain) groups (p, ps) gs =
    group_requests-IsGroup P (n + 1) chain _ ps
      (add_to_group-IsGroup P r.area r.area_number (of_request n r) (refl, refl) tt p groups gs)

module _ (w : Header → ℕ) where
  abbrev groups_weight : List Group → ℕ
  groups_weight [] = 0
  groups_weight ((key, items) ∷ groups) = items_weight w items + groups_weight groups

  groups_weight-add_to_group :
      (key : PlcArea × ℤ) (item : ReadItem) (groups : List Group)
      → groups_weight (add_to_group key item groups) ≡ item_weight w item + groups_weight groups
  unfolding add_to_group
  groups_weight-add_to_group key item [] = omega arith
  groups_weight-add_to_group key item ((k, items) ∷ groups) = elim (Bool-cases (key_eq key k)) [
    | inl same ↦ rw same (omega (arith, items_weight-append w items (item ∷ [])))
    | inr other ↦ elim (Bool-cases (key_lt key k)) [
      | inl before ↦ rw other (rw before (omega arith))
      | inr behind ↦
          rw other (rw behind (omega (arith, groups_weight-add_to_group key item groups)))
    ]
  ]

  groups_weight-group_requests :
      (n : ℕ) (chain : List Request) (groups : List Group)
      → groups_weight (group_requests n chain groups)
        ≡ items_weight w (numbered n chain) + groups_weight groups
  unfolding group_requests
  groups_weight-group_requests n [] groups = omega arith
  groups_weight-group_requests n (r ∷ chain) groups = omega (
    arith,
    groups_weight-group_requests (n + 1) chain
        (add_to_group (r.area, r.area_number) (of_request n r) groups),
    groups_weight-add_to_group (r.area, r.area_number) (of_request n r) groups,
  )

module _ (malloc : ℕ → Option Bytes) (max_payload_size : ℕ) where
  items_weight-optimize_groups :
      (w : Header → ℕ) (groups : List Group)
      → All (IsGroup (Fits max_payload_size)) groups
      → items_weight w (optimize_groups malloc max_payload_size groups) ≡ groups_weight w groups
  unfolding optimize_groups
  items_weight-optimize_groups w [] gs = refl
  items_weight-optimize_groups w (((a, n), items) ∷ groups) ((hs, ns, ps), gs) = ground (
    arith,
    items_weight-append w
        (if is_byte_area a then optimize_within_area malloc max_payload_size items else items)
        (optimize_groups malloc max_payload_size groups),
    items_weight-optimize_within_area malloc max_payload_size a n items hs w,
    items_weight-optimize_groups w groups gs,
  )

  -- The optimised list, group by group.
  pub optimize_groups-All :
      (Q : Header → Type 0) (P : ReadItem → Type 0) (groups : List Group)
      → All (IsGroup Q) groups
      → ((a : PlcArea) (n : ℤ) (items : List ReadItem)
          → IsGroup Q ((a, n), items)
          → All P items × All P (optimize_within_area malloc max_payload_size items))
      → All P (optimize_groups malloc max_payload_size groups)
  unfolding optimize_groups
  optimize_groups-All Q P [] gs each = tt
  optimize_groups-All Q P (((a, n), items) ∷ groups) (g, gs) each =
      let (plain, optimised) = each a n items g in
      let rest = optimize_groups-All Q P groups gs each in
      elim (Bool-cases (is_byte_area a)) [
        | inl bytes ↦ rw bytes (All-append P _ _ optimised rest)
        | inr words ↦ rw words (All-append P _ _ plain rest)
      ]

  -- A request of the caller is no joined item.
  numbered-Fits :
      (n : ℕ) (chain : List Request) → All (λ i. Fits max_payload_size i.header) (numbered n chain)
  unfolding of_request
  numbered-Fits n [] = tt
  numbered-Fits n (r ∷ chain) = ((λ e. cc), numbered-Fits (n + 1) chain)

  groups_of :
      (chain : List Request) → All (IsGroup (Fits max_payload_size)) (group_requests 0 chain [])
  groups_of chain =
      group_requests-IsGroup (Fits max_payload_size) 0 chain [] (numbered-Fits 0 chain) tt

  -- The optimised list holds exactly the requests of the chain: whatever weight requests are given,
  -- its sum over the list and the items included in it is the sum over the chain.
  pub items_weight-create_optimized_list :
      (w : Header → ℕ) (chain : List Request)
      → items_weight w (create_optimized_list malloc max_payload_size chain)
        ≡ items_weight w (numbered 0 chain)
  unfolding create_optimized_list
  items_weight-create_optimized_list w chain = omega (
    arith,
    items_weight-optimize_groups w (group_requests 0 chain []) (groups_of chain),
    groups_weight-group_requests w 0 chain [],
  )

  -- Every item of the optimised list is in the area of the items that it includes, and its range
  -- includes theirs, at every depth.
  pub create_optimized_list-IsNested :
      (chain : List Request) → All IsNested (create_optimized_list malloc max_payload_size chain)
  unfolding create_optimized_list
  create_optimized_list-IsNested chain =
      optimize_groups-All (Fits max_payload_size) IsNested (group_requests 0 chain [])
        (groups_of chain)
        (λ a n items (hs, ns, ps).
          (ns, optimize_within_area-IsNested malloc max_payload_size a n items hs ns))

  -- Every item of the optimised list that has a buffer of its own, as those have that join requests,
  -- asks for at most the payload size less four bytes.
  pub create_optimized_list-Fits :
      (chain : List Request)
      → All
          (λ i. Fits max_payload_size i.header)
          (create_optimized_list malloc max_payload_size chain)
  unfolding create_optimized_list
  create_optimized_list-Fits chain =
      optimize_groups-All (Fits max_payload_size) (λ i. Fits max_payload_size i.header)
        (group_requests 0 chain []) (groups_of chain)
        (λ a n items (hs, ns, ps).
          (ps, optimize_within_area-Fits malloc max_payload_size a n items hs ps))
