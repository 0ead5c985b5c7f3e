-- ===== src/PollGroup/Truth.antt =====
-- What the requesters of a poll group of s7nodaveApp/src/PollGroup.cc are given to read.
use s7nodave.Asyn.{AsynStatus, is_success}
use s7nodave.MultipleRead.Memory.{
  World, Range, counts_in_bytes, range_of, memory_at, IsTrueRequest, IsServing,
}
use s7nodave.MultipleRead.Truth.{asyn_plc_read_multiple_items-AreTrue}
use s7nodave.PollGroup.Responses.{items_of, build_chain-items_of, none_asked, read_chain_of-length}
use s7nodave.PollGroup.Rounds.{read_items-length}
use s7nodave.PollGroup.{
  Asked, Port, item_of, collect_requests, is_read, read_chain_of, Response, responses_of,
  process_group, driver_port, items_answered,
}
use s7nodave.PortDriver.{PortDriver, area_to_snap7_area}
use s7nodave.Prelude.{
  ℕ, ◌≡◌, refl, subst, Bool, true, false, ◌&&◌, Option, some, List, [], ◌∷◌, map, Bytes, All, take,
  length, length-map, pos, pos_part, ap, All-append, ◌∙◌, Bool-cases, inl, inr, ◌==◌, arith,
}
use s7nodave.ReadItem.Delivery.{slice}
use s7nodave.ReadItem.{Request}
use s7nodave.ReadRequest.{Client}
use s7nodave.Record.Input.{PollRequest}

-- The start byte is not negative.
abbrev pub HasStart : PollRequest → Type 0
HasStart q = (start : ℕ) × (q.address.start_byte ≡ pos start)

-- A response of success to a request of an area that counts in bytes has a buffer, if any, that begins with
-- the bytes of the memory from the request's start byte on.
abbrev pub IsServedRange : World → PollRequest → Response → Type 0
IsServedRange world q p =
    counts_in_bytes (area_to_snap7_area q.address.area) ≡ true
    → p.success ≡ true
    → (b : Bytes) → p.buffer ≡ some b
    → (start : ℕ) × (q.address.start_byte ≡ pos start)
      × (take q.size b
          ≡ slice (world (area_to_snap7_area q.address.area) q.address.area_number) start q.size)

-- The responses to requests, one after the other, as many as there are.
abbrev pub AreServedRanges : World → List Asked → List Response → Type 0
AreServedRanges world [] [] = Unit
AreServedRanges world ((q, r) ∷ requests) (p ∷ responses) =
    ((p.requester ≡ r) × IsServedRange world q p) × AreServedRanges world requests responses
AreServedRanges world _ _ = ⊥

requests-HaveStart :
    (r : ℕ) (requests : List PollRequest)
    → All HasStart requests
    → All (λ (q : Asked). HasStart q.0) (map (λ q. (q, r)) requests)
requests-HaveStart r [] hs = tt
requests-HaveStart r (q ∷ requests) (h, hs) = (h, requests-HaveStart r requests hs)

collect_requests-HaveStart :
    (prepare : ℕ → List PollRequest) (requesters : List ℕ)
    → ((k : ℕ) → All HasStart (prepare k))
    → All (λ (q : Asked). HasStart q.0) (collect_requests prepare requesters)
unfolding collect_requests
collect_requests-HaveStart prepare [] starts = tt
collect_requests-HaveStart prepare (r ∷ requesters) starts =
    All-append (λ (q : Asked). HasStart q.0) (map (λ q. (q, r)) (prepare r)) _
      (requests-HaveStart r (prepare r) (starts r))
      (collect_requests-HaveStart prepare requesters starts)

all_three : (a b c : Bool) → (a && (b && c)) ≡ true → (a ≡ true) × (b ≡ true) × (c ≡ true)
all_three true true true h = (refl, refl, refl)
all_three a b c h = cc

is_read_lem :
    (status : AsynStatus) (i : Request)
    → is_read status i ≡ true
    → (is_success status ≡ true) × (is_success i.status ≡ true) × (i.bytes_read ≡ i.read_bytes)
is_read_lem status i h =
    let (a, b, c) =
      all_three (is_success status) (is_success i.status) (i.bytes_read == i.read_bytes) h in
    (a, b, ground (arith, c))

no_success : (s : AsynStatus) → is_success s ≡ false → is_success s ≡ true → ⊥
no_success s h k = cc

ranges_head : {p q : Range} {l m : List Range} → ◌≡◌ {A = List Range} (p ∷ l) (q ∷ m) → p ≡ q
ranges_head e = cc

ranges_tail : {p q : Range} {l m : List Range} → ◌≡◌ {A = List Range} (p ∷ l) (q ∷ m) → l ≡ m
ranges_tail e = cc

module _ (world : World) where
  -- On success the items have these ranges and are true.
  abbrev HandsBack : List Range → AsynStatus → List Request → Type 0
  HandsBack ranges status items =
      is_success status ≡ true → (map range_of items ≡ ranges) × All (IsTrueRequest world) items

  responses_of-AreServedRanges :
      (status : AsynStatus) (requests : List Asked) (items : List Request)
      → length items ≡ length requests
      → All (λ (q : Asked). HasStart q.0) requests
      → HandsBack (map range_of (items_of requests)) status items
      → AreServedRanges world requests (responses_of status requests items)
  unfolding responses_of
  responses_of-AreServedRanges status [] items e h t = tt
  responses_of-AreServedRanges status (q ∷ requests) [] e h t = absurd (omega (arith, e))
  responses_of-AreServedRanges status ((q, r) ∷ requests) (i ∷ items) e ((start, at), hs) t = (
    (
      refl,
      λ counts read b held.
          let (ok, fine, complete) = is_read_lem status i read in
          let (ranges, (true_first, others)) = t ok in
          let same = ranges_head ranges in
          let counted = ap (λ p. counts_in_bytes (area_to_snap7_area p.area)) same ∙ counts in
          (
            start,
            at,
            subst
                (λ n.
                  take q.size b
                  ≡ slice (world (area_to_snap7_area q.address.area) q.address.area_number) n
                      q.size)
                (ap pos_part at)
                (subst
                  (λ p. take p.read_bytes b ≡ slice (memory_at world p) p.start_byte p.read_bytes)
                  same (true_first counted fine complete b held)),
          ),
    ),
    responses_of-AreServedRanges status requests items (omega (arith, e)) hs
        (λ ok. let (ranges, (true_first, others)) = t ok in (ranges_tail ranges, others)),
  )

  AreUnread-items_of : (requests : List Asked) → All (λ r. r.bytes_read ≡ 0) (items_of requests)
  AreUnread-items_of [] = tt
  AreUnread-items_of (q ∷ requests) = (refl, AreUnread-items_of requests)

  module _ (prepare : ℕ → List PollRequest) (has_room : ℕ → Bool) (malloc : ℕ → Option Bytes)
      (client : Client) (pdu_length : ℕ) (d : PortDriver) (lock_answer : AsynStatus)
      (serving : IsServing world client) where
    abbrev port : Port
    port = driver_port malloc client pdu_length d lock_answer

    items_answered-HandsBack :
        (chain : List Request)
        → All (λ r. r.bytes_read ≡ 0) chain
        → HandsBack (map range_of chain) (port.read_items chain).0 (port.read_items chain).1
    unfolding driver_port items_answered
    items_answered-HandsBack chain unread =
        let (o, e, t) =
          asyn_plc_read_multiple_items-AreTrue world malloc client pdu_length d chain serving
            unread in
        rw e t

    read_chain_of-HandsBack :
        (chain : List Request)
        → All (λ r. r.bytes_read ≡ 0) chain
        → HandsBack
            (map range_of chain)
            (read_chain_of port (some chain)).0
            (read_chain_of port (some chain)).1
    unfolding read_chain_of
    read_chain_of-HandsBack chain unread = elim (Bool-cases (is_success port.lock_port)) [
      | inl locked ↦ rw (locked, read_chain_of) (items_answered-HandsBack chain unread)
      | inr refused ↦
          rw (refused, read_chain_of) (λ ok. absurd (no_success port.lock_port refused ok))
    ]

    -- If the client answers what it is asked for by bytes, in an area that counts in bytes, with the bytes of a
    -- memory that does not change whenever it succeeds, there is memory
    -- for each item, and no request has a negative start byte, then a round gives each request one response,
    -- in order and to its requester; and if that tells of success, and the request's area counts in bytes,
    -- then its buffer, if any, begins with as many bytes of the memory as were asked for, from the start
    -- byte that was asked for on.
    pub process_group-AreServedRanges :
        (requesters : List ℕ)
        → ((k : ℕ) → has_room k ≡ true)
        → ((k : ℕ) → All HasStart (prepare k))
        → AreServedRanges world
            (collect_requests prepare requesters)
            (process_group prepare has_room
              (driver_port malloc client pdu_length d lock_answer)
              requesters).0
    unfolding process_group
    process_group-AreServedRanges [] room starts = rw (none_asked prepare has_room port) tt
    process_group-AreServedRanges (r ∷ requesters) room starts =
        let requests = collect_requests prepare (r ∷ requesters) in
        rw (build_chain-items_of has_room 0 requests room) (
          responses_of-AreServedRanges _ requests _
            (read_chain_of-length prepare has_room port (items_of requests)
                (read_items-length prepare has_room malloc client pdu_length d lock_answer)
              ∙ length-map (λ q. item_of q.0) requests)
            (collect_requests-HaveStart prepare (r ∷ requesters) starts)
            (read_chain_of-HandsBack (items_of requests) (AreUnread-items_of requests)))
