-- ===== src/MultipleRead/Truth.antt =====
-- `asynPlcReadMultipleItems` of s7nodaveApp/src/PortDriver.cc gives each request the bytes of the PLC.
use s7nodave.Asyn.{is_success}
use s7nodave.MultipleRead.Memory.{
  World, Range, counts_in_bytes, range_of_header, range_of, range_of_header-same, memory_at,
  IsTrueAt, IsTrueHeader, IsTrueRequest, IsServing, IsServing-IsKept,
}
use s7nodave.MultipleRead.Owners.{
  area_eq-same, eqb_ℤ-same, IsOwned, IsOwnedBy, AllForest, create_optimized_list-IsOwned,
}
use s7nodave.MultipleRead.Totality.{
  asyn_plc_read_multiple_items_total, connected-read_items, refused, AreReady,
}
use s7nodave.MultipleRead.{
  payload_of_optimizer, MultiOutcome, write_back, write_request, write_owner, write_requests,
  rounds, status_of, finish_read, read_items, outcome_of, asyn_plc_read_multiple_items,
}
use s7nodave.PortDriver.{PortDriver, area_to_snap7_area}
use s7nodave.Prelude.{
  ℕ, zero, suc, ◌≡◌, refl, sym, ap, ◌∙◌, subst, true, not, Option, some, some_inj, >>=-eq-some,
  List, [], ◌∷◌, Bytes, map, All, length, get_elem?, take, arith,
}
use s7nodave.ReadItem.Delivery.{IsSameRange, AreNested-same, slice}
use s7nodave.ReadItem.Ranges.{Contains, AreNested, IsNested}
use s7nodave.ReadItem.Totality.{IsReady, IsTrue, IsTrue-unread, copy_result-IsHanded}
use s7nodave.ReadItem.{
  Header, Owner, internal, request, Forest, nil, cons, ReadItem, Request, forest_of,
  dispatch_read_result_to_children,
}
use s7nodave.ReadOptimizer.Groups.{create_optimized_list-IsNested}
use s7nodave.ReadOptimizer.Unread.{create_optimized_list-AreUnread, IsUnread}
use s7nodave.ReadOptimizer.{create_optimized_list, dispatch_results}
use s7nodave.ReadRequest.Kept.{AreStored}
use s7nodave.ReadRequest.Stored.{send_request_to_plc-IsLeft}
use s7nodave.ReadRequest.{Client, Sent, send_request_to_plc}

module _ (world : World) (ranges : List Range) where
  -- An item that is true, and owned as it should be.
  abbrev IsSound : Header → Type 0
  IsSound h = IsOwned ranges h × IsTrueHeader world h

  IsOwned-same : (h h' : Header) → IsSameRange h h' → IsOwned ranges h → IsOwned ranges h'
  IsOwned-same h h' s o =
      subst (λ q. IsOwnedBy ranges h'.owner q) (sym (range_of_header-same h h' s))
        (subst (λ w. IsOwnedBy ranges w (range_of_header h)) (sym s.owner) o)

  -- What is nested is in the same memory.
  memory_at-nested :
      (p c c' : Header)
      → Contains p c
      → IsSameRange c c'
      → memory_at world (range_of_header p) ≡ memory_at world (range_of_header c')
  memory_at-nested p c c' inside s =
      let area = area_eq-same p.area c.area inside.same_area ∙ sym s.area in
      let number = eqb_ℤ-same p.area_number c.area_number inside.same_number ∙ sym s.number in
      ap (λ a. world (area_to_snap7_area a) p.area_number) area
      ∙ ap (λ n. world (area_to_snap7_area c'.area) n) number

  counts_in_bytes-nested :
      (p c c' : Header)
      → Contains p c
      → IsSameRange c c'
      → counts_in_bytes (area_to_snap7_area p.area) ≡ counts_in_bytes (area_to_snap7_area c'.area)
  counts_in_bytes-nested p c c' inside s =
      ap (λ a. counts_in_bytes (area_to_snap7_area a))
        (area_eq-same p.area c.area inside.same_area ∙ sym s.area)

  dispatch-IsSound :
      (this : Header) (f : Forest)
      → AreNested this f
      → IsReady this
      → IsTrueHeader world this
      → AllForest (IsOwned ranges) f
      → (f' : Forest) × (dispatch_read_result_to_children this f ≡ some f') × AllForest IsSound f'
  unfolding dispatch_read_result_to_children
  dispatch-IsSound this nil n ready t o = (nil, refl, tt)
  dispatch-IsSound this (cons c below rest) (inside, nb, nr) ready t (oc, ob, orest) =
      let (c', e, same, ready', true') = copy_result-IsHanded this c inside ready in
      let tc : IsTrueHeader world c' = λ counts.
        subst (λ m. IsTrue m c') (memory_at-nested this c c' inside same)
          (true' (memory_at world (range_of_header this))
            (t (counts_in_bytes-nested this c c' inside same ∙ counts))) in
      let (below', eb, sb) =
        dispatch-IsSound c' below (AreNested-same c c' below same nb) ready' tc ob in
      let (rest', er, sr) = dispatch-IsSound this rest nr ready t orest in
      (cons c' below' rest', rw (e, eb, er), ((IsOwned-same c c' same oc, tc), sb, sr))

  -- The items that were sent, with what is left of them in the store.
  AreSoundItems : List ReadItem → List Header → Type 0
  AreSoundItems items store =
      All IsNested items
      × AllForest (IsOwned ranges) (forest_of items)
      × AreStored (IsTrueHeader world) (map (λ i. i.header) items) store

  dispatch_results-IsSound :
      (items : List ReadItem) (store : List Header)
      → AreSoundItems items store
      → (final : List ReadItem) × (dispatch_results (write_back items store) ≡ some final)
        × AllForest IsSound (forest_of final)
  unfolding dispatch_results AreSoundItems
  dispatch_results-IsSound [] [] h = ([], refl, tt)
  dispatch_results-IsSound [] (x ∷ store) (ns, os, a) = absurd a
  dispatch_results-IsSound (i ∷ items) [] (ns, os, a) = absurd a
  dispatch_results-IsSound (i ∷ items) (x ∷ store) ((n, ns), (o, ob, os), (s, a)) =
      let (children, e, sb) =
        dispatch-IsSound x i.children (AreNested-same i.header x i.children s.same n) s.ready s.good
          ob in
      let (final, k, sr) = dispatch_results-IsSound items store (ns, os, a) in
      (
        record { header = x; children = children } ∷ final,
        rw (e, k),
        ((IsOwned-same i.header x s.same o, s.good), sb, sr),
      )

-- Requests of these ranges that are true.
abbrev AreTrue : World → List Range → List Request → Type 0
AreTrue world ranges chain = (map range_of chain ≡ ranges) × All (IsTrueRequest world) chain

module _ (world : World) where
  write_request-AreTrue :
      (n : ℕ) (h : Header) (chain : List Request)
      → get_elem? (map range_of chain) n ≡ some (range_of_header h)
      → IsTrueHeader world h
      → All (IsTrueRequest world) chain
      → AreTrue world (map range_of chain) (write_request n h chain)
  write_request-AreTrue n h [] e t ts = (refl, tt)
  write_request-AreTrue zero h (r ∷ chain) e t (_, ts) = (
    refl,
    (subst (λ q. IsTrueAt world q h.status h.bytes_read h.buffer) (sym (some_inj e)) t, ts),
  )
  write_request-AreTrue (suc n) h (r ∷ chain) e t (first, ts) =
      let (same, written) = write_request-AreTrue n h chain e t ts in
      (ap (λ l. range_of r ∷ l) same, (first, written))

  write_owner-AreTrue :
      (ranges : List Range) (o : Owner) (h : Header) (chain : List Request)
      → IsOwnedBy ranges o (range_of_header h)
      → IsTrueHeader world h
      → AreTrue world ranges chain
      → AreTrue world ranges (elim o [ internal ↦ chain | request n ↦ write_request n h chain ])
  write_owner-AreTrue ranges internal h chain o t ts = ts
  write_owner-AreTrue ranges (request n) h chain o t (e, ts) =
      let (same, written) = write_request-AreTrue n h chain (ap (λ l. get_elem? l n) e ∙ o) t ts in
      (same ∙ e, written)

  write_requests-AreTrue :
      (ranges : List Range) (f : Forest) (chain : List Request)
      → AllForest (IsSound world ranges) f
      → AreTrue world ranges chain
      → AreTrue world ranges (write_requests f chain)
  write_requests-AreTrue ranges nil chain s ts = ts
  write_requests-AreTrue ranges (cons h below rest) chain ((o, t), sb, sr) ts =
      write_requests-AreTrue ranges rest (write_requests below (write_owner h chain)) sr (
        write_requests-AreTrue ranges below (write_owner h chain) sb
          (write_owner-AreTrue ranges h.owner h chain o t ts))

  AreTrue-unread :
      (chain : List Request) → All (λ r. r.bytes_read ≡ 0) chain → All (IsTrueRequest world) chain
  AreTrue-unread [] us = tt
  AreTrue-unread (r ∷ chain) (u, us) =
      ((λ c ok complete b held. nothing_read r b (sym complete ∙ u)), AreTrue-unread chain us)
    where
      nothing_read :
          (r : Request) (b : Bytes)
          → r.read_bytes ≡ 0
          → take r.read_bytes b ≡ slice (memory_at world (range_of r)) r.start_byte r.read_bytes
      nothing_read r b e = rw e refl

  success_zero : (n : ℕ) → is_success (status_of n) ≡ true → n ≡ 0
  success_zero n e = ground arith

  headers-IsTrueHeader :
      (items : List ReadItem)
      → All (λ i. IsUnread i.header) items
      → All (IsTrueHeader world) (map (λ i. i.header) items)
  headers-IsTrueHeader [] us = tt
  headers-IsTrueHeader (i ∷ items) (u, us) = (
    λ c. IsTrue-unread (memory_at world (range_of_header i.header)) i.header u,
    headers-IsTrueHeader items us,
  )

  module _ (malloc : ℕ → Option Bytes) (client : Client) (pdu_length : ℕ) (d : PortDriver)
      (chain : List Request) (serving : IsServing world client)
      (unread : All (λ r. r.bytes_read ≡ 0) chain) where
    abbrev pub IsRead : MultiOutcome → Type 0
    IsRead o = is_success o.status ≡ true → AreTrue world (map range_of chain) o.requests

    outcome_of-IsRead :
        (sent : Sent) (final : List ReadItem)
        → send_request_to_plc client pdu_length
            (rounds (length (create_optimized_list malloc (payload_of_optimizer pdu_length) chain)))
            (map
              (λ i. i.header)
              (create_optimized_list malloc (payload_of_optimizer pdu_length) chain))
          ≡ some sent
        → dispatch_results (
            write_back
              (create_optimized_list malloc (payload_of_optimizer pdu_length) chain)
              sent.store)
          ≡ some final
        → IsRead (outcome_of d chain sent final)
    unfolding outcome_of AreSoundItems
    outcome_of-IsRead sent final e k ok =
        let max = payload_of_optimizer pdu_length in
        let items = create_optimized_list malloc max chain in
        let ranges = map range_of chain in
        let none_read = create_optimized_list-AreUnread malloc max chain unread in
        let (in_place, good) =
          send_request_to_plc-IsLeft (IsTrueHeader world) client pdu_length (rounds (length items))
            (map (λ i. i.header) items) (IsServing-IsKept world client serving)
            (AreReady items none_read) (headers-IsTrueHeader items none_read) e in
        let (final', k', sound) = dispatch_results-IsSound world ranges items sent.store (
          create_optimized_list-IsNested malloc max chain,
          create_optimized_list-IsOwned malloc max chain,
          good (success_zero sent.status ok),
        ) in
        write_requests-AreTrue ranges (forest_of final) chain
          (subst (λ l. AllForest (IsSound world ranges) (forest_of l)) (some_inj (sym k' ∙ k))
            sound)
          (refl, AreTrue-unread chain unread)

    read_items-IsRead :
        {o : MultiOutcome} → read_items malloc client pdu_length d chain ≡ some o → IsRead o
    unfolding read_items finish_read
    read_items-IsRead e =
        let items = create_optimized_list malloc (payload_of_optimizer pdu_length) chain in
        let (sent, sending, k) =
          >>=-eq-some
            (send_request_to_plc client pdu_length (rounds (length items))
              (map (λ i. i.header) items))
            _ e in
        let (final, dispatched, l) =
          >>=-eq-some (dispatch_results (write_back items sent.store)) _ k in
        subst IsRead (some_inj l) (outcome_of-IsRead sent final sending dispatched)

    -- If the client answers what it is asked for by bytes, in an area that counts in bytes, with the bytes of a
    -- memory that does not change whenever it succeeds, and nothing has been
    -- read of the requests yet, then the call returns; and if it reports success, the requests are the
    -- same areas and ranges as before, in order, and each of them whose area counts in bytes (it is no timer
    -- or counter), whose status is success and whose bytes are all read has a buffer, if any, that begins with the bytes of the memory at its own range.
    pub asyn_plc_read_multiple_items-AreTrue :
        (o : MultiOutcome) × (asyn_plc_read_multiple_items malloc client pdu_length d chain
          ≡ some o)
        × (is_success o.status ≡ true
            → (map range_of o.requests ≡ map range_of chain) × All (IsTrueRequest world) o.requests)
    asyn_plc_read_multiple_items-AreTrue =
        let (o, e, (honest, refused)) =
          asyn_plc_read_multiple_items_total malloc client pdu_length d chain unread in
        (
          o,
          e,
          λ ok.
              let (connected, same) = honest ok in
              read_items-IsRead
                (sym (connected-read_items malloc client pdu_length d chain (ap not connected)) ∙ e)
                ok,
        )
