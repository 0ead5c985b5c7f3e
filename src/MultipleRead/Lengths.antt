-- ===== src/MultipleRead/Lengths.antt =====
-- `asynPlcReadMultipleItems` of s7nodaveApp/src/PortDriver.cc keeps the items of the caller.
use s7nodave.MultipleRead.{
  payload_of_optimizer, MultiOutcome, set_all_bytes_read_to_zero, write_request, write_owner,
  write_requests, outcome_of, finish_read, read_items, asyn_plc_read_multiple_items, rounds,
  write_back,
}
use s7nodave.PortDriver.{PortDriver}
use s7nodave.Prelude.{
  ℕ, zero, suc, ◌≡◌, refl, ap, not, Option, some, >>=-eq-some, some_inj, List, [], ◌∷◌, Bytes,
  length, map, subst, ◌∙◌, Bool-cases, inl, inr,
}
use s7nodave.ReadItem.{Header, Forest, nil, cons, Request, Owner, internal, request, forest_of}
use s7nodave.ReadOptimizer.{create_optimized_list, dispatch_results}
use s7nodave.ReadRequest.{Client, send_request_to_plc}

set_all_bytes_read_to_zero-length :
    (chain : List Request) → length (set_all_bytes_read_to_zero chain) ≡ length chain
set_all_bytes_read_to_zero-length [] = refl
set_all_bytes_read_to_zero-length (r ∷ chain) = ap suc (set_all_bytes_read_to_zero-length chain)

write_request-length :
    (n : ℕ) (h : Header) (chain : List Request) → length (write_request n h chain) ≡ length chain
write_request-length n h [] = refl
write_request-length zero h (r ∷ chain) = refl
write_request-length (suc n) h (r ∷ chain) = ap suc (write_request-length n h chain)

-- By the owner of the item.
length_of_owner :
    (o : Owner) (h : Header) (chain : List Request)
    → length (elim o [ internal ↦ chain | request n ↦ write_request n h chain ]) ≡ length chain
length_of_owner internal h chain = refl
length_of_owner (request n) h chain = write_request-length n h chain

write_requests-length :
    (f : Forest) (chain : List Request) → length (write_requests f chain) ≡ length chain
write_requests-length nil chain = refl
write_requests-length (cons h below rest) chain =
    write_requests-length rest (write_requests below (write_owner h chain))
    ∙ (write_requests-length below (write_owner h chain) ∙ length_of_owner h.owner h chain)

module _ (malloc : ℕ → Option Bytes) (client : Client) (pdu_length : ℕ) (d : PortDriver)
    (chain : List Request) where
  abbrev HasLength : MultiOutcome → Type 0
  HasLength o = length o.requests ≡ length chain

  read_items-length :
      {o : MultiOutcome} → read_items malloc client pdu_length d chain ≡ some o → HasLength o
  unfolding read_items finish_read outcome_of
  read_items-length e =
      let items = create_optimized_list malloc (payload_of_optimizer pdu_length) chain in
      let (sent, _, k) =
        >>=-eq-some
          (send_request_to_plc client pdu_length (rounds (length items))
            (map (λ i. i.header) items))
          _ e in
      let (final, _, l) = >>=-eq-some (dispatch_results (write_back items sent.store)) _ k in
      subst HasLength (some_inj l) (write_requests-length (forest_of final) chain)

  -- The call gives back as many items as it gets.
  pub asyn_plc_read_multiple_items-length :
      {o : MultiOutcome}
      → asyn_plc_read_multiple_items malloc client pdu_length d chain ≡ some o
      → HasLength o
  unfolding asyn_plc_read_multiple_items
  asyn_plc_read_multiple_items-length e = elim (Bool-cases (not d.connected)) [
    | inl closed ↦
        subst HasLength (some_inj (rw (closed, asyn_plc_read_multiple_items) at e))
          (set_all_bytes_read_to_zero-length chain)
    | inr connected ↦ read_items-length (rw (connected, asyn_plc_read_multiple_items) at e)
  ]
