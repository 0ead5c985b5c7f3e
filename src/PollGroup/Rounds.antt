-- ===== src/PollGroup/Rounds.antt =====
-- Rounds of a poll group whose port is driven by this program: s7nodaveApp/src/PollGroup.cc with
-- `asynPlcReadMultipleItems` of s7nodaveApp/src/PortDriver.cc.
use s7nodave.Asyn.{AsynStatus, is_success}
use s7nodave.MultipleRead.Lengths.{asyn_plc_read_multiple_items-length}
use s7nodave.MultipleRead.Totality.{closed-refused}
use s7nodave.MultipleRead.{MultiOutcome, asyn_plc_read_multiple_items}
use s7nodave.PollGroup.Responses.{answered_of, asked_of, process_group-answered_of}
use s7nodave.PollGroup.{
  Asked, collect_requests, build_chain, Port, read_chain_of, responses_of, process_group,
  driver_port, items_answered,
}
use s7nodave.PortDriver.{PortDriver}
use s7nodave.Prelude.{
  ℕ, ◌≡◌, refl, ap, Bool, true, false, not, Option, none, some, List, [], ◌∷◌, map, Bytes, length,
  All, Bool-cases, inl, inr, some_inj,
}
use s7nodave.ReadItem.{Request}
use s7nodave.ReadRequest.{Client}
use s7nodave.Record.Input.{PollRequest}

respond_failed :
    (status : AsynStatus) (requests : List Asked) (items : List Request)
    → is_success status ≡ false
    → All (λ r. r.success ≡ false) (responses_of status requests items)
unfolding responses_of
respond_failed status [] items e = tt
respond_failed status (q ∷ requests) [] e = tt
respond_failed status ((q, r) ∷ requests) (i ∷ items) e =
    (rw e refl, respond_failed status requests items e)

pub items_answered-length :
    (chain : List Request) (o : Option MultiOutcome)
    → ((a : MultiOutcome) → o ≡ some a → length a.requests ≡ length chain)
    → length (items_answered chain o).1 ≡ length chain
unfolding items_answered
items_answered-length chain none h = refl
items_answered-length chain (some a) h = h a refl

items_answered-disconnected :
    (chain : List Request) (o : Option MultiOutcome) {a : MultiOutcome}
    → o ≡ some a
    → is_success (items_answered chain o).0 ≡ is_success a.status
unfolding items_answered
items_answered-disconnected chain none e = cc
items_answered-disconnected chain (some a) e = ap (λ x. is_success x.status) (some_inj e)

module _ (prepare : ℕ → List PollRequest) (has_room : ℕ → Bool) (malloc : ℕ → Option Bytes)
    (client : Client) (pdu_length : ℕ) (d : PortDriver) (lock_answer : AsynStatus) where
  abbrev port : Port
  port = driver_port malloc client pdu_length d lock_answer

  pub read_items-length : (chain : List Request) → length (port.read_items chain).1 ≡ length chain
  unfolding driver_port
  read_items-length chain =
      items_answered-length chain (asyn_plc_read_multiple_items malloc client pdu_length d chain)
        (λ o e. asyn_plc_read_multiple_items-length malloc client pdu_length d chain e)

  -- If there is memory for each item, then, whatever the PLC and asyn answer, the responses of a round go to
  -- the requesters of all requests, in their order and with their sizes.
  pub process_group_answers :
      (requesters : List ℕ)
      → ((k : ℕ) → has_room k ≡ true)
      → map answered_of
          (process_group prepare has_room
            (driver_port malloc client pdu_length d lock_answer)
            requesters).0
        ≡ map asked_of (collect_requests prepare requesters)
  process_group_answers requesters room =
      process_group-answered_of prepare has_room port requesters room read_items-length

  closed_status :
      (chain : Option (List Request))
      → d.connected ≡ false
      → is_success (read_chain_of port chain).0 ≡ false
  unfolding read_chain_of driver_port
  closed_status none closed = refl
  closed_status (some chain) closed = elim (Bool-cases (is_success lock_answer)) [
    | inr kept ↦ rw (kept, read_chain_of) kept
    | inl locked ↦
        rw (locked, read_chain_of)
          (items_answered-disconnected chain _
            (closed-refused malloc client pdu_length d chain (ap not closed)))
  ]

  -- If the driver is not connected, then every response of a round tells of a failure.
  pub process_group_disconnected :
      (requesters : List ℕ)
      → d.connected ≡ false
      → All
          (λ r. r.success ≡ false)
          (process_group prepare has_room
            (driver_port malloc client pdu_length d lock_answer)
            requesters).0
  unfolding process_group
  process_group_disconnected [] closed = tt
  process_group_disconnected (r ∷ requesters) closed =
      let requests = collect_requests prepare (r ∷ requesters) in
      respond_failed _ requests _ (closed_status (build_chain has_room 0 requests) closed)
