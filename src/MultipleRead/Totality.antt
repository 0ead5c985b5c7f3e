-- ===== src/MultipleRead/Totality.antt =====
-- `asynPlcReadMultipleItems` of s7nodaveApp/src/PortDriver.cc always returns.
use s7nodave.Asyn.{disconnected, is_success}
use s7nodave.MultipleRead.{
  payload_of_optimizer, MultiOutcome, set_all_bytes_read_to_zero, write_back, rounds, status_of,
  finish_read, read_items, outcome_of, asyn_plc_read_multiple_items,
}
use s7nodave.PortDriver.{PortDriver, is_connection_error}
use s7nodave.Prelude.{
  ℕ, ◌≡◌, refl, true, false, not, Option, some, List, [], ◌∷◌, Bytes, map, length, length-map, All,
  Bool-cases, inl, inr, arith, sym, ap, ◌∙◌, ◌==◌,
}
use s7nodave.ReadItem.Delivery.{AreNested-same}
use s7nodave.ReadItem.Ranges.{IsNested}
use s7nodave.ReadItem.Totality.{IsReady, dispatch_total}
use s7nodave.ReadItem.{Header, ReadItem, Request}
use s7nodave.ReadOptimizer.Groups.{create_optimized_list-IsNested}
use s7nodave.ReadOptimizer.Unread.{create_optimized_list-AreUnread, IsUnread}
use s7nodave.ReadOptimizer.{create_optimized_list, dispatch_results}
use s7nodave.ReadRequest.Kept.{AreInPlace}
use s7nodave.ReadRequest.Stored.{send_request_to_plc-AreInPlace}
use s7nodave.ReadRequest.Termination.{send_request_to_plc-enough}
use s7nodave.ReadRequest.{Client, Sent, send_request_to_plc}

-- An item that can hand down its result.
abbrev pub CanHand : ReadItem → Type 0
CanHand i = IsNested i × IsReady i.header

pub write_back-CanHand :
    (items : List ReadItem) (store : List Header)
    → All IsNested items
    → AreInPlace (map (λ i. i.header) items) store
    → All CanHand (write_back items store)
write_back-CanHand [] [] ns a = tt
write_back-CanHand [] (x ∷ store) ns a = tt
write_back-CanHand (i ∷ items) [] ns a = absurd a
write_back-CanHand (i ∷ items) (x ∷ store) (n, ns) (s, a) =
    ((AreNested-same i.header x i.children s.same n, s.ready), write_back-CanHand items store ns a)

dispatch_results_total :
    (items : List ReadItem)
    → All CanHand items
    → (final : List ReadItem) × (dispatch_results items ≡ some final)
unfolding dispatch_results
dispatch_results_total [] h = ([], refl)
dispatch_results_total (i ∷ items) ((n, ready), h) =
    let (children, e) = dispatch_total i.header i.children n ready in
    let (final, k) = dispatch_results_total items h in
    (record i { children = children } ∷ final, rw (e, k))

pub AreReady :
    (items : List ReadItem)
    → All (λ i. IsUnread i.header) items
    → All IsReady (map (λ i. i.header) items)
AreReady [] us = tt
AreReady (i ∷ items) (u, us) = ((λ e. inl u), AreReady items us)

-- A status that is a connection error is no success.
error_status : (n : ℕ) → (n == 0) ≡ true → is_connection_error n ≡ false
error_status n e = ground arith

-- What the status says of the connection.
abbrev pub IsHonest : PortDriver → MultiOutcome → Type 0
IsHonest d o =
    (is_success o.status ≡ true → (d.connected ≡ true) × (o.driver ≡ d))
    × (d.connected ≡ false → (o.status ≡ disconnected) × (o.driver ≡ d))

success_kept : (n : ℕ) → is_success (status_of n) ≡ true → is_connection_error n ≡ false
success_kept n e = ground arith

outcome_of-IsHonest :
    (d : PortDriver) (chain : List Request) (sent : Sent) (final : List ReadItem)
    → d.connected ≡ true
    → IsHonest d (outcome_of d chain sent final)
unfolding outcome_of
outcome_of-IsHonest d chain sent final connected =
    (λ k. (connected, rw (success_kept sent.status k) refl), λ k. cc)

pub finish_read-outcome_of :
    (d : PortDriver) (chain : List Request) (items : List ReadItem) (sent : Sent)
    {final : List ReadItem}
    → dispatch_results (write_back items sent.store) ≡ some final
    → finish_read d chain items sent ≡ some (outcome_of d chain sent final)
unfolding finish_read
finish_read-outcome_of d chain items sent e = rw e refl

pub read_items-finish_read :
    (malloc : ℕ → Option Bytes) (client : Client) (pdu_length : ℕ) (d : PortDriver)
    (chain : List Request)
    → (items : List ReadItem)
    → items ≡ create_optimized_list malloc (payload_of_optimizer pdu_length) chain
    → {sent : Sent}
    → send_request_to_plc client pdu_length (rounds (length items)) (map (λ i. i.header) items)
      ≡ some sent
    → read_items malloc client pdu_length d chain ≡ finish_read d chain items sent
unfolding read_items
read_items-finish_read malloc client pdu_length d chain items k e = rw (sym k, e) refl

pub connected-read_items :
    (malloc : ℕ → Option Bytes) (client : Client) (pdu_length : ℕ) (d : PortDriver)
    (chain : List Request)
    → not d.connected ≡ false
    → asyn_plc_read_multiple_items malloc client pdu_length d chain
      ≡ read_items malloc client pdu_length d chain
unfolding asyn_plc_read_multiple_items
connected-read_items malloc client pdu_length d chain e = rw e refl

-- The outcome for a driver that is not connected.
abbrev pub refused : PortDriver → List Request → MultiOutcome
refused d chain = record {
  driver = d;
  status = disconnected;
  requests = set_all_bytes_read_to_zero chain;
  plc_calls = [];
  calls = [];
}

pub closed-refused :
    (malloc : ℕ → Option Bytes) (client : Client) (pdu_length : ℕ) (d : PortDriver)
    (chain : List Request)
    → not d.connected ≡ true
    → asyn_plc_read_multiple_items malloc client pdu_length d chain ≡ some (refused d chain)
unfolding asyn_plc_read_multiple_items
closed-refused malloc client pdu_length d chain e = rw e refl

read_items_total :
    (malloc : ℕ → Option Bytes) (client : Client) (pdu_length : ℕ) (d : PortDriver)
    (chain : List Request)
    → All (λ r. r.bytes_read ≡ 0) chain
    → (sent : Sent) × (final : List ReadItem) × (read_items malloc client pdu_length d chain
        ≡ some (outcome_of d chain sent final))
read_items_total malloc client pdu_length d chain unread =
    let max = payload_of_optimizer pdu_length in
    let items = create_optimized_list malloc max chain in
    let headers = map (λ i. i.header) items in
    let (sent, e) =
      send_request_to_plc-enough client pdu_length (rounds (length items)) headers
        (rw (length-map (λ i. i.header) items) (omega arith)) in
    let ready = AreReady items (create_optimized_list-AreUnread malloc max chain unread) in
    let stored =
      send_request_to_plc-AreInPlace client pdu_length (rounds (length items)) headers ready e in
    let (final, f) = dispatch_results_total (write_back items sent.store) (
      write_back-CanHand items sent.store (create_optimized_list-IsNested malloc max chain)
        stored) in
    (
      sent,
      final,
      read_items-finish_read malloc client pdu_length d chain items refl e
          ∙ finish_read-outcome_of d chain items sent f,
    )

pub asyn_plc_read_multiple_items_total :
    (malloc : ℕ → Option Bytes) (client : Client) (pdu_length : ℕ) (d : PortDriver)
    (chain : List Request)
    → All (λ r. r.bytes_read ≡ 0) chain
    → (o : MultiOutcome) × (asyn_plc_read_multiple_items malloc client pdu_length d chain ≡ some o)
      × IsHonest d o
asyn_plc_read_multiple_items_total malloc client pdu_length d chain unread =
    elim (Bool-cases d.connected) [
      | inl connected ↦
          let (sent, final, e) = read_items_total malloc client pdu_length d chain unread in
          (
            outcome_of d chain sent final,
            connected-read_items malloc client pdu_length d chain (ap not connected) ∙ e,
            outcome_of-IsHonest d chain sent final connected,
          )
      | inr closed ↦ (
        refused d chain,
        closed-refused malloc client pdu_length d chain (ap not closed),
        (λ k. cc, λ k. (refl, refl)),
      )
    ]
