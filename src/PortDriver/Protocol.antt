-- ===== src/PortDriver/Protocol.antt =====
-- The protocol between asyn, s7nodaveApp/src/PortDriver.cc and its client, followed by each callback.
use s7nodave.PortDriver.{
  Call, connect_to, client_disconnect, exception_connect, exception_disconnect, read_area,
  write_area, WordLength, PortDriver, Outcome, asyn_connect, asyn_disconnect, is_connection_error,
  after_error, ask_client, asyn_plc_read, asyn_plc_write, asyn_plc_write_bit,
}
use s7nodave.PortDriver.Callbacks.{
  DriverEvent, driver_call, plc_call, Operation, connect, disconnect, plc_read,
  plc_read_multiple_items, plc_write, plc_write_bit, Performed, of_outcome, of_items, perform,
}
use s7nodave.MultipleRead.{
  payload_of_optimizer, MultiOutcome, asyn_plc_read_multiple_items, read_items, finish_read,
  outcome_of, rounds, write_back,
}
use s7nodave.MultipleRead.Totality.{
  asyn_plc_read_multiple_items_total, connected-read_items, closed-refused, refused,
}
use s7nodave.ReadItem.{Request, ReadItem}
use s7nodave.ReadOptimizer.{create_optimized_list, dispatch_results}
use s7nodave.ReadRequest.{Client, PlcCall, Sent, send_request_to_plc}
use s7nodave.Prelude.{
  ◌≡◌, Bool, true, false, not, ◌||◌, Option, List, [], ◌∷◌, ◌++◌, Bytes, ◌==◌, ℤ, Bool-cases, inl,
  inr, ltb_ℤ, pos, ℕ, refl, sym, ◌∙◌, subst, some, some_inj, >>=-eq-some, map, length, All,
}

-- The calls that may be made from a state of the connection, and the state that they lead to.
pub data Protocol : Bool → List DriverEvent → Bool → Type 0 where
  done : {b : Bool} → Protocol b [] b
  connected_to :
      {b e : Bool} {calls : List DriverEvent} (host : Bytes) (port rack slot : ℤ)
      → Protocol true calls e
      → Protocol b
          (driver_call (connect_to host port rack slot) ∷ driver_call exception_connect ∷ calls)
          e
  not_connected_to :
      {b e : Bool} {calls : List DriverEvent} (host : Bytes) (port rack slot : ℤ)
      → Protocol b calls e
      → Protocol b (driver_call (connect_to host port rack slot) ∷ calls) e
  given_up :
      {e : Bool} {calls : List DriverEvent}
      → Protocol false calls e
      → Protocol true (driver_call client_disconnect ∷ driver_call exception_disconnect ∷ calls) e
  asked_to_read :
      {e : Bool} {calls : List DriverEvent} (area : ℕ) (number start amount : ℤ) (unit : WordLength)
      → Protocol true calls e
      → Protocol true (driver_call (read_area area number start amount unit) ∷ calls) e
  asked_to_write :
      {e : Bool} {calls : List DriverEvent} (area : ℕ) (number start amount : ℤ) (unit : WordLength)
      (buffer : Bytes)
      → Protocol true calls e
      → Protocol true (driver_call (write_area area number start amount unit buffer) ∷ calls) e
  asked_for_items :
      {e : Bool} {calls : List DriverEvent} (items : PlcCall)
      → Protocol true calls e
      → Protocol true (plc_call items ∷ calls) e

pub Protocol-append :
    {a b c : Bool} {first later : List DriverEvent}
    → Protocol a first b
    → Protocol b later c
    → Protocol a (first ++ later) c
Protocol-append done q = q
Protocol-append (connected_to h p r s t) q = connected_to h p r s (Protocol-append t q)
Protocol-append (not_connected_to h p r s t) q = not_connected_to h p r s (Protocol-append t q)
Protocol-append (given_up t) q = given_up (Protocol-append t q)
Protocol-append (asked_to_read a n s m u t) q = asked_to_read a n s m u (Protocol-append t q)
Protocol-append (asked_to_write a n s m u b t) q = asked_to_write a n s m u b (Protocol-append t q)
Protocol-append (asked_for_items i t) q = asked_for_items i (Protocol-append t q)

-- An outcome follows the protocol from a state of the connection.
record Follows (b : Bool) (o : Outcome) : Type 0 where
  trace : Protocol b (map driver_call o.calls) o.driver.connected

-- Calls that need a connection, behind the test for it.
Protocol-connected :
    {b e : Bool} {calls : List DriverEvent}
    → not b ≡ false
    → Protocol true calls e
    → Protocol b calls e
Protocol-connected {b = true} h t = t
Protocol-connected {b = false} h t = cc

Protocol-stays :
    {b : Bool} {calls : List DriverEvent}
    → not b ≡ false
    → Protocol true calls true
    → Protocol b calls b
Protocol-stays {b = true} h t = t
Protocol-stays {b = false} h t = cc

asyn_connect-Follows :
    (resolve : Bytes → Bytes) (client : Call → ℕ) (d : PortDriver)
    → Follows d.connected (asyn_connect resolve client d)
unfolding asyn_connect
asyn_connect-Follows resolve client d =
    elim (Bool-cases (not (ltb_ℤ (pos 0) d.plc_port) || ltb_ℤ (pos 65535) d.plc_port)) [
      | inl refused ↦ rw refused (record { trace = done })
      | inr valid ↦
          let call = connect_to (resolve d.plc_hostname) d.plc_port d.plc_rack d.plc_slot in
          elim (Bool-cases (client call == 0)) [
            | inl made ↦ rw (valid, made) (record { trace = connected_to _ _ _ _ done })
            | inr failed ↦ rw (valid, failed) (record { trace = not_connected_to _ _ _ _ done })
          ]
    ]

asyn_disconnect-Follows : (d : PortDriver) → Follows d.connected (asyn_disconnect d)
unfolding asyn_disconnect
asyn_disconnect-Follows d = elim (Bool-cases (not d.connected)) [
  | inl closed ↦ rw closed (record { trace = done })
  | inr alive ↦ rw alive (record { trace = Protocol-connected alive (given_up done) })
]

-- A call that may be made whenever the driver is connected.
abbrev IsAsked : Call → Type 0
IsAsked asked =
    (e : Bool) (calls : List DriverEvent)
    → Protocol true calls e
    → Protocol true (driver_call asked ∷ calls) e

after_error-Follows :
    (d : PortDriver) (call : Call) (status : ℕ)
    → IsAsked call
    → not d.connected ≡ false
    → Follows d.connected (after_error d call status)
unfolding after_error asyn_disconnect
after_error-Follows d call status asked alive = elim (Bool-cases (is_connection_error status)) [
  | inl lost ↦
      rw (lost, alive) (record { trace = Protocol-connected alive (asked _ _ (given_up done)) })
  | inr kept ↦ rw kept (record { trace = Protocol-stays alive (asked _ _ done) })
]

ask_client-Follows :
    (client : Call → ℕ) (d : PortDriver) (call : Call) (count : Option ℤ)
    → IsAsked call
    → Follows d.connected (ask_client client d call count)
unfolding ask_client
ask_client-Follows client d call count asked = elim (Bool-cases (not d.connected)) [
  | inl closed ↦ rw closed (record { trace = done })
  | inr alive ↦ elim (Bool-cases (client call == 0)) [
    | inl made ↦ rw (alive, made) (record { trace = Protocol-stays alive (asked _ _ done) })
    | inr failed ↦ rw (alive, failed) (after_error-Follows d call (client call) asked alive)
  ]
]

-- A read of several items follows the protocol.
Protocol-of_items : Bool → MultiOutcome → Type 0
Protocol-of_items b o = Protocol b (of_items o).events o.driver.connected

asked_for_all :
    (items : List PlcCall) {e : Bool} {calls : List DriverEvent}
    → Protocol true calls e
    → Protocol true (map plc_call items ++ calls) e
asked_for_all [] t = t
asked_for_all (i ∷ items) t = asked_for_items i (asked_for_all items t)

outcome_of-Follows :
    (d : PortDriver) (chain : List Request) (sent : Sent) (final : List ReadItem)
    → not d.connected ≡ false
    → Protocol-of_items d.connected (outcome_of d chain sent final)
unfolding outcome_of asyn_disconnect Protocol-of_items
outcome_of-Follows d chain sent final alive = elim (Bool-cases (is_connection_error sent.status)) [
  | inl lost ↦
      rw (lost, alive) (Protocol-connected alive (asked_for_all sent.calls (given_up done)))
  | inr kept ↦ rw kept (Protocol-stays alive (asked_for_all sent.calls done))
]

read_items-Follows :
    (malloc : ℕ → Option Bytes) (client : Client) (pdu_length : ℕ) (d : PortDriver)
    (chain : List Request) {o : MultiOutcome}
    → not d.connected ≡ false
    → read_items malloc client pdu_length d chain ≡ some o
    → Protocol-of_items d.connected o
unfolding read_items finish_read
read_items-Follows malloc client pdu_length d chain alive e =
    let items = create_optimized_list malloc (payload_of_optimizer pdu_length) chain in
    let (sent, sending, k) =
      >>=-eq-some
        (send_request_to_plc client pdu_length (rounds (length items)) (map (λ i. i.header) items))
        _ e in
    let (final, dispatched, l) = >>=-eq-some (dispatch_results (write_back items sent.store)) _ k in
    subst (Protocol-of_items d.connected) (some_inj l) (outcome_of-Follows d chain sent final alive)

asyn_plc_read_multiple_items-Follows :
    (malloc : ℕ → Option Bytes) (client : Client) (pdu_length : ℕ) (d : PortDriver)
    (chain : List Request) {o : MultiOutcome}
    → asyn_plc_read_multiple_items malloc client pdu_length d chain ≡ some o
    → Protocol-of_items d.connected o
unfolding Protocol-of_items
asyn_plc_read_multiple_items-Follows malloc client pdu_length d chain e =
    elim (Bool-cases (not d.connected)) [
      | inl closed ↦
          subst (Protocol-of_items d.connected)
            (some_inj (sym (closed-refused malloc client pdu_length d chain closed) ∙ e)) done
      | inr alive ↦
          read_items-Follows malloc client pdu_length d chain alive
            (sym (connected-read_items malloc client pdu_length d chain alive) ∙ e)
    ]

-- Nothing has been read of the items that are asked for.
abbrev pub IsUnreadOperation : Operation → Type 0
IsUnreadOperation (plc_read_multiple_items malloc client pdu_length chain) =
    All (λ r. r.bytes_read ≡ 0) chain
IsUnreadOperation _ = Unit

-- A callback returns and follows the protocol.
abbrev pub Returns : Operation → PortDriver → Type 0
Returns o d =
    (p : Performed) × (perform o d ≡ some p) × Protocol d.connected p.events p.driver.connected

pub perform-Returns : (o : Operation) (d : PortDriver) → IsUnreadOperation o → Returns o d
unfolding perform asyn_plc_read asyn_plc_write asyn_plc_write_bit Protocol-of_items
perform-Returns (connect resolve client) d u = (
  of_outcome (asyn_connect resolve client d),
  refl,
  (asyn_connect-Follows resolve client d).trace,
)
perform-Returns disconnect d u =
    (of_outcome (asyn_disconnect d), refl, (asyn_disconnect-Follows d).trace)
perform-Returns (plc_read client area number start n) d u = (
  of_outcome (asyn_plc_read client d area number start n),
  refl,
  (ask_client-Follows client d _ _ (λ e calls. asked_to_read _ _ _ _ _)).trace,
)
perform-Returns (plc_read_multiple_items malloc client pdu_length chain) d u =
    let (o, e, honest) = asyn_plc_read_multiple_items_total malloc client pdu_length d chain u in
    (of_items o, rw e refl, asyn_plc_read_multiple_items-Follows malloc client pdu_length d chain e)
perform-Returns (plc_write client area number start n buffer) d u = (
  of_outcome (asyn_plc_write client d area number start n buffer),
  refl,
  (ask_client-Follows client d _ _ (λ e calls. asked_to_write _ _ _ _ _ _)).trace,
)
perform-Returns (plc_write_bit client area number start start_bit value) d u = (
  of_outcome (asyn_plc_write_bit client d area number start start_bit value),
  refl,
  (ask_client-Follows client d _ _ (λ e calls. asked_to_write _ _ _ _ _ _)).trace,
)
