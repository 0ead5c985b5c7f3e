-- ===== src/MultipleRead.antt =====
-- s7nodaveApp/src/PortDriver.cc, `asynPlcReadMultipleItems`: a chain of requests is joined to a list
-- of items, the list is sent, and the results are handed back to the requests.
pub mod Totality
pub mod Lengths
pub mod Memory
pub mod Owners
pub mod Positions
pub mod Truth
mod Tests
use s7nodave.Asyn.{AsynStatus, success, error, disconnected}
use s7nodave.PortDriver.{PortDriver, Call, is_connection_error, asyn_disconnect}
use s7nodave.Prelude.{
  ℕ, zero, suc, ◌+◌, ◌*◌, ◌^◌, Bool, ltb, true, false, not, Option, none, some, ◌>>=◌, List, [],
  ◌∷◌, Bytes, map, length, ◌==◌, if◌then◌else◌,
}
use s7nodave.ReadItem.{
  Header, Owner, internal, request, Forest, nil, cons, forest_of, ReadItem, Request,
}
use s7nodave.ReadOptimizer.{create_optimized_list, dispatch_results}
use s7nodave.ReadRequest.{Client, PlcCall, Sent, max_size_of_payload, send_request_to_plc}

-- The driver, the status and the requests afterwards, and the calls that were made of the client.
pub record MultiOutcome : Type 0 where
  pub driver : PortDriver
  pub status : AsynStatus
  pub requests : List Request
  pub plc_calls : List PlcCall
  pub calls : List Call

-- The code does this for every rest of the chain, with the same effect.
abbrev pub set_all_bytes_read_to_zero : List Request → List Request
set_all_bytes_read_to_zero [] = []
set_all_bytes_read_to_zero (r ∷ chain) =
    record r { bytes_read = 0 } ∷ set_all_bytes_read_to_zero chain

-- The items in the list are those of the store.
abbrev pub write_back : List ReadItem → List Header → List ReadItem
write_back (i ∷ items) (h ∷ store) = record i { header = h } ∷ write_back items store
write_back items [] = items
write_back [] store = []

-- An item of the caller writes through its references to the request.
abbrev pub write_request : ℕ → Header → List Request → List Request
write_request n h [] = []
write_request zero h (r ∷ chain) =
    record r { bytes_read = h.bytes_read; status = h.status; buffer = h.buffer } ∷ chain
write_request (suc n) h (r ∷ chain) = r ∷ write_request n h chain

abbrev pub write_owner : Header → List Request → List Request
write_owner h chain = elim h.owner [ internal ↦ chain | request n ↦ write_request n h chain ]

abbrev pub write_requests : Forest → List Request → List Request
write_requests nil chain = chain
write_requests (cons h below rest) chain =
    write_requests rest (write_requests below (write_owner h chain))

-- The size of the payload for the optimiser, which takes it as a C integer: from 2^31 on it is negative, for a
-- PDU of less than 14 bytes, and then no items are joined, as for 0.
abbrev pub payload_of_optimizer : ℕ → ℕ
payload_of_optimizer pdu_length =
    let size = max_size_of_payload pdu_length in if ltb size (2 ^ 31) then size else 0

-- Enough rounds for so many items.
abbrev pub rounds : ℕ → ℕ
rounds n = n * (2 * n + 2) + n + 1

abbrev pub status_of : ℕ → AsynStatus
status_of status = if status == 0 then success else error

-- What is returned for the items that hold their results: the connection may be given up.
unfoldable pub outcome_of : PortDriver → List Request → Sent → List ReadItem → MultiOutcome
outcome_of d chain sent final =
    let o = asyn_disconnect d in
    let lost = is_connection_error sent.status in
    record {
      driver = if lost then o.driver else d;
      status = status_of sent.status;
      requests = write_requests (forest_of final) chain;
      plc_calls = sent.calls;
      calls = if lost then o.calls else [];
    }

-- What follows the sending.
unfoldable pub finish_read : PortDriver → List Request → List ReadItem → Sent → Option MultiOutcome
finish_read d chain items sent = do
  final ← dispatch_results (write_back items sent.store)
  some (outcome_of d chain sent final)

-- The body for a driver that is connected.
unfoldable pub read_items :
    (ℕ → Option Bytes) → Client → ℕ → PortDriver → List Request → Option MultiOutcome
read_items malloc client pdu_length d chain = do
  let items = create_optimized_list malloc (payload_of_optimizer pdu_length) chain
  sent ← send_request_to_plc client pdu_length (rounds (length items)) (map (λ i. i.header) items)
  finish_read d chain items sent

unfoldable pub asyn_plc_read_multiple_items :
    (ℕ → Option Bytes) → Client → ℕ → PortDriver → List Request → Option MultiOutcome
asyn_plc_read_multiple_items malloc client pdu_length d chain =
    if not d.connected
    then some (record {
      driver = d;
      status = disconnected;
      requests = set_all_bytes_read_to_zero chain;
      plc_calls = [];
      calls = [];
    })
    else read_items malloc client pdu_length d chain
