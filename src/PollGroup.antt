-- ===== src/PollGroup.antt =====
-- s7nodaveApp/src/PollGroup.cc: groups of records whose memory is read at once.
-- A requester is a number, in the order of the addresses of the objects. What the requesters ask for
-- and the driver of the port are parameters. The timer of a group and its interval, which only the
-- timer uses, are left out.
pub mod Responses
pub mod Rounds
pub mod Truth
mod Tests
use s7nodave.Asyn.{AsynStatus, success, error, is_success}
use s7nodave.PlcAddress.{PlcAddress}
use s7nodave.Prelude.{
  ℕ, suc, ◌+◌, Bool, true, false, not, ◌&&◌, Option, none, some, ◌>>=◌, List, [], ◌∷◌, ◌++◌, map,
  Bytes, bytes_eq, ltb, ◌==◌, if◌then◌else◌, ℤ, pos, ltb_ℤ, pos_part,
}
use s7nodave.MultipleRead.{MultiOutcome, asyn_plc_read_multiple_items}
use s7nodave.PortDriver.{PortDriver}
use s7nodave.ReadItem.{Request}
use s7nodave.ReadRequest.{Client}
use s7nodave.Record.Input.{PollRequest}
use s7nodave.Record.{RecordStatus, ok, failed}

-- A `std::set` of requesters is a list in ascending order.
unfoldable pub register_requester : ℕ → List ℕ → List ℕ
register_requester r [] = r ∷ []
register_requester r (x ∷ requesters) =
    let rest = register_requester r requesters in
    if r == x then x ∷ requesters else if ltb r x then r ∷ x ∷ requesters else x ∷ rest

unfoldable pub unregister_requester : ℕ → List ℕ → List ℕ
unregister_requester r [] = []
unregister_requester r (x ∷ requesters) =
    let rest = unregister_requester r requesters in if r == x then requesters else x ∷ rest

pub record GroupState : Type 0 where
  pub port_name : Bytes
  pub name : Bytes
  pub priority : ℕ
  pub requesters : List ℕ

-- The groups of all ports; a `std::map` is an association list under the names in the groups.
pub record Groups : Type 0 where
  pub groups : List GroupState
  pub is_started : Bool

abbrev pub is_named : Bytes → Bytes → GroupState → Bool
is_named port name g = bytes_eq g.port_name port && bytes_eq g.name name

unfoldable pub find_group : Bytes → Bytes → List GroupState → Option GroupState
find_group port name [] = none
find_group port name (g ∷ groups) =
    let rest = find_group port name groups in if is_named port name g then some g else rest

-- asyn's answers for the port: the status of the connection, and whether it has the interface.
unfoldable pub init_asyn : AsynStatus → Bool → AsynStatus
init_asyn connected has_interface =
    if is_success connected then if has_interface then success else error else error

unfoldable pub create_group :
    (Bytes → AsynStatus) → (Bytes → Bool) → Bytes → Bytes → ℕ → Groups → Groups
unfolding init_asyn
create_group connect has_interface port name priority s = elim (find_group port name s.groups) [
  | some g ↦ s
  | none ↦
      if is_success (init_asyn (connect port) (has_interface port))
      then record s {
        groups =
            record { port_name = port; name = name; priority = priority; requesters = [] }
            ∷ s.groups;
      }
      else s
]

-- The priority of EPICS's medium threads stands for one that is not positive.
unfoldable pub configure_poll_group :
    ℕ → (Bytes → AsynStatus) → (Bytes → Bool) → Bytes → Bytes → ℤ → Groups → Groups
configure_poll_group medium connect has_interface port name priority s =
    create_group connect has_interface port name
      (if ltb_ℤ (pos 0) priority then pos_part priority else medium) s

-- The groups whose timers are started.
unfoldable pub start_poll_groups : Groups → Groups × List GroupState
start_poll_groups s = if s.is_started then (s, []) else (record s { is_started = true }, s.groups)

-- The requesters of the group with this name are changed.
unfoldable pub change_requesters :
    (List ℕ → List ℕ) → Bytes → Bytes → List GroupState → List GroupState
change_requesters f port name [] = []
change_requesters f port name (g ∷ groups) =
    let rest = change_requesters f port name groups in
    if is_named port name g then record g { requesters = f g.requesters } ∷ groups else g ∷ rest

-- A record joins its group when the command is zero, and leaves it otherwise.
unfoldable pub get_io_int_info_record :
    Bool → Bytes → Bytes → ℕ → ℕ → Groups → Groups × RecordStatus
get_io_int_info_record has_user port name command requester s =
    if not has_user then (s, failed) else elim (find_group port name s.groups) [
      | none ↦ (s, failed)
      | some g ↦ (
        record s {
          groups =
              change_requesters
                (if command == 0
                  then register_requester requester
                  else unregister_requester requester)
                port name s.groups;
        },
        ok,
      )
    ]

-- A request with its requester.
abbrev pub Asked : Type 0
Asked = PollRequest × ℕ

-- What all requesters ask for, one after the other.
unfoldable pub collect_requests : (ℕ → List PollRequest) → List ℕ → List Asked
collect_requests prepare [] = []
collect_requests prepare (r ∷ requesters) =
    map (λ q. (q, r)) (prepare r) ++ collect_requests prepare requesters

-- An item of the chain for the driver. The positions of items are natural numbers: a request whose start byte is
-- negative is outside of the model, which takes it for 0.
abbrev pub item_of : PollRequest → Request
item_of q = record {
  area = q.address.area;
  area_number = q.address.area_number;
  start_byte = pos_part q.address.start_byte;
  read_bytes = q.size;
  buffer = some q.buffer;
  bytes_read = 0;
  status = success;
}

-- The chain, if there is memory for each item; otherwise all items are freed again.
unfoldable pub build_chain : (ℕ → Bool) → ℕ → List Asked → Option (List Request)
build_chain has_room n [] = some []
build_chain has_room n (q ∷ requests) = elim (has_room n) [
  | false ↦ none
  | true ↦ (do rest ← build_chain has_room (n + 1) requests; some (item_of q.0 ∷ rest))
]

-- The port as asyn and the driver show it: the answer to the lock, and the read of a chain.
pub record Port : Type 0 where
  pub lock_port : AsynStatus
  pub read_items : List Request → AsynStatus × List Request

pub data PortCall : Type 0 where
  lock unlock : PortCall
  read_chain : List Request → PortCall

-- The status, the items afterwards, and the calls.
unfoldable pub read_chain_of :
    Port → Option (List Request) → AsynStatus × List Request × List PortCall
read_chain_of port none = (error, [], [])
read_chain_of port (some chain) =
    if is_success port.lock_port
    then (
      (port.read_items chain).0,
      (port.read_items chain).1,
      lock ∷ read_chain chain ∷ unlock ∷ [],
    )
    else (port.lock_port, chain, lock ∷ [])

abbrev pub is_read : AsynStatus → Request → Bool
is_read status r = is_success status && (is_success r.status && r.bytes_read == r.read_bytes)

-- The call of `processResponse` of a requester.
pub record Response : Type 0 where
  pub requester : ℕ
  pub success : Bool
  pub size : ℕ
  pub buffer : Option Bytes

-- Requests and items, as long as there are both.
unfoldable pub responses_of : AsynStatus → List Asked → List Request → List Response
responses_of status [] items = []
responses_of status (q ∷ requests) [] = []
responses_of status ((q, r) ∷ requests) (i ∷ items) =
    record { requester = r; success = is_read status i; size = q.size; buffer = i.buffer }
    ∷ responses_of status requests items

unfoldable pub process_group :
    (ℕ → List PollRequest) → (ℕ → Bool) → Port → List ℕ → List Response × List PortCall
process_group prepare has_room port [] = ([], [])
process_group prepare has_room port (r ∷ requesters) =
    let requests = collect_requests prepare (r ∷ requesters) in
    let (status, items, calls) = read_chain_of port (build_chain has_room 0 requests) in
    (responses_of status requests items, calls)

-- The status of the driver and the items; it always has an outcome for such a chain.
unfoldable pub items_answered : List Request → Option MultiOutcome → AsynStatus × List Request
items_answered chain none = (error, chain)
items_answered chain (some o) = (o.status, o.requests)

-- The port whose driver is that of this program.
unfoldable pub driver_port : (ℕ → Option Bytes) → Client → ℕ → PortDriver → AsynStatus → Port
driver_port malloc client pdu_length d lock_answer = record {
  lock_port = lock_answer;
  read_items =
      λ chain. items_answered chain (asyn_plc_read_multiple_items malloc client pdu_length d chain);
}
