-- ===== src/ReadRequest.antt =====
-- s7nodaveApp/src/PortDriver.cc, `sendRequestToPlc`: the items of an optimised list are sent in as
-- many requests as the size of a PDU needs.
-- The items stand in a store, and a list entry has the number of its item, as the code shares them by
-- pointers. The client is a parameter: its answer to a call, by the number of calls before. A PDU has
-- at least 12 bytes.
pub mod Termination
pub mod Induction
pub mod Sizes
pub mod Limits
pub mod Kept
pub mod Stored
mod Tests
use s7nodave.PortDriver.{area_to_snap7_area, WordLength, wl_byte}
use s7nodave.Prelude.{
  ℕ, zero, suc, ◌+◌, ◌-◌, ◌*◌, ◌/◌, ◌%◌, ◌^◌, min, Bool, true, false, not, ◌&&◌, ◌||◌, Option, none,
  some, List, [], ◌∷◌, ◌++◌, map, Bytes, ltb, leb, ◌==◌, if◌then◌else◌, is_empty, length, drop, ℤ,
}
use s7nodave.ReadItem.{Header, set_bytes_read, set_error_status}
use s7nodave.Asyn.{error}

-- `TS7DataItem`, as far as the client reads it.
pub record DataItem : Type 0 where
  pub area : ℕ
  pub db_number : ℤ
  pub start : ℕ
  pub amount : ℕ
  pub word_length : WordLength

unfoldable pub data_item : Header → DataItem
data_item h = record {
  area = area_to_snap7_area h.area;
  db_number = h.area_number;
  start = h.start_byte;
  amount = h.read_bytes;
  word_length = wl_byte;
}

-- The answer to `ReadMultiVars`: a status, and for each item a result and the bytes written.
pub record Answer : Type 0 where
  pub status : ℕ
  pub result : ℕ → ℕ
  pub bytes : ℕ → Bytes

pub record Client : Type 0 where
  pub read_multi_vars : ℕ → List DataItem → Answer
  pub read_area : ℕ → DataItem → ℕ × Bytes

pub data PlcCall : Type 0 where
  multi_vars : List DataItem → PlcCall
  one_area : DataItem → PlcCall

-- An item of a list: its number in the store, and its header.
abbrev pub Entry : Type 0
Entry = ℕ × Header

-- `behind` and `ahead` are the items in front of the iterator and those from it on.
pub record Sending : Type 0 where
  pub behind : List Entry
  pub ahead : List Entry
  pub items_in_pdu : List Entry
  pub items_left : ℕ
  pub bytes_left : ℕ
  pub have_sent : Bool
  pub store : List Header
  pub calls : List PlcCall

pub record Sent : Type 0 where
  pub status : ℕ
  pub store : List Header
  pub calls : List PlcCall

pub data Step : Type 0 where
  going : Sending → Step
  finished : Sent → Step

abbrev pub update : ℕ → (Header → Header) → List Header → List Header
update n f [] = []
update zero f (h ∷ store) = f h ∷ store
update (suc n) f (h ∷ store) = h ∷ update n f store

-- The client has written these bytes to the buffer.
abbrev pub fill : Bytes → Header → Header
fill bytes h = elim h.buffer [
  | none ↦ h
  | some old ↦ record h { buffer = some (bytes ++ drop (length bytes) old) }
]

-- The loop of `processPlcReadResult` from a position on.
unfoldable pub process_plc_read_result : Answer → ℕ → List Entry → List Header → List Header
process_plc_read_result a position [] store = store
process_plc_read_result a position ((n, h) ∷ items) store =
    process_plc_read_result a (position + 1) items (
      update n
        (λ x.
          if a.result position == 0
          then set_bytes_read (fill (a.bytes position) x) (min (data_item h).amount x.read_bytes)
          else set_error_status x error)
        store)

unfoldable pub set_all_zero : List Entry → List Header → List Header
set_all_zero [] store = store
set_all_zero ((n, h) ∷ items) store = set_all_zero items (update n (λ x. set_bytes_read x 0) store)

-- The bytes of an item in the response: an even number, and its header.
abbrev pub effective_read_bytes : ℕ → ℕ
effective_read_bytes read_bytes = (if read_bytes % 2 == 0 then read_bytes else read_bytes + 1) + 4

abbrev pub sent : ℕ → Sending → Sent
sent status s = record { status = status; store = s.store; calls = s.calls }

abbrev pub max_size_of_payload : ℕ → ℕ
max_size_of_payload pdu_length = (pdu_length + 2 ^ 32 - 14) % 2 ^ 32

abbrev pub max_number_of_items : ℕ → ℕ
max_number_of_items pdu_length = min ((pdu_length - 12) / 12) 20

abbrev pub no_items : Sending → Bool
no_items s = is_empty s.behind && is_empty s.ahead

abbrev pub must_send : Sending → Bool
must_send s =
    s.items_left == 0 || (ltb s.bytes_left 6 || (is_empty s.ahead && not s.have_sent || no_items s))

-- The items with their numbers, from one on.
abbrev pub entries : ℕ → List Header → List Entry
entries n [] = []
entries n (h ∷ items) = (n, h) ∷ entries (n + 1) items

abbrev pub start_sending : ℕ → List Header → Sending
start_sending pdu_length items = record {
  behind = [];
  ahead = entries 0 items;
  items_in_pdu = [];
  items_left = max_number_of_items pdu_length;
  bytes_left = max_size_of_payload pdu_length;
  have_sent = false;
  store = items;
  calls = [];
}

module _ (client : Client) (pdu_length : ℕ) where
  -- The items in the PDU are asked for.
  unfoldable pub send_pdu : Sending → Step
  send_pdu s =
      let asked = map (λ e. data_item e.1) s.items_in_pdu in
      let answer = client.read_multi_vars (length s.calls) asked in
      let calls = s.calls ++ multi_vars asked ∷ [] in
      elim (answer.status == 0) [
        | true ↦ going (record s {
          store = process_plc_read_result answer 0 s.items_in_pdu s.store;
          calls = calls;
          bytes_left = max_size_of_payload pdu_length;
          items_left = max_number_of_items pdu_length;
          items_in_pdu = [];
          have_sent = true;
        })
        | false ↦ finished (record {
          status = answer.status;
          store = set_all_zero (s.behind ++ (s.ahead ++ s.items_in_pdu)) s.store;
          calls = calls;
        })
      ]

  -- The item at the iterator, with those behind it: it is skipped, put into the PDU, read by a call
  -- of its own, or left for later.
  unfoldable pub place : Sending → Entry → List Entry → Step
  place s (n, h) rest = elim (h.read_bytes == 0) [
    | true ↦ going (record s { store = update n (λ x. set_bytes_read x 0) s.store; ahead = rest })
    | false ↦ elim (leb (effective_read_bytes h.read_bytes) s.bytes_left) [
      | true ↦ going (record s {
        items_in_pdu = s.items_in_pdu ++ (n, h) ∷ [];
        bytes_left = s.bytes_left - effective_read_bytes h.read_bytes;
        items_left = (s.items_left + 2 ^ 32 - 1) % 2 ^ 32;
        ahead = rest;
      })
      | false ↦ elim (s.bytes_left == max_size_of_payload pdu_length) [
        | true ↦
            let answer = client.read_area (length s.calls) (data_item h) in
            let calls = s.calls ++ one_area (data_item h) ∷ [] in
            let store = update n (fill answer.1) s.store in
            elim (answer.0 == 0) [
              | true ↦ going (record s { store = store; calls = calls; ahead = rest })
              | false ↦ finished (record { status = answer.0; store = store; calls = calls })
            ]
        | false ↦ going (record s { behind = s.behind ++ (n, h) ∷ []; ahead = rest })
      ]
    ]
  ]

  -- At the end of the list the iterator goes back to its beginning. The list is not empty here.
  unfoldable pub place_next : Sending → List Entry → List Entry → Step
  place_next s behind (e ∷ rest) = place s e rest
  place_next s (e ∷ rest) [] = place (record s { behind = []; have_sent = false }) e rest
  place_next s [] [] = finished (sent 0 s)

  -- What follows the sending of a PDU, or stands alone.
  unfoldable pub go_on : Step → Step
  go_on (finished r) = finished r
  go_on (going s) = elim (no_items s) [
    | true ↦ finished (sent 0 s)
    | false ↦ place_next s s.behind s.ahead
  ]

  unfoldable pub step : Sending → Step
  step s = elim (no_items s && is_empty s.items_in_pdu) [
    | true ↦ finished (sent 0 s)
    | false ↦ elim (must_send s) [
      | true ↦ go_on (send_pdu s)
      | false ↦ place_next s s.behind s.ahead
    ]
  ]

  unfoldable pub send_loop : ℕ → Sending → Option Sent
  send_loop zero s = none
  send_loop (suc fuel) s = elim (step s) [ finished r ↦ some r | going s' ↦ send_loop fuel s' ]

  unfoldable pub send_request_to_plc : ℕ → List Header → Option Sent
  unfolding send_loop
  send_request_to_plc fuel items = send_loop fuel (start_sending pdu_length items)
