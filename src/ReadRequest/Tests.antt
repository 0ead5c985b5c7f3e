-- ===== src/ReadRequest/Tests.antt =====
-- Three items, of which one is empty and one is too large for a PDU, and the theorems at them.
use s7nodave.Asyn.{db, success}
use s7nodave.Prelude.{ℕ, ◌≡◌, refl, some, List, [], ◌∷◌, pos, All, map, arith}
use s7nodave.ReadItem.{Header, internal}
use s7nodave.ReadRequest.Limits.{send_request_to_plc-IsLegal}
use s7nodave.ReadRequest.Sizes.{IsLegal}
use s7nodave.ReadRequest.Termination.{send_request_to_plc-enough}
use s7nodave.ReadRequest.{
  Client, multi_vars, one_area, Sent, data_item, send_request_to_plc, step, send_pdu, place,
  place_next, go_on, process_plc_read_result,
}

abbrev item : ℕ → ℕ → Header
item start count = record {
  area = db;
  area_number = pos 1;
  start_byte = start;
  read_bytes = count;
  owner = internal;
  bytes_read = 0;
  status = success;
  buffer = some (0 ∷ 0 ∷ []);
}

abbrev items : List Header
items = item 0 2 ∷ item 8 0 ∷ item 10 300 ∷ item 400 1 ∷ []

-- Each call succeeds, and two bytes are written for each item.
abbrev client : Client
client = record {
  read_multi_vars = λ n asked. record { status = 0; result = λ i. 0; bytes = λ i. 5 ∷ 6 ∷ [] };
  read_area = λ n asked. (0, 7 ∷ 8 ∷ []);
}

-- The large item waits until the PDU is sent, and is then read alone.
sends :
    (r : Sent) × (send_request_to_plc client 240 60 items ≡ some r)
    × (r.calls
        ≡ multi_vars (data_item (item 0 2) ∷ data_item (item 400 1) ∷ [])
          ∷ one_area (data_item (item 10 300))
          ∷ [])
    × (map (λ h. h.bytes_read) r.store ≡ 2 ∷ 0 ∷ 0 ∷ 1 ∷ [])
unfolding send_request_to_plc step send_pdu place place_next go_on process_plc_read_result data_item
sends = (_, refl, refl, refl)

send_request_to_plc-enough_example : (r : Sent) × (send_request_to_plc client 240 60 items ≡ some r)
send_request_to_plc-enough_example = send_request_to_plc-enough client 240 60 items (omega arith)

send_request_to_plc-IsLegal_example :
    (r : Sent) × (send_request_to_plc client 240 60 items ≡ some r) × All (IsLegal 240) r.calls
send_request_to_plc-IsLegal_example =
    send_request_to_plc-IsLegal client 240 60 items (omega arith) (omega arith) (omega arith)
