-- ===== src/MultipleRead/Tests.antt =====
-- A driver that reads two requests at once, and the theorem at it.
use s7nodave.Asyn.{db, success, is_success}
use s7nodave.MultipleRead.Memory.{IsTrueRequest, range_of}
use s7nodave.MultipleRead.Positions.{positions, serving_client, serving_client-IsServing}
use s7nodave.MultipleRead.Truth.{asyn_plc_read_multiple_items-AreTrue}
use s7nodave.MultipleRead.{
  MultiOutcome, asyn_plc_read_multiple_items, read_items, finish_read, outcome_of,
}
use s7nodave.PortDriver.{PortDriver}
use s7nodave.Prelude.{ℕ, ◌≡◌, refl, true, none, some, Option, List, [], ◌∷◌, pos, Bytes, map, All}
use s7nodave.ReadItem.{
  Request, compare_start_byte, includes_no_area_check, add_read_items, extend, resize, new_item,
  of_request, copy_result, dispatch_read_result_to_children,
}
use s7nodave.ReadOptimizer.{
  create_optimized_list, dispatch_results, absorb, absorb_all, add_to_group, close_block,
  collect_block, group_requests, insert_item, join_blocks, optimize_groups, optimize_within_area,
  sort_items,
}
use s7nodave.ReadRequest.{
  Client, send_request_to_plc, step, place_next, place, go_on, send_pdu, process_plc_read_result,
  data_item, send_loop,
}

abbrev ask : ℕ → ℕ → Request
ask start count = record {
  area = db;
  area_number = pos 1;
  start_byte = start;
  read_bytes = count;
  buffer = some (0 ∷ 0 ∷ []);
  bytes_read = 0;
  status = success;
}

abbrev chain : List Request
chain = ask 2 2 ∷ ask 0 2 ∷ []

abbrev malloc : ℕ → Option Bytes
malloc n = some (0 ∷ 0 ∷ 0 ∷ 0 ∷ [])

-- Each call has this status; four bytes are written for each item.
abbrev client : ℕ → Client
client n = record {
  read_multi_vars =
      λ k asked. record { status = n; result = λ i. 0; bytes = λ i. 5 ∷ 6 ∷ 7 ∷ 8 ∷ [] };
  read_area = λ k asked. (n, 5 ∷ 6 ∷ 7 ∷ 8 ∷ []);
}

abbrev driver : PortDriver
driver = record {
  connected = true;
  port_name = [];
  plc_hostname = [];
  plc_port = pos 102;
  plc_rack = pos 0;
  plc_slot = pos 2;
  priority = 0;
  registered = true;
}

asyn_plc_read_multiple_items-AreTrue_example :
    (o : MultiOutcome) × (asyn_plc_read_multiple_items malloc serving_client 240 driver chain
      ≡ some o)
    × (is_success o.status ≡ true
        → (map range_of o.requests ≡ map range_of chain) × All (IsTrueRequest positions) o.requests)
asyn_plc_read_multiple_items-AreTrue_example =
    asyn_plc_read_multiple_items-AreTrue positions malloc serving_client 240 driver chain
      serving_client-IsServing (refl, (refl, tt))

abbrev requests_of_outcome : Option MultiOutcome → Option (List Request)
requests_of_outcome none = none
requests_of_outcome (some o) = some o.requests

-- Both requests are read completely, at once.
reads_both :
    requests_of_outcome (asyn_plc_read_multiple_items malloc serving_client 240 driver chain)
    ≡ some (
        record (ask 2 2) { bytes_read = 2; buffer = some (2 ∷ 3 ∷ []) }
        ∷ record (ask 0 2) { bytes_read = 2; buffer = some (0 ∷ 1 ∷ []) }
        ∷ [])
unfolding compare_start_byte includes_no_area_check add_read_items extend resize new_item of_request
    copy_result dispatch_read_result_to_children send_request_to_plc step place_next place go_on
    send_pdu process_plc_read_result data_item send_loop asyn_plc_read_multiple_items read_items
    finish_read outcome_of create_optimized_list dispatch_results absorb absorb_all add_to_group
    close_block collect_block group_requests insert_item join_blocks optimize_groups
    optimize_within_area sort_items
reads_both = refl
