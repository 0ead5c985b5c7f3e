-- ===== src/PortDriver/Tests.antt =====
-- A driver that connects, reads and loses its connection, and the theorems at these callbacks.
use s7nodave.Asyn.{db, AsynStatus, success, is_success}
use s7nodave.Prelude.{
  ℕ, ◌+◌, ◌≤◌, ◌≡◌, refl, true, false, Option, none, some, All, List, [], ◌∷◌, Bytes, codes, pos,
}
use s7nodave.PortDriver.Connection.{
  run-Protocol, run-disconnections, connections, disconnections, up,
  register_port_driver-registered, asyn_connect-connected,
}
use s7nodave.PortDriver.{
  PortDriver, Call, connect_to, client_disconnect, exception_connect, exception_disconnect,
  read_area, wl_byte, new_driver, asyn_connect, asyn_disconnect, asyn_plc_read, ask_client,
  after_error, register_port_driver,
}
use s7nodave.ReadItem.{
  Request, compare_start_byte, includes_no_area_check, add_read_items, extend, resize, new_item,
  of_request, copy_result, dispatch_read_result_to_children,
}
use s7nodave.ReadOptimizer.{
  create_optimized_list, dispatch_results, absorb, absorb_all, add_to_group, close_block,
  collect_block, group_requests, insert_item, join_blocks, optimize_groups, optimize_within_area,
  sort_items,
}
use s7nodave.ReadRequest.{
  Client, DataItem, multi_vars, send_request_to_plc, step, place_next, place, go_on, send_pdu,
  process_plc_read_result, data_item, send_loop, set_all_zero,
}
use s7nodave.MultipleRead.{asyn_plc_read_multiple_items, read_items, finish_read, outcome_of}
use s7nodave.PortDriver.Callbacks.{
  DriverEvent, driver_call, plc_call, Operation, connect, plc_read, plc_read_multiple_items,
  Performed, perform, run,
}
use s7nodave.PortDriver.Protocol.{Protocol, IsUnreadOperation}

abbrev fresh : PortDriver
fresh = record {
  connected = false;
  port_name = codes "plc";
  plc_hostname = codes "host";
  plc_port = pos 102;
  plc_rack = pos 0;
  plc_slot = pos 2;
  priority = 0;
  registered = false;
}

abbrev answers : ℕ → Call → ℕ
answers status call = status

abbrev resolver : Bytes → Bytes
resolver host = host

-- One item, and a client whose calls for items have this status.
abbrev chain : List Request
chain =
    record {
      area = db;
      area_number = pos 1;
      start_byte = 0;
      read_bytes = 2;
      buffer = some (0 ∷ 0 ∷ []);
      bytes_read = 0;
      status = success;
    }
    ∷ []

abbrev client : ℕ → Client
client n = record {
  read_multi_vars = λ k asked. record { status = n; result = λ i. 0; bytes = λ i. 5 ∷ 6 ∷ [] };
  read_area = λ k asked. (n, 5 ∷ 6 ∷ []);
}

abbrev malloc : ℕ → Option Bytes
malloc n = some (0 ∷ 0 ∷ [])

-- The read of the item finds the connection broken, and the last read is not sent.
abbrev callbacks : List Operation
callbacks =
    connect resolver (answers 0)
    ∷ plc_read (answers 0) db (pos 1) (pos 0) (pos 2)
    ∷ plc_read_multiple_items malloc (client 0x000a_0000) 240 chain
    ∷ plc_read (answers 0) db (pos 1) (pos 0) (pos 2)
    ∷ []

abbrev read_two : Call
read_two = read_area 0x84 (pos 1) (pos 0) (pos 2) wl_byte

abbrev item : DataItem
item = record { area = 0x84; db_number = pos 1; start = 0; amount = 2; word_length = wl_byte }

abbrev events_of : Option Performed → List DriverEvent
events_of none = []
events_of (some p) = p.events

broken :
    events_of (run callbacks fresh)
    ≡ driver_call (connect_to (codes "host") (pos 102) (pos 0) (pos 2))
      ∷ driver_call exception_connect
      ∷ driver_call read_two
      ∷ plc_call (multi_vars (item ∷ []))
      ∷ driver_call client_disconnect
      ∷ driver_call exception_disconnect
      ∷ []
unfolding compare_start_byte includes_no_area_check add_read_items extend resize new_item of_request
    copy_result dispatch_read_result_to_children send_request_to_plc step place_next place go_on
    send_pdu process_plc_read_result data_item send_loop asyn_plc_read_multiple_items read_items
    finish_read outcome_of create_optimized_list dispatch_results absorb absorb_all add_to_group
    close_block collect_block group_requests insert_item join_blocks optimize_groups
    optimize_within_area sort_items run perform asyn_connect asyn_disconnect ask_client after_error
    asyn_plc_read set_all_zero
broken = refl

unread : All IsUnreadOperation callbacks
unread = (tt, (tt, ((refl, tt), (tt, tt))))

run-Protocol_example :
    (p : Performed) × (run callbacks fresh ≡ some p) × Protocol false p.events p.driver.connected
run-Protocol_example = run-Protocol callbacks fresh unread

run-disconnections_example :
    (p : Performed) × (run callbacks
        (new_driver (codes "plc") (codes "host") (pos 102) (pos 0) (pos 2) 0)
      ≡ some p)
    × (disconnections p.events + up p.driver.connected ≤ connections p.events)
run-disconnections_example =
    run-disconnections (codes "plc") (codes "host") (pos 102) (pos 0) (pos 2) 0 callbacks unread

abbrev connected_driver : PortDriver
connected_driver = record fresh { connected = true }

abbrev accepts : Call → AsynStatus
accepts call = success

register_port_driver-registered_example :
    (register_port_driver accepts fresh).driver.registered
    ≡ is_success (register_port_driver accepts fresh).status
register_port_driver-registered_example = register_port_driver-registered accepts fresh

asyn_connect-connected_example :
    ((asyn_connect resolver (answers 0) (record fresh { connected = true })).calls
      ≡ (asyn_connect resolver (answers 0) (record fresh { connected = false })).calls)
    × ((asyn_connect resolver (answers 0) (record fresh { connected = true })).status
        ≡ (asyn_connect resolver (answers 0) (record fresh { connected = false })).status)
asyn_connect-connected_example = asyn_connect-connected resolver (answers 0) fresh
