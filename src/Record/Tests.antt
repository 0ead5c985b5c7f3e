-- ===== src/Record/Tests.antt =====
-- Records of bits and of words, and the theorems at them.
use s7nodave.Asyn.{db, word, int16, success, disconnected}
use s7nodave.LongSupport.{convert_from_or_to_plc_byte_order}
use s7nodave.Prelude.{
  ℕ, ◌≡◌, refl, Bool, true, false, Option, none, some, List, [], ◌∷◌, ◌++◌, Bytes, codes, pos,
  arith,
}
use s7nodave.Record.Buffers.{
  Event, taken, freed, data_slot, step_slot, put_in_place, given_away, queued, process_requested,
  scan_requested, written, alarmed, IsBalanced,
}
use s7nodave.Record.Input.Answers.{process_record_answered, idle, waiting, ending}
use s7nodave.Record.Input.Totality.{run_input-IsBalanced}
use s7nodave.Record.Input.{
  prepare, prepare_poll_request, ask_poll_group, InputStep, Action, respond, process, place_data,
  process_record, convert_response, process_poll_response, perform_input, run_input, read_buffer,
  asyn_process_callback,
}
use s7nodave.Record.Output.Answers.{output_state, process_record_output_answered}
use s7nodave.Record.Output.Totality.{IsSingle, a_number, run_output-IsBalanced}
use s7nodave.Record.Output.{
  OutputStep, OutputAction, quiet, queue_write, process_record_output, perform_output, run_output,
  asyn_process_callback_output,
}
use s7nodave.Record.Setup.{IsSettled, init_record-IsSettled}
use s7nodave.Record.Transfer.Single.{bit_address, write_to_plc-read_from_plc_bit}
use s7nodave.Record.Transfer.Words.{write_to_plc-read_from_plc}
use s7nodave.Record.Transfer.{
  PlcReader, PlcWriter, WriteResult, plc_write, plc_write_bit, read_from_plc, align_result,
  write_to_plc,
}
use s7nodave.Record.{
  RecordStatus, ok, RecordClass, Manager, Device, DeviceAddress, default_plc_data_type, init_record,
}
use s7nodave.RecordAddress.{RecordAddress}

abbrev has_memory : ℕ → Bool
has_memory n = true

abbrev malloc : ℕ → Option Bytes
malloc n = some (0 ∷ 0 ∷ [])

-- A PLC whose bytes are 36, and one whose bytes are 2 and 1.
abbrev byte_reader : PlcReader
byte_reader area number start n = record { status = success; bytes_read = pos 1; bytes = 36 ∷ [] }

abbrev word_reader : PlcReader
word_reader area number start n = record {
  status = success;
  bytes_read = pos 2;
  bytes = 2 ∷ 1 ∷ [];
}

abbrev writer : PlcWriter
writer c = record { status = success; bytes_written = pos 2 }

abbrev word_address : RecordAddress
word_address = record {
  port_name = codes "plc";
  plc_address = record {
    area = db;
    area_number = pos 1;
    data_size = word;
    start_byte = pos 4;
    start_bit = pos 0;
  };
  plc_data_type = int16;
  record_parameters = [];
}

-- Bit 2 of the byte.
write_to_plc-read_from_plc_bit_example :
    (write_to_plc has_memory writer (bit_address (codes "plc") [] db (pos 1) (pos 4) 2) 1 (1 ∷ [])
      ≡ some (record {
        ok = true;
        calls = plc_write_bit db (pos 1) (pos 4) 2 4 ∷ [];
        buffer = 1 ∷ [];
      }))
    × (read_from_plc has_memory byte_reader
          (bit_address (codes "plc") [] db (pos 1) (pos 4) 2)
          1
          (some (0 ∷ []))
          1
        ≡ some (true, 1 ∷ []))
write_to_plc-read_from_plc_bit_example =
    write_to_plc-read_from_plc_bit has_memory writer (codes "plc") [] db (pos 1) (pos 4) 1
      byte_reader 2 0 36 (omega arith) refl refl refl

write_to_plc-read_from_plc_example :
    (write_to_plc has_memory writer word_address 16 (1 ∷ 2 ∷ [])
      ≡ some (record {
        ok = true;
        calls = plc_write db (pos 1) (pos 4) (pos 2) (2 ∷ 1 ∷ []) ∷ [];
        buffer = 2 ∷ 1 ∷ [];
      }))
    × (read_from_plc has_memory word_reader word_address 16 (some (0 ∷ 0 ∷ [])) 2
        ≡ some (true, 1 ∷ 2 ∷ []))
unfolding convert_from_or_to_plc_byte_order
write_to_plc-read_from_plc_example =
    write_to_plc-read_from_plc has_memory word_address refl writer word_reader (1 ∷ 2 ∷ [])
      (2 ∷ 1 ∷ []) (0 ∷ 0 ∷ []) refl (omega arith) (omega arith) refl refl

abbrev base_class : RecordClass
base_class = record {
  extract_device_parameters = λ m. m;
  get_plc_data_type = default_plc_data_type;
}

abbrev manager : Manager
manager = record {
  connect_answer = λ port. success;
  is_connected = false;
  has_common = true;
  has_s7nodave = true;
}

abbrev link : DeviceAddress
link = some (some (codes "plc DB1.DBW4"))

abbrev device : Device
device = record {
  pact = false;
  asyn_user = false;
  common = false;
  s7nodave = false;
  address = none;
}

init_record-IsSettled_example :
    IsSettled base_class manager link device (init_record base_class manager link device)
init_record-IsSettled_example = init_record-IsSettled base_class manager link device

abbrev write : Bytes → RecordStatus
write b = ok

-- A request to a poll group and its response, and then the processing of the record.
abbrev polled : InputStep
polled = record {
  state = record { pact = false; udf = false; process_callback_error = false; new_data = none };
  events =
      taken step_slot
      ∷ given_away
      ∷ taken step_slot
      ∷ put_in_place
      ∷ scan_requested
      ∷ written (1 ∷ 2 ∷ [])
      ∷ freed data_slot
      ∷ [];
}

abbrev actions : List Action
actions = prepare malloc ∷ respond malloc true (2 ∷ 1 ∷ []) ∷ process success write ∷ []

polls : run_input word_address 16 actions (idle true) ≡ some polled
unfolding run_input perform_input prepare_poll_request ask_poll_group process_poll_response
    convert_response place_data process_record convert_from_or_to_plc_byte_order
polls = refl

run_input-IsBalanced_example :
    (t : InputStep) × (run_input word_address 16 actions (idle true) ≡ some t)
    × IsBalanced none t.events t.state.new_data
run_input-IsBalanced_example =
    run_input-IsBalanced word_address (omega arith) actions (idle true)
      (tt, (((0 ∷ 0 ∷ [], refl), refl), (tt, tt)))

process_record_answered_example :
    (process_record success write (idle true)
      ≡ (record { state = waiting true; events = queued ∷ [] }, ok))
    × (t : InputStep) × (before : List Event) × (asyn_process_callback malloc word_reader
          word_address 16
          (waiting true)
        ≡ some t)
    × (t.events ≡ before ++ process_requested ∷ [])
    × (process_record success write t.state ≡ ending write true (true, 1 ∷ 2 ∷ []))
unfolding read_buffer read_from_plc align_result convert_from_or_to_plc_byte_order
process_record_answered_example =
    process_record_answered malloc word_reader word_address 16 success write true (true, 1 ∷ 2 ∷ [])
      refl refl

-- The value of a record in the bytes of the host.
abbrev value_bytes : Bytes → Bytes
value_bytes b = 1 ∷ 2 ∷ []

abbrev refused_write : OutputStep
refused_write = quiet (output_state false true false (some (1 ∷ 2 ∷ []))) (
    taken step_slot
    ∷ put_in_place
    ∷ alarmed
    ∷ taken step_slot
    ∷ freed data_slot
    ∷ put_in_place
    ∷ alarmed
    ∷ [])

abbrev output_actions : List OutputAction
output_actions =
    OutputAction.process malloc value_bytes disconnected
    ∷ OutputAction.process malloc value_bytes disconnected
    ∷ []

refuses :
    run_output word_address 16 output_actions (output_state false true false none)
    ≡ some refused_write
unfolding run_output perform_output process_record_output queue_write
refuses = refl

word_address-IsSingle : IsSingle word_address
word_address-IsSingle = a_number word_address (λ e. cc)

run_output-IsBalanced_example :
    (t : OutputStep) × (run_output word_address 16 output_actions
        (output_state false true false none)
      ≡ some t)
    × IsBalanced none t.events t.state.new_data
run_output-IsBalanced_example =
    run_output-IsBalanced word_address word_address-IsSingle output_actions
      (output_state false true false none) ((λ b. refl), ((λ b. refl), tt)) tt

abbrev word_written : WriteResult
word_written = record {
  ok = true;
  calls = plc_write db (pos 1) (pos 4) (pos 2) (2 ∷ 1 ∷ []) ∷ [];
  buffer = 2 ∷ 1 ∷ [];
}

process_record_output_answered_example :
    (process_record_output malloc value_bytes success 16 (output_state false true false none)
      ≡ quiet
          (output_state true true false (some (1 ∷ 2 ∷ [])))
          (taken step_slot ∷ put_in_place ∷ queued ∷ []))
    × (asyn_process_callback_output has_memory writer word_address 16
          (output_state true true false (some (1 ∷ 2 ∷ [])))
        ≡ some (record {
          state = output_state true true false none;
          events = freed data_slot ∷ process_requested ∷ [];
          calls = word_written.calls;
        }))
    × (process_record_output malloc value_bytes success 16 (output_state true true false none)
        ≡ quiet (output_state true false false none) [])
process_record_output_answered_example =
    process_record_output_answered malloc has_memory writer word_address 16 success value_bytes true
      false (0 ∷ 0 ∷ []) word_written refl refl write_to_plc-read_from_plc_example.0
