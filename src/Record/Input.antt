-- ===== src/Record/Input.antt =====
-- s7nodaveApp/src/S7nodaveInputRecord.cc: how an input record is processed, asynchronously through
-- asyn's queue or as a member of a poll group.
-- `none` is an access behind a buffer or through a null pointer. Guarded sections are steps.
pub mod Ownership
pub mod Answers
pub mod Totality
use s7nodave.Asyn.{PlcDataType, AsynStatus, is_success}
use s7nodave.LongSupport.{convert_from_or_to_plc_byte_order}
use s7nodave.PlcAddress.{PlcAddress}
use s7nodave.Prelude.{
  ℕ, ◌+◌, ◌%◌, Bool, true, false, not, ◌&&◌, Option, none, some, ◌>>=◌, List, [], ◌∷◌, ◌++◌, Bytes,
  codes, bytes_eq, ◌==◌, if◌then◌else◌, length,
}
use s7nodave.Record.Buffers.{
  Event, taken, freed, data_slot, step_slot, spare_slot, put_in_place, put_over, given_away, queued,
  process_requested, scan_requested, written, alarmed, is_held, if_so, spare_events,
}
use s7nodave.Record.Transfer.{
  PlcReader, ReadResult, read_from_plc, align_read, mask_last, mask_rest, is_bool, start_bit_of,
  need_intermediate_buffer, has_spare,
}
use s7nodave.Record.{RecordStatus, ok, bytes_of_bits}
use s7nodave.RecordAddress.{RecordAddress, DeviceParameters}

pub record InputState : Type 0 where
  pub pact : Bool
  pub udf : Bool
  pub process_callback_error : Bool
  pub new_data : Option Bytes

pub record InputStep : Type 0 where
  pub state : InputState
  pub events : List Event

-- What a read put in place: the new data, in place of those that were there.
unfoldable pub place_data : Bool → Option Bytes → InputState → InputStep
place_data success buffer s = record {
  state = record s { new_data = buffer; process_callback_error = not success };
  events = if_so (is_held s.new_data) (freed data_slot) ++ if_so (is_held buffer) put_in_place;
}

-- What a read gave, with or without a second buffer: a failure, or a buffer.
unfoldable pub finish_callback : Bool → Option Bytes → ReadResult → InputState → InputStep
unfolding place_data
finish_callback spare buffer (success, bytes) s =
    let p = place_data success (if success then some bytes else none) s in
    record {
      state = p.state;
      events =
          if_so (is_held buffer) (taken step_slot)
          ++ spare_events (is_held buffer && spare)
          ++ if_so (is_held buffer && not success) (freed step_slot)
          ++ p.events
          ++ if_so s.pact process_requested;
    }

-- The read into a buffer that was allocated, or was not.
unfoldable pub read_buffer :
    (ℕ → Option Bytes) → PlcReader → RecordAddress → ℕ → Option Bytes → Option ReadResult
read_buffer malloc plc a bits none = some (false, [])
read_buffer malloc plc a bits (some b) =
    read_from_plc (λ n. is_held (malloc n)) plc a bits (some b) (bytes_of_bits bits)

-- `bits` is the size of the data, which the class of the record tells.
unfoldable pub asyn_process_callback :
    (ℕ → Option Bytes) → PlcReader → RecordAddress → ℕ → InputState → Option InputStep
asyn_process_callback malloc plc a bits s = do
  let buffer = malloc (bytes_of_bits bits)
  r ← read_buffer malloc plc a bits buffer
  some (finish_callback (has_spare (λ n. is_held (malloc n)) a bits) buffer r s)

-- The answer is that of `queueRequest`; the status is that of `writeToRecord`, for the new data.
unfoldable pub process_record :
    AsynStatus → (Bytes → RecordStatus) → InputState → InputStep × RecordStatus
process_record answer write_to_record s =
    let s' = record s { process_callback_error = false; new_data = none } in
    if s.process_callback_error
    then (
      record { state = s'; events = if_so (is_held s.new_data) (freed data_slot) ++ alarmed ∷ [] },
      ok,
    )
    else elim s.new_data [
      | some b ↦ (
        record { state = record s' { udf = false }; events = written b ∷ freed data_slot ∷ [] },
        write_to_record b,
      )
      | none ↦ (
        if s.pact
            then record { state = s'; events = [] }
            else if is_success answer
            then record { state = record s' { pact = true }; events = queued ∷ [] }
            else record { state = record s' { pact = false }; events = alarmed ∷ [] },
        ok,
      )
    ]

-- What a record asks of its poll group: a read of so many bytes into a new buffer.
pub record PollRequest : Type 0 where
  pub address : PlcAddress
  pub size : ℕ
  pub buffer : Bytes

abbrev pub poll_size : RecordAddress → ℕ → ℕ
poll_size a bits =
    if need_intermediate_buffer a then bytes_of_bits (bits + start_bit_of a) else bytes_of_bits bits

unfoldable pub prepare_poll_request : (ℕ → Option Bytes) → RecordAddress → ℕ → Option PollRequest
prepare_poll_request malloc a bits = elim (malloc (poll_size a bits)) [
  | none ↦ none
  | some b ↦ some (record { address = a.plc_address; size = poll_size a bits; buffer = b })
]

-- The bits moved to a second buffer, in which the last byte of the first one is masked.
unfoldable pub align_response : (ℕ → Option Bytes) → RecordAddress → ℕ → Bytes → Option Bytes
align_response malloc a bits buffer = do
  _ ← malloc (bytes_of_bits bits)
  aligned ← align_read (start_bit_of a) (bytes_of_bits bits) buffer
  mask_rest bits (length buffer) aligned

-- The bytes of a response, as the record takes them.
unfoldable pub convert_response : (ℕ → Option Bytes) → RecordAddress → ℕ → Bytes → Option Bytes
convert_response malloc a bits buffer = do
  bytes ←
      (if need_intermediate_buffer a
        then align_response malloc a bits buffer
        else if is_bool a.plc_data_type && not (length buffer == 0)
        then mask_rest bits (length buffer) buffer
        else some buffer)
  convert_from_or_to_plc_byte_order bytes a.plc_data_type

-- The buffer is that of the request; a second one takes its place if the bits have to be moved.
unfoldable pub process_poll_response :
    (ℕ → Option Bytes) → RecordAddress → ℕ → Bool → Bytes → InputState → Option InputStep
unfolding place_data
process_poll_response malloc a bits false buffer s =
    let p = place_data false none s in
    some (record {
      state = p.state;
      events = taken step_slot ∷ freed step_slot ∷ p.events ++ scan_requested ∷ [];
    })
process_poll_response malloc a bits true buffer s = do
  bytes ← convert_response malloc a bits buffer
  let p = place_data true (some bytes) s
  let moved =
      if need_intermediate_buffer a then taken spare_slot ∷ freed step_slot ∷ put_over ∷ [] else []
  some (record {
    state = p.state;
    events = taken step_slot ∷ moved ++ p.events ++ scan_requested ∷ [];
  })

-- The parameter that names the poll group; without a value it stays, and the record will be in error.
unfoldable pub extract_poll_group : DeviceParameters → DeviceParameters × Option Bytes
extract_poll_group [] = ([], none)
extract_poll_group ((name, value) ∷ m) =
    let rest = extract_poll_group m in
    elim (bytes_eq name (codes "PG")) [
      | true ↦ elim value [ none ↦ ((name, none) ∷ m, none) | some v ↦ (m, some v) ]
      | false ↦ ((name, value) ∷ rest.0, rest.1)
    ]

-- What happens to a record: asyn's callback, its processing, a request and a response of its poll group, and
-- the end of its processing or of its set-up, where EPICS or the base class sets `pact`.
pub data Action : Type 0 where
  callback : (ℕ → Option Bytes) → PlcReader → Action
  process : AsynStatus → (Bytes → RecordStatus) → Action
  prepare : (ℕ → Option Bytes) → Action
  respond : (ℕ → Option Bytes) → Bool → Bytes → Action
  set_pact : Bool → Action

-- The buffer of a request goes to the poll group, which hands it back with the response.
unfoldable pub ask_poll_group : Option PollRequest → List Event
ask_poll_group none = []
ask_poll_group (some q) = taken step_slot ∷ given_away ∷ []

unfoldable pub perform_input : RecordAddress → ℕ → Action → InputState → Option InputStep
perform_input a bits (callback malloc plc) s = asyn_process_callback malloc plc a bits s
perform_input a bits (process answer write) s = some (process_record answer write s).0
perform_input a bits (prepare malloc) s =
    some (record { state = s; events = ask_poll_group (prepare_poll_request malloc a bits) })
perform_input a bits (respond malloc success buffer) s =
    process_poll_response malloc a bits success buffer s
perform_input a bits (set_pact b) s = some (record { state = record s { pact = b }; events = [] })

unfoldable pub run_input : RecordAddress → ℕ → List Action → InputState → Option InputStep
run_input a bits [] s = some (record { state = s; events = [] })
run_input a bits (x ∷ actions) s = do
  first ← perform_input a bits x s
  later ← run_input a bits actions first.state
  some (record { state = later.state; events = first.events ++ later.events })
