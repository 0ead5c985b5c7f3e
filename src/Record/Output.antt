-- ===== src/Record/Output.antt =====
-- s7nodaveApp/src/S7nodaveOutputRecord.cc: how an output record gets its first value and is processed.
-- `none` is an access behind a buffer. Guarded sections are steps. The second buffer
-- of the read during the set-up makes no event.
pub mod Ownership
pub mod Answers
pub mod Totality
use s7nodave.Asyn.{AsynStatus, is_success}
use s7nodave.Prelude.{
  ℕ, Bool, true, false, not, ◌&&◌, Option, none, some, ◌>>=◌, List, [], ◌∷◌, ◌++◌, Bytes,
  if◌then◌else◌,
}
use s7nodave.Record.Buffers.{
  Event, taken, freed, queued, process_requested, written, alarmed, alarms_reset, port_locked,
  port_unlocked, is_held, if_so, spare_events, data_slot, step_slot, put_in_place,
}
use s7nodave.Record.Transfer.{
  has_spare, PlcReader, PlcWriter, ReadResult, WriteCall, WriteResult, read_from_plc, write_to_plc,
}
use s7nodave.Record.{RecordStatus, ok, failed, bytes_of_bits}
use s7nodave.RecordAddress.{RecordAddress}

pub record OutputState : Type 0 where
  pub pact : Bool
  pub udf : Bool
  pub process_callback_error : Bool
  pub new_data : Option Bytes

pub record OutputStep : Type 0 where
  pub state : OutputState
  pub events : List Event
  pub calls : List WriteCall

-- A step that writes nothing to the PLC.
abbrev pub quiet : OutputState → List Event → OutputStep
quiet s events = record { state = s; events = events; calls = [] }

-- The value that was read becomes that of the record.
unfoldable pub take_value :
    (Bytes → RecordStatus) → ReadResult → OutputState → OutputStep × RecordStatus
take_value write_to_record (true, bytes) s = (
  quiet (record s { udf = false })
      (port_locked
        ∷ taken step_slot
        ∷ written bytes
        ∷ alarms_reset
        ∷ freed step_slot
        ∷ port_unlocked
        ∷ []),
  write_to_record bytes,
)
take_value write_to_record (false, bytes) s =
    (quiet s (port_locked ∷ taken step_slot ∷ freed step_slot ∷ port_unlocked ∷ []), ok)

-- The statuses are those of the base class, of the child class and of asyn's `lockPort`.
unfoldable pub init_record_output :
    RecordStatus
    → RecordStatus
    → AsynStatus
    → (ℕ → Option Bytes)
    → PlcReader
    → (Bytes → RecordStatus)
    → RecordAddress
    → ℕ
    → OutputState
    → Option (OutputStep × RecordStatus)
unfolding take_value
init_record_output failed intercepted lock malloc plc write_to_record a bits s =
    some (quiet s [], failed)
init_record_output ok failed lock malloc plc write_to_record a bits s = some (quiet s [], failed)
init_record_output ok ok lock malloc plc write_to_record a bits s =
    let size = bytes_of_bits bits in
    if not (is_success lock) then some (quiet s [], ok) else elim (malloc size) [
      | none ↦ some (quiet s (port_locked ∷ port_unlocked ∷ []), ok)
      | some b ↦ (do
        r ← read_from_plc (λ n. is_held (malloc n)) plc a bits (some b) size
        some (take_value write_to_record r s))
    ]

-- What follows the write of the data, if there were some, with or without a second buffer.
unfoldable pub finish_write : Bool → Bool → Bool → List WriteCall → OutputState → OutputStep
finish_write spare had_data success calls s = record {
  state = record s { new_data = none; process_callback_error = not success };
  events =
      spare_events (had_data && spare)
      ++ if_so had_data (freed data_slot)
      ++ if_so (not success) alarmed
      ++ if_so s.pact process_requested;
  calls = calls;
}

-- The write of the data, which fails if there are none.
unfoldable pub write_data :
    (ℕ → Bool) → PlcWriter → RecordAddress → ℕ → Option Bytes → Option (Bool × List WriteCall)
write_data malloc plc a bits none = some (false, [])
write_data malloc plc a bits (some b) = do
  w ← write_to_plc malloc plc a bits b
  some (w.ok, w.calls)

unfoldable pub asyn_process_callback_output :
    (ℕ → Bool) → PlcWriter → RecordAddress → ℕ → OutputState → Option OutputStep
asyn_process_callback_output malloc plc a bits s = do
  w ← write_data malloc plc a bits s.new_data
  some (finish_write (has_spare malloc a bits) (is_held s.new_data) w.0 w.1 s)

-- The bytes are put in place of the old ones, and asyn is asked to call the record.
unfoldable pub queue_write : AsynStatus → Bytes → OutputState → OutputStep
queue_write answer bytes s =
    let s' = record s { new_data = some bytes } in
    let events =
      taken step_slot ∷ if_so (is_held s.new_data) (freed data_slot) ++ put_in_place ∷ [] in
    if is_success answer
    then quiet (record s' { pact = true }) (events ++ queued ∷ [])
    else quiet (record s' { pact = false }) (events ++ alarmed ∷ [])

-- `readFromRecord` fills the buffer; the answer is that of `queueRequest`. The status is always good.
unfoldable pub process_record_output :
    (ℕ → Option Bytes) → (Bytes → Bytes) → AsynStatus → ℕ → OutputState → OutputStep
unfolding queue_write
process_record_output malloc read_from_record answer bits s =
    if s.pact
    then quiet (if s.process_callback_error then s else record s { udf = false }) []
    else elim (malloc (bytes_of_bits bits)) [
      | none ↦ quiet s (alarmed ∷ [])
      | some b ↦ queue_write answer (read_from_record b) s
    ]

-- What happens to a record: asyn's callback, its processing, and the end of its processing, where EPICS
-- sets `pact`.
pub data OutputAction : Type 0 where
  callback : (ℕ → Bool) → PlcWriter → OutputAction
  process : (ℕ → Option Bytes) → (Bytes → Bytes) → AsynStatus → OutputAction
  set_pact : Bool → OutputAction

unfoldable pub perform_output : RecordAddress → ℕ → OutputAction → OutputState → Option OutputStep
perform_output a bits (callback malloc plc) s = asyn_process_callback_output malloc plc a bits s
perform_output a bits (process malloc read answer) s =
    some (process_record_output malloc read answer bits s)
perform_output a bits (set_pact b) s = some (quiet (record s { pact = b }) [])

unfoldable pub run_output : RecordAddress → ℕ → List OutputAction → OutputState → Option OutputStep
run_output a bits [] s = some (quiet s [])
run_output a bits (x ∷ actions) s = do
  first ← perform_output a bits x s
  later ← run_output a bits actions first.state
  some (record {
    state = later.state;
    events = first.events ++ later.events;
    calls = first.calls ++ later.calls;
  })
