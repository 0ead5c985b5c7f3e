-- ===== src/Record/Input/Answers.antt =====
-- The asynchronous read of an input record of s7nodaveApp/src/S7nodaveInputRecord.cc comes to an end.
use s7nodave.Asyn.{AsynStatus, is_success}
use s7nodave.Prelude.{
  ℕ, ◌≡◌, refl, Bool, true, false, Option, none, some, List, [], ◌∷◌, ◌++◌, Bytes,
}
use s7nodave.Record.Buffers.{
  Event, taken, freed, data_slot, step_slot, spare_slot, put_in_place, is_held, process_requested,
  written, alarmed, queued,
}
use s7nodave.Record.Input.{
  InputState, InputStep, read_buffer, finish_callback, place_data, asyn_process_callback,
  process_record,
}
use s7nodave.Record.Transfer.{has_spare, PlcReader, ReadResult}
use s7nodave.Record.{RecordStatus, ok, bytes_of_bits}
use s7nodave.RecordAddress.{RecordAddress}

-- A record that is not being processed and has no data.
abbrev pub idle : Bool → InputState
idle udf = record { pact = false; udf = udf; process_callback_error = false; new_data = none }

-- A record that waits for asyn.
abbrev pub waiting : Bool → InputState
waiting udf = record { pact = true; udf = udf; process_callback_error = false; new_data = none }

-- How the read ends: its bytes become the value, or there is an alarm.
abbrev pub ending : (Bytes → RecordStatus) → Bool → ReadResult → InputStep × RecordStatus
ending write udf (true, bytes) =
    (record { state = waiting false; events = written bytes ∷ freed data_slot ∷ [] }, write bytes)
ending write udf (false, bytes) = (record { state = waiting udf; events = alarmed ∷ [] }, ok)

module _ (malloc : ℕ → Option Bytes) (plc : PlcReader) (a : RecordAddress) (bits : ℕ)
    (answer : AsynStatus) (write : Bytes → RecordStatus) (udf : Bool) where
  starts :
      is_success answer ≡ true
      → process_record answer write (idle udf)
        ≡ (record { state = waiting udf; events = queued ∷ [] }, ok)
  unfolding process_record
  starts accepted = rw accepted refl

  ends :
      (spare : Bool) (buffer : Option Bytes) (r : ReadResult)
      → process_record answer write (finish_callback spare buffer r (waiting udf)).state
        ≡ ending write udf r
  unfolding process_record finish_callback place_data
  ends spare buffer (true, bytes) = refl
  ends spare buffer (false, bytes) = refl

  requests :
      (spare : Bool) (buffer : Option Bytes) (r : ReadResult)
      → (before : List Event) × ((finish_callback spare buffer r (waiting udf)).events
          ≡ before ++ process_requested ∷ [])
  unfolding finish_callback place_data
  requests spare none (true, bytes) = (put_in_place ∷ [], refl)
  requests spare none (false, bytes) = ([], refl)
  requests true (some b) (true, bytes) =
      (taken step_slot ∷ taken spare_slot ∷ freed spare_slot ∷ put_in_place ∷ [], refl)
  requests false (some b) (true, bytes) = (taken step_slot ∷ put_in_place ∷ [], refl)
  requests true (some b) (false, bytes) =
      (taken step_slot ∷ taken spare_slot ∷ freed spare_slot ∷ freed step_slot ∷ [], refl)
  requests false (some b) (false, bytes) = (taken step_slot ∷ freed step_slot ∷ [], refl)

  -- If asyn accepts the request of an idle record and the read stays within its buffers, then the record
  -- waits; when asyn calls it, it asks to be processed again; and when it is, it has the bytes that were
  -- read as its value, or an alarm if the read failed, and is rid of its data and of the error.
  pub process_record_answered :
      (r : ReadResult)
      → is_success answer ≡ true
      → read_buffer malloc plc a bits (malloc (bytes_of_bits bits)) ≡ some r
      → (process_record answer write (idle udf)
          ≡ (record { state = waiting udf; events = queued ∷ [] }, ok))
        × (t : InputStep) × (before : List Event) × (asyn_process_callback malloc plc a bits
              (waiting udf)
            ≡ some t)
        × (t.events ≡ before ++ process_requested ∷ [])
        × (process_record answer write t.state ≡ ending write udf r)
  unfolding asyn_process_callback
  process_record_answered r accepted read =
      let buffer = malloc (bytes_of_bits bits) in
      let spare = has_spare (λ n. is_held (malloc n)) a bits in
      let (before, last) = requests spare buffer r in
      (
        starts accepted,
        finish_callback spare buffer r (waiting udf),
        before,
        rw (read, asyn_process_callback) refl,
        last,
        ends spare buffer r,
      )
