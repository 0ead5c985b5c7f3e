-- ===== src/Record/Output/Answers.antt =====
-- The asynchronous write of an output record of s7nodaveApp/src/S7nodaveOutputRecord.cc comes to an end.
use s7nodave.Asyn.{AsynStatus, is_success}
use s7nodave.Prelude.{
  ℕ, ◌≡◌, refl, Bool, true, false, not, Option, none, some, [], ◌∷◌, ◌++◌, Bytes, if◌then◌else◌,
  Bool-cases, inl, inr,
}
use s7nodave.Record.Buffers.{
  taken, freed, process_requested, alarmed, queued, if_so, spare_events, data_slot, step_slot,
  put_in_place,
}
use s7nodave.Record.Output.{
  OutputState, quiet, write_data, finish_write, asyn_process_callback_output, queue_write,
  process_record_output,
}
use s7nodave.Record.Transfer.{has_spare, PlcWriter, WriteResult, write_to_plc}
use s7nodave.Record.{bytes_of_bits}
use s7nodave.RecordAddress.{RecordAddress}

-- A record that may be processed or is, with its data.
abbrev pub output_state : Bool → Bool → Bool → Option Bytes → OutputState
output_state pact udf in_error held = record {
  pact = pact;
  udf = udf;
  process_callback_error = in_error;
  new_data = held;
}

defined_if :
    (room : ℕ → Option Bytes) (read : Bytes → Bytes) (answer : AsynStatus) (bits : ℕ) (udf b : Bool)
    → process_record_output room read answer bits (output_state true udf (not b) none)
      ≡ quiet (output_state true (if b then false else udf) (not b) none) []
unfolding process_record_output
defined_if room read answer bits udf true = refl
defined_if room read answer bits udf false = refl

module _ (room : ℕ → Option Bytes) (malloc : ℕ → Bool) (plc : PlcWriter) (a : RecordAddress)
    (bits : ℕ) (answer : AsynStatus) (read : Bytes → Bytes) (udf in_error : Bool) where
  -- If a record without data is processed, has memory for a buffer, asyn accepts its request and the
  -- write of its value stays within its buffers, then the record waits with its value; when asyn calls it,
  -- exactly the calls of this write are made, the second buffer that it took, if any, and that of the value are freed, an alarm is raised if the write failed,
  -- and it asks to be processed again; and then it is defined if the write succeeded, and as it was if not.
  pub process_record_output_answered :
      (buffer : Bytes) (w : WriteResult)
      → is_success answer ≡ true
      → room (bytes_of_bits bits) ≡ some buffer
      → write_to_plc malloc plc a bits (read buffer) ≡ some w
      → (process_record_output room read answer bits (output_state false udf in_error none)
          ≡ quiet
              (output_state true udf in_error (some (read buffer)))
              (taken step_slot ∷ put_in_place ∷ queued ∷ []))
        × (asyn_process_callback_output malloc plc a bits
              (output_state true udf in_error (some (read buffer)))
            ≡ some (record {
              state = output_state true udf (not w.ok) none;
              events =
                  spare_events (has_spare malloc a bits)
                  ++ freed data_slot ∷ if_so (not w.ok) alarmed
                  ++ process_requested ∷ [];
              calls = w.calls;
            }))
        × (process_record_output room read answer bits (output_state true udf (not w.ok) none)
            ≡ quiet (output_state true (if w.ok then false else udf) (not w.ok) none) [])
  unfolding process_record_output queue_write asyn_process_callback_output write_data finish_write
  process_record_output_answered buffer w accepted found writes = (
    rw (found, accepted) refl,
    elim (Bool-cases (has_spare malloc a bits)) [
      | inl second ↦ rw (writes, second) refl
      | inr single ↦ rw (writes, single) refl
    ],
    defined_if room read answer bits udf w.ok,
  )
