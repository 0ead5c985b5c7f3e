-- ===== src/Record/Output/Ownership.antt =====
-- Which buffers an output record of s7nodaveApp/src/S7nodaveOutputRecord.cc takes and frees.
use s7nodave.Asyn.{AsynStatus}
use s7nodave.Prelude.{
  ℕ, ◌≡◌, refl, Bool, Option, some, >>=-eq-some, some_inj, List, [], ◌∷◌, Bytes, subst, arith,
}
use s7nodave.Record.Buffers.{is_held, IsBalanced, IsBalanced-append}
use s7nodave.Record.Output.{
  OutputState, OutputStep, write_data, finish_write, asyn_process_callback_output, queue_write,
  process_record_output, OutputAction, callback, process, set_pact, perform_output, run_output,
}
use s7nodave.Record.Transfer.{has_spare, PlcWriter, WriteCall}
use s7nodave.RecordAddress.{RecordAddress}

-- A step keeps the buffers in balance.
abbrev KeepsBuffers : OutputState → OutputStep → Type 0
KeepsBuffers s t = IsBalanced s.new_data t.events t.state.new_data

finish_write-KeepsBuffers :
    (spare success : Bool) (calls : List WriteCall) (s : OutputState)
    → KeepsBuffers s (finish_write spare (is_held s.new_data) success calls s)
unfolding finish_write
finish_write-KeepsBuffers spare success calls s = ground arith

process_record_output-KeepsBuffers :
    (malloc : ℕ → Option Bytes) (read : Bytes → Bytes) (answer : AsynStatus) (bits : ℕ)
    (s : OutputState)
    → KeepsBuffers s (process_record_output malloc read answer bits s)
unfolding process_record_output queue_write
process_record_output-KeepsBuffers malloc read answer bits s = ground arith

asyn_process_callback_output-KeepsBuffers :
    (malloc : ℕ → Bool) (plc : PlcWriter) (a : RecordAddress) (bits : ℕ) (s : OutputState)
    {t : OutputStep}
    → asyn_process_callback_output malloc plc a bits s ≡ some t
    → KeepsBuffers s t
unfolding asyn_process_callback_output
asyn_process_callback_output-KeepsBuffers malloc plc a bits s e =
    let spare = has_spare malloc a bits in
    let (w, _, k) =
      >>=-eq-some (write_data malloc plc a bits s.new_data)
        (λ w. some (finish_write spare (is_held s.new_data) w.0 w.1 s)) e in
    subst (KeepsBuffers s) (some_inj k) (finish_write-KeepsBuffers spare w.0 w.1 s)

perform_output-KeepsBuffers :
    (a : RecordAddress) (bits : ℕ) (x : OutputAction) (s : OutputState) {t : OutputStep}
    → perform_output a bits x s ≡ some t
    → KeepsBuffers s t
unfolding perform_output
perform_output-KeepsBuffers a bits (callback malloc plc) s e =
    asyn_process_callback_output-KeepsBuffers malloc plc a bits s e
perform_output-KeepsBuffers a bits (process malloc read answer) s e =
    subst (KeepsBuffers s) (some_inj e)
      (process_record_output-KeepsBuffers malloc read answer bits s)
perform_output-KeepsBuffers a bits (set_pact b) s e = subst (KeepsBuffers s) (some_inj e) refl

-- Whatever happens to an output record, in any order, it frees only what it owns, and owns its data only in the
-- end.
pub run_output-KeepsBuffers :
    (a : RecordAddress) (bits : ℕ) (actions : List OutputAction) (s : OutputState) {t : OutputStep}
    → run_output a bits actions s ≡ some t
    → IsBalanced s.new_data t.events t.state.new_data
unfolding run_output
run_output-KeepsBuffers a bits [] s e = subst (KeepsBuffers s) (some_inj e) refl
run_output-KeepsBuffers a bits (x ∷ actions) s {t} e =
    let (first, e1, k) = >>=-eq-some (perform_output a bits x s) _ e in
    let (later, e2, l) = >>=-eq-some (run_output a bits actions first.state) _ k in
    subst (KeepsBuffers s) (some_inj l) (
      IsBalanced-append s.new_data first.state.new_data later.state.new_data first.events
        later.events (perform_output-KeepsBuffers a bits x s e1)
        (run_output-KeepsBuffers a bits actions first.state e2))
