-- ===== src/Record/Input/Ownership.antt =====
-- Which buffers an input record of s7nodaveApp/src/S7nodaveInputRecord.cc takes and frees.
use s7nodave.Asyn.{AsynStatus}
use s7nodave.Prelude.{
  ℕ, ◌≡◌, refl, Bool, true, false, Option, none, some, >>=-eq-some, some_inj, List, [], ◌∷◌, Bytes,
  subst, arith,
}
use s7nodave.Record.Buffers.{is_held, IsBalanced, IsBalanced-append}
use s7nodave.Record.Input.{
  InputState, InputStep, place_data, read_buffer, finish_callback, asyn_process_callback,
  process_record, convert_response, process_poll_response, Action, callback, process, prepare,
  respond, PollRequest, prepare_poll_request, ask_poll_group, set_pact, perform_input, run_input,
}
use s7nodave.Record.Transfer.{has_spare, PlcReader, ReadResult}
use s7nodave.Record.{RecordStatus, bytes_of_bits}
use s7nodave.RecordAddress.{RecordAddress}

-- A step keeps the buffers in balance.
abbrev pub KeepsBuffers : InputState → InputStep → Type 0
KeepsBuffers s t = IsBalanced s.new_data t.events t.state.new_data

finish_callback-KeepsBuffers :
    (spare : Bool) (buffer : Option Bytes) (r : ReadResult) (s : InputState)
    → (r.0 ≡ true → is_held buffer ≡ true)
    → KeepsBuffers s (finish_callback spare buffer r s)
unfolding finish_callback place_data
finish_callback-KeepsBuffers spare none (true, bytes) s h = ground arith
finish_callback-KeepsBuffers spare none (false, bytes) s h = ground arith
finish_callback-KeepsBuffers spare (some b) (success, bytes) s h = ground arith

process_record-KeepsBuffers :
    (answer : AsynStatus) (write : Bytes → RecordStatus) (s : InputState)
    → KeepsBuffers s (process_record answer write s).0
unfolding process_record
process_record-KeepsBuffers answer write s = ground arith

read_buffer-needs :
    (malloc : ℕ → Option Bytes) (plc : PlcReader) (a : RecordAddress) (bits : ℕ)
    (buffer : Option Bytes) (r : ReadResult)
    → read_buffer malloc plc a bits buffer ≡ some r
    → r.0 ≡ true
    → is_held buffer ≡ true
unfolding read_buffer
read_buffer-needs malloc plc a bits none r e k = cc
read_buffer-needs malloc plc a bits (some b) r e k = refl

asyn_process_callback-KeepsBuffers :
    (malloc : ℕ → Option Bytes) (plc : PlcReader) (a : RecordAddress) (bits : ℕ) (s : InputState)
    {t : InputStep}
    → asyn_process_callback malloc plc a bits s ≡ some t
    → KeepsBuffers s t
unfolding asyn_process_callback
asyn_process_callback-KeepsBuffers malloc plc a bits s e =
    let buffer = malloc (bytes_of_bits bits) in
    let spare = has_spare (λ n. is_held (malloc n)) a bits in
    let (r, read, k) =
      >>=-eq-some (read_buffer malloc plc a bits buffer)
        (λ r. some (finish_callback spare buffer r s)) e in
    subst (KeepsBuffers s) (some_inj k) (
      finish_callback-KeepsBuffers spare buffer r s
        (read_buffer-needs malloc plc a bits buffer r read))

process_poll_response-KeepsBuffers :
    (malloc : ℕ → Option Bytes) (a : RecordAddress) (bits : ℕ) (success : Bool) (buffer : Bytes)
    (s : InputState) {t : InputStep}
    → process_poll_response malloc a bits success buffer s ≡ some t
    → KeepsBuffers s t
unfolding process_poll_response place_data
process_poll_response-KeepsBuffers malloc a bits false buffer s e =
    subst (KeepsBuffers s) (some_inj e) (ground arith)
process_poll_response-KeepsBuffers malloc a bits true buffer s e =
    let (bytes, _, k) = >>=-eq-some (convert_response malloc a bits buffer) _ e in
    subst (KeepsBuffers s) (some_inj k) (ground arith)

ask_poll_group-IsBalanced :
    (held : Option Bytes) (q : Option PollRequest) → IsBalanced held (ask_poll_group q) held
unfolding ask_poll_group
ask_poll_group-IsBalanced held none = refl
ask_poll_group-IsBalanced held (some q) = refl

perform_input-KeepsBuffers :
    (a : RecordAddress) (bits : ℕ) (x : Action) (s : InputState) {t : InputStep}
    → perform_input a bits x s ≡ some t
    → KeepsBuffers s t
unfolding perform_input
perform_input-KeepsBuffers a bits (callback malloc plc) s e =
    asyn_process_callback-KeepsBuffers malloc plc a bits s e
perform_input-KeepsBuffers a bits (process answer write) s e =
    subst (KeepsBuffers s) (some_inj e) (process_record-KeepsBuffers answer write s)
perform_input-KeepsBuffers a bits (prepare malloc) s e =
    subst (KeepsBuffers s) (some_inj e)
      (ask_poll_group-IsBalanced s.new_data (prepare_poll_request malloc a bits))
perform_input-KeepsBuffers a bits (respond malloc success buffer) s e =
    process_poll_response-KeepsBuffers malloc a bits success buffer s e
perform_input-KeepsBuffers a bits (set_pact b) s e = subst (KeepsBuffers s) (some_inj e) refl

-- Whatever happens to an input record, in any order, it frees and gives away only what it owns, and owns its data
-- only in the end.
pub run_input-KeepsBuffers :
    (a : RecordAddress) (bits : ℕ) (actions : List Action) (s : InputState) {t : InputStep}
    → run_input a bits actions s ≡ some t
    → IsBalanced s.new_data t.events t.state.new_data
unfolding run_input
run_input-KeepsBuffers a bits [] s e = subst (KeepsBuffers s) (some_inj e) refl
run_input-KeepsBuffers a bits (x ∷ actions) s {t} e =
    let (first, e1, k) = >>=-eq-some (perform_input a bits x s) _ e in
    let (later, e2, l) = >>=-eq-some (run_input a bits actions first.state) _ k in
    subst (KeepsBuffers s) (some_inj l) (
      IsBalanced-append s.new_data first.state.new_data later.state.new_data first.events
        later.events (perform_input-KeepsBuffers a bits x s e1)
        (run_input-KeepsBuffers a bits actions first.state e2))
