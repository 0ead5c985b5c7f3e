-- ===== src/Record/Input/Totality.antt =====
-- A record of one value of s7nodaveApp/src/S7nodaveInputRecord.cc stays within its buffers.
use s7nodave.Asyn.{PlcDataType, bool, int8, uint8, int16, uint16, int32, uint32, float}
use s7nodave.LongSupport.RoundTrip.{bytes_of_type}
use s7nodave.LongSupport.{swap16, swap32, convert_from_or_to_plc_byte_order}
use s7nodave.PlcAddress.{PlcAddress}
use s7nodave.Prelude.{
  ℕ, ◌+◌, ◌/◌, ◌%◌, ◌^◌, ◌-◌, ◌<◌, ◌≡◌, refl, Bool, true, false, not, ◌&&◌, Option, none, some,
  ◌>>=◌, List, [], ◌∷◌, ◌++◌, Bytes, length, All, arith, Bool-cases, inl, inr, ◌∙◌, if◌then◌else◌,
  eqb_ℤ, pos, pos_part,
}
use s7nodave.Record.Buffers.{IsBalanced, is_held}
use s7nodave.Record.Input.Ownership.{run_input-KeepsBuffers}
use s7nodave.Record.Input.{
  InputState, InputStep, read_buffer, finish_callback, asyn_process_callback, align_response,
  convert_response, process_poll_response, poll_size, Action, callback, process, prepare, respond,
  set_pact, perform_input, run_input,
}
use s7nodave.Record.Transfer.{
  has_spare, PlcReader, ReadResult, align_read, need_intermediate_buffer, align_result,
  read_from_plc, is_complete,
}
use s7nodave.Record.{bytes_of_bits}
use s7nodave.RecordAddress.{RecordAddress, DeviceParameters, bits_of_type}

pub swap16_total : (s : Bytes) → length s ≡ 2 → (s' : Bytes) × (swap16 s ≡ some s')
swap16_total [] e = absurd (omega (arith, e))
swap16_total (a ∷ []) e = absurd (omega (arith, e))
swap16_total (a ∷ b ∷ []) e = (_, refl)
swap16_total (a ∷ b ∷ c ∷ s) e = absurd (omega (arith, e))

pub swap32_total : (s : Bytes) → length s ≡ 4 → (s' : Bytes) × (swap32 s ≡ some s')
swap32_total [] e = absurd (omega (arith, e))
swap32_total (a ∷ []) e = absurd (omega (arith, e))
swap32_total (a ∷ b ∷ []) e = absurd (omega (arith, e))
swap32_total (a ∷ b ∷ c ∷ []) e = absurd (omega (arith, e))
swap32_total (a ∷ b ∷ c ∷ d ∷ []) e = (_, refl)
swap32_total (a ∷ b ∷ c ∷ d ∷ x ∷ s) e = absurd (omega (arith, e))

-- A computation that gives a result.
abbrev pub Returns {ℓ} : {A : Type ℓ} → Option A → Type ℓ
Returns {A = A} o = (a : A) × (o ≡ some a)

pub if_Returns {ℓ} :
    {A : Type ℓ} (b : Bool) (x y : Option A) → Returns x → Returns y → Returns (if b then x else y)
if_Returns true x y h k = h
if_Returns false x y h k = k

pub bind-Returns {ℓ κ} :
    {A : Type ℓ} {B : Type κ} (m : Option A) (f : A → B)
    → Returns m
    → Returns (m >>= (λ a. some (f a)))
bind-Returns m f (a, e) = (f a, rw e refl)

convert_total :
    (t : PlcDataType) (s : Bytes)
    → length s ≡ bytes_of_type t
    → (s' : Bytes) × (convert_from_or_to_plc_byte_order s t ≡ some s')
unfolding convert_from_or_to_plc_byte_order
convert_total bool s e = (s, refl)
convert_total int8 s e = (s, refl)
convert_total uint8 s e = (s, refl)
convert_total int16 s e = swap16_total s e
convert_total uint16 s e = swap16_total s e
convert_total int32 s e = swap32_total s e
convert_total uint32 s e = swap32_total s e
convert_total float s e = swap32_total s e

one_byte : (start_bit : ℕ) → start_bit < 8 → bytes_of_bits (1 + start_bit) ≡ 1
one_byte start_bit h = ground arith

-- A reader whose buffer is as long as it was asked to be.
abbrev pub Fills : PlcAddress → PlcReader → Type 0
Fills p plc = (n : ℕ) → length (plc p.area p.area_number p.start_byte n).bytes ≡ n

module _ (p : PlcAddress) (port : Bytes) (parameters : DeviceParameters) where
  -- The address with a type.
  abbrev typed : PlcDataType → RecordAddress
  typed t = record {
    port_name = port;
    plc_address = p;
    plc_data_type = t;
    record_parameters = parameters;
  }

  size_of_type : (t : PlcDataType) → bytes_of_bits (bits_of_type t) ≡ bytes_of_type t
  size_of_type bool = refl
  size_of_type int8 = refl
  size_of_type uint8 = refl
  size_of_type int16 = refl
  size_of_type uint16 = refl
  size_of_type int32 = refl
  size_of_type uint32 = refl
  size_of_type float = refl

  align_result_total :
      (t : PlcDataType) (s : Bytes)
      → length s ≡ bytes_of_type t
      → (s' : Bytes) × (align_result (typed t) (bits_of_type t) (bytes_of_type t) s ≡ some s')
  unfolding align_result align_read convert_from_or_to_plc_byte_order
  align_result_total bool [] e = absurd (omega (arith, e))
  align_result_total bool (b ∷ []) e = elim (Bool-cases (not (eqb_ℤ p.start_bit (pos 0)))) [
    | inl need ↦
        (b / 2 ^ pos_part p.start_bit % 2 ^ (8 - pos_part p.start_bit) % 2 ∷ [], rw need refl)
    | inr aligned ↦ (b % 2 ∷ [], rw aligned refl)
  ]
  align_result_total bool (b ∷ c ∷ s) e = absurd (omega (arith, e))
  align_result_total int8 s e = (s, refl)
  align_result_total uint8 s e = (s, refl)
  align_result_total int16 s e = swap16_total s e
  align_result_total uint16 s e = swap16_total s e
  align_result_total int32 s e = swap32_total s e
  align_result_total uint32 s e = swap32_total s e
  align_result_total float s e = swap32_total s e

  convert_response_total :
      (malloc : ℕ → Option Bytes) (t : PlcDataType) (s room : Bytes)
      → malloc 1 ≡ some room
      → length s ≡ bytes_of_type t
      → (s' : Bytes) × (convert_response malloc (typed t) (bits_of_type t) s ≡ some s')
  unfolding convert_response align_response align_read convert_from_or_to_plc_byte_order
  convert_response_total malloc bool [] room m e = absurd (omega (arith, e))
  convert_response_total malloc bool (b ∷ []) room m e =
      elim (Bool-cases (not (eqb_ℤ p.start_bit (pos 0)))) [
        | inl need ↦ (
          b / 2 ^ pos_part p.start_bit % 2 ^ (8 - pos_part p.start_bit) % 2 ∷ [],
          rw (need, m) refl,
        )
        | inr aligned ↦ (b % 2 ∷ [], rw aligned refl)
      ]
  convert_response_total malloc bool (b ∷ c ∷ s) room m e = absurd (omega (arith, e))
  convert_response_total malloc int8 s room m e = (s, refl)
  convert_response_total malloc uint8 s room m e = (s, refl)
  convert_response_total malloc int16 s room m e = swap16_total s e
  convert_response_total malloc uint16 s room m e = swap16_total s e
  convert_response_total malloc int32 s room m e = swap32_total s e
  convert_response_total malloc uint32 s room m e = swap32_total s e
  convert_response_total malloc float s room m e = swap32_total s e

  used_size_of_type :
      (t : PlcDataType)
      → pos_part p.start_bit < 8
      → (if need_intermediate_buffer (typed t)
          then bytes_of_bits (bits_of_type t + pos_part p.start_bit)
          else bytes_of_type t)
        ≡ bytes_of_type t
  used_size_of_type bool h = elim (Bool-cases (not (eqb_ℤ p.start_bit (pos 0)))) [
    | inl need ↦ rw need (one_byte (pos_part p.start_bit) h)
    | inr aligned ↦ rw aligned refl
  ]
  used_size_of_type int8 h = refl
  used_size_of_type uint8 h = refl
  used_size_of_type int16 h = refl
  used_size_of_type uint16 h = refl
  used_size_of_type int32 h = refl
  used_size_of_type uint32 h = refl
  used_size_of_type float h = refl

  read_from_plc_total :
      (malloc : ℕ → Bool) (plc : PlcReader) (t : PlcDataType) (buffer : Bytes)
      → pos_part p.start_bit < 8
      → Fills p plc
      → (r : ReadResult) × (read_from_plc malloc plc
            (typed t)
            (bits_of_type t)
            (some buffer)
            (bytes_of_type t)
          ≡ some r)
  unfolding read_from_plc
  read_from_plc_total malloc plc t buffer h fills =
      let r = plc p.area p.area_number p.start_byte (bytes_of_type t) in
      let need = need_intermediate_buffer (typed t) in
      rw (used_size_of_type t h) (
        if_Returns (need && not (malloc (bytes_of_type t))) _ _ (_, refl)
          (if_Returns (is_complete r (bytes_of_type t)) _ _
            (let (s, e) = align_result_total t r.bytes (fills (bytes_of_type t)) in
              ((true, s), rw e refl))
            (_, refl)))

-- What a record of one value is given: a reader that fills its buffers, or a response of the size that it
-- asked for, with memory for a second buffer.
abbrev pub IsFair : RecordAddress → Action → Type 0
IsFair a (callback malloc plc) = Fills a.plc_address plc
IsFair a (process answer write) = Unit
IsFair a (prepare malloc) = Unit
IsFair a (respond malloc success buffer) =
    ((room : Bytes) × (malloc 1 ≡ some room))
    × (length buffer ≡ poll_size a (bits_of_type a.plc_data_type))
IsFair a (set_pact b) = Unit

module _ (a : RecordAddress) (inside : pos_part a.plc_address.start_bit < 8) where
  abbrev bits : ℕ
  bits = bits_of_type a.plc_data_type

  read_buffer_total :
      (malloc : ℕ → Option Bytes) (plc : PlcReader) (buffer : Option Bytes)
      → Fills a.plc_address plc
      → Returns (read_buffer malloc plc a bits buffer)
  unfolding read_buffer
  read_buffer_total malloc plc none fills = (_, refl)
  read_buffer_total malloc plc (some b) fills =
      rw (size_of_type a.plc_address a.port_name a.record_parameters a.plc_data_type) (
        read_from_plc_total a.plc_address a.port_name a.record_parameters (λ n. is_held (malloc n))
          plc a.plc_data_type b inside fills)

  poll_size_of_type : poll_size a bits ≡ bytes_of_type a.plc_data_type
  poll_size_of_type =
      rw (size_of_type a.plc_address a.port_name a.record_parameters a.plc_data_type)
        (used_size_of_type a.plc_address a.port_name a.record_parameters a.plc_data_type inside)

  perform_input_total :
      (x : Action) (s : InputState) → IsFair a x → Returns (perform_input a bits x s)
  unfolding perform_input asyn_process_callback process_poll_response
  perform_input_total (callback malloc plc) s fair =
      let (r, e) = read_buffer_total malloc plc (malloc (bytes_of_bits bits)) fair in
      (
        finish_callback (has_spare (λ n. is_held (malloc n)) a bits) (malloc (bytes_of_bits bits)) r
            s,
        rw e refl,
      )
  perform_input_total (process answer write) s fair = (_, refl)
  perform_input_total (prepare malloc) s fair = (_, refl)
  perform_input_total (respond malloc false buffer) s fair = (_, refl)
  perform_input_total (respond malloc true buffer) s ((room, m), size) =
      bind-Returns (convert_response malloc a bits buffer) _ (
        convert_response_total a.plc_address a.port_name a.record_parameters malloc a.plc_data_type
          buffer room m (size ∙ poll_size_of_type))
  perform_input_total (set_pact b) s fair = (_, refl)

  run_input_total :
      (actions : List Action) (s : InputState)
      → All (IsFair a) actions
      → Returns (run_input a bits actions s)
  unfolding run_input
  run_input_total [] s fair = (_, refl)
  run_input_total (x ∷ actions) s (fair, rest) =
      let (first, e) = perform_input_total x s fair in
      let (later, k) = run_input_total actions first.state rest in
      (record { state = later.state; events = first.events ++ later.events }, rw (e, k) refl)

  -- Whatever happens to a record of one value, in any order, if its start bit is inside a byte and it is
  -- given what it asks for, then it stays within its buffers. It takes a buffer, by allocation or with a
  -- response, only in a place that is empty: that of its data, of the step that goes on, or of the second
  -- buffer for bits. It frees, moves and gives to its poll group only a buffer that it owns, and in the end it
  -- owns the buffer of its data, if it has data, and no other: none is lost or freed twice.
  pub run_input-IsBalanced :
      (actions : List Action) (s : InputState)
      → All (IsFair a) actions
      → (t : InputStep) × (run_input a (bits_of_type a.plc_data_type) actions s ≡ some t)
        × IsBalanced s.new_data t.events t.state.new_data
  run_input-IsBalanced actions s fair =
      let (t, e) = run_input_total actions s fair in
      (t, e, run_input-KeepsBuffers a bits actions s e)
