-- ===== src/Record/Output/Totality.antt =====
-- A record of one value of s7nodaveApp/src/S7nodaveOutputRecord.cc stays within its buffers.
use s7nodave.Asyn.{
  AsynStatus, PlcArea, PlcDataType, bool, int8, uint8, int16, uint16, int32, uint32, float,
  is_success,
}
use s7nodave.LongSupport.RoundTrip.{bytes_of_type}
use s7nodave.LongSupport.{convert_from_or_to_plc_byte_order}
use s7nodave.PlcAddress.{PlcAddress}
use s7nodave.Prelude.{
  ℕ, ◌<◌, ◌≡◌, refl, Bool, true, false, ◌&&◌, Option, none, some, List, [], ◌∷◌, ◌++◌, Bytes,
  length, All, arith, Bool-cases, Option-cases, inl, inr, ltb, ℤ,
}
use s7nodave.Record.Buffers.{IsBalanced, is_held}
use s7nodave.Record.Input.Totality.{Returns, bind-Returns}
use s7nodave.Record.Output.Ownership.{run_output-KeepsBuffers}
use s7nodave.Record.Output.{
  OutputState, OutputStep, queue_write, write_data, finish_write, asyn_process_callback_output,
  process_record_output, OutputAction, callback, process, set_pact, perform_output, run_output,
}
use s7nodave.Record.Transfer.Single.{bit_address, write_to_plc_full, write_to_plc_bit}
use s7nodave.Record.Transfer.{
  has_spare, PlcWriter, Progress, write_bytes, write_rest, write_used, write_to_plc,
}
use s7nodave.Record.{bytes_of_bits}
use s7nodave.RecordAddress.{RecordAddress, DeviceParameters, bits_of_type}

and_false : (b : Bool) → b && false ≡ false
and_false true = refl
and_false false = refl

write_rest-Returns :
    (plc : PlcWriter) (p : PlcAddress) (bits start_bit : ℕ) (offset : ℤ) (buffer : Bytes)
    (w : Progress)
    → ltb w.count bits ≡ false
    → Returns (write_rest plc p bits start_bit offset buffer w)
unfolding write_rest
write_rest-Returns plc p bits start_bit offset buffer w e =
    rw (e, write_rest, and_false w.ok) (w, refl)

shape1 : (P : Bytes → Type 0) → ((a : ℕ) → P (a ∷ [])) → (s : Bytes) → length s ≡ 1 → P s
shape1 P h [] e = absurd (omega (arith, e))
shape1 P h (a ∷ []) e = h a
shape1 P h (a ∷ b ∷ s) e = absurd (omega (arith, e))

shape2 : (P : Bytes → Type 0) → ((a b : ℕ) → P (a ∷ b ∷ [])) → (s : Bytes) → length s ≡ 2 → P s
shape2 P h [] e = absurd (omega (arith, e))
shape2 P h (a ∷ s) e = shape1 (λ r. P (a ∷ r)) (h a) s (omega (arith, e))

shape4 :
    (P : Bytes → Type 0)
    → ((a b c d : ℕ) → P (a ∷ b ∷ c ∷ d ∷ []))
    → (s : Bytes) → length s ≡ 4
    → P s
shape4 P h [] e = absurd (omega (arith, e))
shape4 P h (a ∷ []) e = absurd (omega (arith, e))
shape4 P h (a ∷ b ∷ s) e = shape2 (λ r. P (a ∷ b ∷ r)) (h a b) s (omega (arith, e))

module _ (malloc : ℕ → Bool) (plc : PlcWriter) (p : PlcAddress) (port : Bytes)
    (parameters : DeviceParameters) where
  abbrev typed : PlcDataType → RecordAddress
  typed t = record {
    port_name = port;
    plc_address = p;
    plc_data_type = t;
    record_parameters = parameters;
  }

  -- A write of this type returns.
  abbrev Writes : PlcDataType → Bytes → Type 0
  Writes t s = Returns (write_to_plc malloc plc (typed t) (bits_of_type t) s)

  write_int8 : (a : ℕ) → Writes int8 (a ∷ [])
  unfolding write_to_plc write_used write_bytes convert_from_or_to_plc_byte_order
  write_int8 a = bind-Returns _ _ (write_rest-Returns plc p 8 _ _ (a ∷ []) _ refl)

  write_int16 : (a b : ℕ) → Writes int16 (a ∷ b ∷ [])
  unfolding write_to_plc write_used write_bytes convert_from_or_to_plc_byte_order
  write_int16 a b = bind-Returns _ _ (write_rest-Returns plc p 16 _ _ (b ∷ a ∷ []) _ refl)

  write_int32 : (a b c d : ℕ) → Writes int32 (a ∷ b ∷ c ∷ d ∷ [])
  unfolding write_to_plc write_used write_bytes convert_from_or_to_plc_byte_order
  write_int32 a b c d =
      bind-Returns _ _ (write_rest-Returns plc p 32 _ _ (d ∷ c ∷ b ∷ a ∷ []) _ refl)

  write_uint8 : (a : ℕ) → Writes uint8 (a ∷ [])
  unfolding write_to_plc write_used write_bytes convert_from_or_to_plc_byte_order
  write_uint8 a = bind-Returns _ _ (write_rest-Returns plc p 8 _ _ (a ∷ []) _ refl)

  write_uint16 : (a b : ℕ) → Writes uint16 (a ∷ b ∷ [])
  unfolding write_to_plc write_used write_bytes convert_from_or_to_plc_byte_order
  write_uint16 a b = bind-Returns _ _ (write_rest-Returns plc p 16 _ _ (b ∷ a ∷ []) _ refl)

  write_uint32 : (a b c d : ℕ) → Writes uint32 (a ∷ b ∷ c ∷ d ∷ [])
  unfolding write_to_plc write_used write_bytes convert_from_or_to_plc_byte_order
  write_uint32 a b c d =
      bind-Returns _ _ (write_rest-Returns plc p 32 _ _ (d ∷ c ∷ b ∷ a ∷ []) _ refl)

  write_float : (a b c d : ℕ) → Writes float (a ∷ b ∷ c ∷ d ∷ [])
  unfolding write_to_plc write_used write_bytes convert_from_or_to_plc_byte_order
  write_float a b c d =
      bind-Returns _ _ (write_rest-Returns plc p 32 _ _ (d ∷ c ∷ b ∷ a ∷ []) _ refl)

  write_to_plc_total :
      (t : PlcDataType) (s : Bytes) → (t ≡ bool → ⊥) → length s ≡ bytes_of_type t → Writes t s
  write_to_plc_total bool s word e = absurd (word refl)
  write_to_plc_total int8 s word e = shape1 (Writes int8) write_int8 s e
  write_to_plc_total uint8 s word e = shape1 (Writes uint8) write_uint8 s e
  write_to_plc_total int16 s word e = shape2 (Writes int16) write_int16 s e
  write_to_plc_total uint16 s word e = shape2 (Writes uint16) write_uint16 s e
  write_to_plc_total int32 s word e = shape4 (Writes int32) write_int32 s e
  write_to_plc_total uint32 s word e = shape4 (Writes uint32) write_uint32 s e
  write_to_plc_total float s word e = shape4 (Writes float) write_float s e

-- The address of a bit inside a byte, or that of a number.
pub data IsSingle : RecordAddress → Type 0 where
  a_bit :
      (port : Bytes) (parameters : DeviceParameters) (area : PlcArea) (number start_byte : ℤ)
      (start_bit : ℕ)
      → start_bit < 8
      → IsSingle (bit_address port parameters area number start_byte start_bit)
  a_number : (a : RecordAddress) → (a.plc_data_type ≡ bool → ⊥) → IsSingle a

write_single :
    (malloc : ℕ → Bool) (plc : PlcWriter) {a : RecordAddress} (s : Bytes)
    → IsSingle a
    → length s ≡ bytes_of_type a.plc_data_type
    → Returns (write_to_plc malloc plc a (bits_of_type a.plc_data_type) s)
write_single malloc plc s (a_bit port parameters area number start_byte start_bit inside) e =
    shape1
      (λ r. Returns (
        write_to_plc malloc plc (bit_address port parameters area number start_byte start_bit) 1 r))
      (λ v. elim (Bool-cases (malloc 1)) [
        | inl room ↦ (
          _,
          write_to_plc_bit malloc plc port parameters area number start_byte v start_bit inside
              room,
        )
        | inr full ↦
            write_to_plc_full malloc plc port parameters area number start_byte v start_bit inside
              full
      ])
      s e
write_single malloc plc s (a_number a word) e =
    write_to_plc_total malloc plc a.plc_address a.port_name a.record_parameters a.plc_data_type s
      word e

-- The data that a record holds have the size of its type.
abbrev pub HasSize : RecordAddress → Option Bytes → Type 0
HasSize a none = Unit
HasSize a (some s) = length s ≡ bytes_of_type a.plc_data_type

-- A record is given values of the size of its type.
abbrev pub IsSized : RecordAddress → OutputAction → Type 0
IsSized a (callback malloc plc) = Unit
IsSized a (process malloc read answer) =
    (b : Bytes) → length (read b) ≡ bytes_of_type a.plc_data_type
IsSized a (set_pact b) = Unit

module _ (a : RecordAddress) (single : IsSingle a) where
  abbrev bits : ℕ
  bits = bits_of_type a.plc_data_type

  -- A step that returns, with data of the right size.
  abbrev GoesOn : Option OutputStep → Type 0
  GoesOn o = (t : OutputStep) × (o ≡ some t) × HasSize a t.state.new_data

  write_data_total :
      (malloc : ℕ → Bool) (plc : PlcWriter) (o : Option Bytes)
      → HasSize a o
      → Returns (write_data malloc plc a bits o)
  unfolding write_data
  write_data_total malloc plc none size = (_, refl)
  write_data_total malloc plc (some s) size =
      bind-Returns _ _ (write_single malloc plc s single size)

  queue_write-HasSize :
      (answer : AsynStatus) (s : Bytes) (state : OutputState)
      → length s ≡ bytes_of_type a.plc_data_type
      → HasSize a (queue_write answer s state).state.new_data
  unfolding queue_write
  queue_write-HasSize answer s state size = elim (Bool-cases (is_success answer)) [
    | inl accepted ↦ rw (accepted, queue_write) size
    | inr refused ↦ rw (refused, queue_write) size
  ]

  process_record_output-HasSize :
      (malloc : ℕ → Option Bytes) (read : Bytes → Bytes) (answer : AsynStatus) (s : OutputState)
      → ((b : Bytes) → length (read b) ≡ bytes_of_type a.plc_data_type)
      → HasSize a s.new_data
      → HasSize a (process_record_output malloc read answer bits s).state.new_data
  unfolding process_record_output
  process_record_output-HasSize malloc read answer s sized size = elim (Bool-cases s.pact) [
    | inl busy ↦ elim (Bool-cases s.process_callback_error) [
      | inl bad ↦ rw (busy, process_record_output, bad) size
      | inr good ↦ rw (busy, process_record_output, good) size
    ]
    | inr free ↦ elim (Option-cases (malloc (bytes_of_bits bits))) [
      | inl full ↦ rw (free, process_record_output, full) size
      | inr (b, room) ↦
          rw (free, process_record_output, room) (queue_write-HasSize answer (read b) s (sized b))
    ]
  ]

  perform_output_total :
      (x : OutputAction) (s : OutputState)
      → IsSized a x
      → HasSize a s.new_data
      → GoesOn (perform_output a bits x s)
  unfolding perform_output asyn_process_callback_output finish_write
  perform_output_total (callback malloc plc) s fair size =
      let (w, e) = write_data_total malloc plc s.new_data size in
      (finish_write (has_spare malloc a bits) (is_held s.new_data) w.0 w.1 s, rw e refl, tt)
  perform_output_total (process malloc read answer) s fair size =
      (_, refl, process_record_output-HasSize malloc read answer s fair size)
  perform_output_total (set_pact b) s fair size = (_, refl, size)

  run_output_total :
      (actions : List OutputAction) (s : OutputState)
      → All (IsSized a) actions
      → HasSize a s.new_data
      → Returns (run_output a bits actions s)
  unfolding run_output
  run_output_total [] s fair size = (_, refl)
  run_output_total (x ∷ actions) s (fair, rest) size =
      let (first, e, size') = perform_output_total x s fair size in
      let (later, k) = run_output_total actions first.state rest size' in
      (
        record {
          state = later.state;
          events = first.events ++ later.events;
          calls = first.calls ++ later.calls;
        },
        rw (e, k) refl,
      )

  -- Whatever happens to a record of one number or of one bit inside a byte, in any order, if its values
  -- have the size of its type, as has what it holds at first, then it stays within its buffers. It takes a
  -- buffer only in a place that is empty: that of its data, of the step that goes on, or of the second buffer
  -- for bits. It frees and moves only a buffer that it owns, and in the end it owns the buffer of its data, if it
  -- has data, and no other: none is lost or freed twice.
  pub run_output-IsBalanced :
      (actions : List OutputAction) (s : OutputState)
      → All (IsSized a) actions
      → HasSize a s.new_data
      → (t : OutputStep) × (run_output a (bits_of_type a.plc_data_type) actions s ≡ some t)
        × IsBalanced s.new_data t.events t.state.new_data
  run_output-IsBalanced actions s fair size =
      let (t, e) = run_output_total actions s fair size in
      (t, e, run_output-KeepsBuffers a bits actions s e)
