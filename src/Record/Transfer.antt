-- ===== src/Record/Transfer.antt =====
-- s7nodaveApp/src/S7nodaveRecord.cc, `readFromPlc` and `writeToPlc`: bytes between a record's buffer
-- and the PLC, with their bits moved where an address begins inside a byte.
-- The driver is a parameter that answers the calls. `none` is an access behind a buffer. The two
-- operands of each `|` in the code have no bit in common, so it is a sum here.
pub mod Single
pub mod Words
use s7nodave.Asyn.{PlcArea, PlcDataType, bool, AsynStatus, success, is_success}
use s7nodave.LongSupport.{convert_from_or_to_plc_byte_order}
use s7nodave.PlcAddress.{PlcAddress}
use s7nodave.Prelude.{
  ℕ, zero, suc, ◌+◌, ◌-◌, ◌*◌, ◌/◌, ◌%◌, ◌^◌, Bool, true, false, not, ◌&&◌, ◌||◌, Option, none,
  some, ◌>>=◌, List, [], ◌∷◌, ◌++◌, Bytes, ltb, leb, ◌==◌, if◌then◌else◌, length, get_elem?, ℤ, pos,
  negsuc, pos_part, eqb_ℤ, sub_ℕ, ◌+ℤ◌,
}
use s7nodave.Record.{bytes_of_bits}
use s7nodave.RecordAddress.{RecordAddress}

-- A read has a status, a count of bytes, and the buffer as it is afterwards.
pub record Reading : Type 0 where
  pub status : AsynStatus
  pub bytes_read : ℤ
  pub bytes : Bytes

-- The area, its number, the start and the length.
abbrev pub PlcReader : Type 0
PlcReader = PlcArea → ℤ → ℤ → ℕ → Reading

pub data WriteCall : Type 0 where
  plc_write : PlcArea → ℤ → ℤ → ℤ → Bytes → WriteCall
  -- The byte, the bit and its value.
  plc_write_bit : PlcArea → ℤ → ℤ → ℕ → ℕ → WriteCall

-- A write has a status and a count of bytes, which bits do not have.
pub record Written : Type 0 where
  pub status : AsynStatus
  pub bytes_written : ℤ

abbrev pub PlcWriter : Type 0
PlcWriter = WriteCall → Written

-- `buffer[size - 1] &= bitMasks[bits]`.
abbrev pub mask_last : ℕ → ℕ → Bytes → Option Bytes
mask_last bits size [] = none
mask_last bits zero (b ∷ buffer) = none
mask_last bits (suc zero) (b ∷ buffer) = some (b % 2 ^ bits ∷ buffer)
mask_last bits (suc (suc size)) (b ∷ buffer) = do
  rest ← mask_last bits (suc size) buffer
  some (b ∷ rest)

-- So many bytes that begin at a bit of the first one.
unfoldable pub align_read : ℕ → ℕ → Bytes → Option Bytes
align_read start_bit zero used = some []
align_read start_bit (suc size) [] = none
align_read start_bit (suc size) (b ∷ []) = do
  rest ← align_read start_bit size []
  some (b / 2 ^ start_bit % 2 ^ (8 - start_bit) ∷ rest)
align_read start_bit (suc size) (b ∷ b2 ∷ used) = do
  rest ← align_read start_bit size (b2 ∷ used)
  some ((b / 2 ^ start_bit % 2 ^ (8 - start_bit) + b2 * 2 ^ (8 - start_bit) % 2 ^ 8) ∷ rest)

abbrev pub mask_rest : ℕ → ℕ → Bytes → Option Bytes
mask_rest bits size buffer = if bits % 8 == 0 then some buffer else mask_last (bits % 8) size buffer

-- The start bit as a number; that of an address of bits is never negative.
abbrev pub start_bit_of : RecordAddress → ℕ
start_bit_of a = pos_part a.plc_address.start_bit

abbrev pub is_bool : PlcDataType → Bool
is_bool bool = true
is_bool _ = false

abbrev pub need_intermediate_buffer : RecordAddress → Bool
need_intermediate_buffer a = is_bool a.plc_data_type && not (eqb_ℤ a.plc_address.start_bit (pos 0))

-- Whether a transfer of so many bits allocates a second buffer.
abbrev pub has_spare : (ℕ → Bool) → RecordAddress → ℕ → Bool
has_spare malloc a bits =
    need_intermediate_buffer a && malloc (bytes_of_bits (bits + start_bit_of a))

-- The success and the buffer afterwards.
abbrev pub ReadResult : Type 0
ReadResult = Bool × Bytes

-- A read of so many bytes that was not in error.
abbrev pub is_complete : Reading → ℕ → Bool
is_complete r buffer_size = is_success r.status && eqb_ℤ r.bytes_read (pos buffer_size)

-- The bits of a successful read, aligned and masked, in the byte order of the host.
unfoldable pub align_result : RecordAddress → ℕ → ℕ → Bytes → Option Bytes
align_result a bits buffer_size bytes = do
  aligned ←
      (if need_intermediate_buffer a
        then align_read (start_bit_of a) buffer_size bytes
        else some bytes)
  masked ←
      (if need_intermediate_buffer a
        then mask_rest bits buffer_size aligned
        else if is_bool a.plc_data_type && not (buffer_size == 0)
        then mask_rest bits buffer_size aligned
        else some aligned)
  convert_from_or_to_plc_byte_order masked a.plc_data_type

-- The allocator is asked for the size of the intermediate buffer if one is needed.
unfoldable pub read_from_plc :
    (ℕ → Bool) → PlcReader → RecordAddress → ℕ → Option Bytes → ℕ → Option ReadResult
read_from_plc malloc plc a bits none buffer_size = some (false, [])
read_from_plc malloc plc a bits (some buffer) buffer_size =
    let need = need_intermediate_buffer a in
    let used_size = if need then bytes_of_bits (bits + start_bit_of a) else buffer_size in
    let p = a.plc_address in
    let r = plc p.area p.area_number p.start_byte used_size in
    if need && not (malloc used_size)
    then some (false, buffer)
    else if is_complete r buffer_size
    then (do bytes ← align_result a bits buffer_size r.bytes; some (true, bytes))
    else some (false, if need then buffer else r.bytes)

-- The bytes moved up to the start bit, behind the byte that was moved last.
unfoldable pub align_write : ℕ → ℕ → ℕ → Bytes → Option Bytes
align_write start_bit last zero buffer = some []
align_write start_bit last (suc zero) [] =
    some (last / 2 ^ (8 - start_bit) % 2 ^ (8 - start_bit) ∷ [])
align_write start_bit last (suc (suc size)) [] = none
align_write start_bit last (suc size) (b ∷ buffer) = do
  rest ← align_write start_bit b size buffer
  some ((b * 2 ^ start_bit % 2 ^ 8 + last / 2 ^ (8 - start_bit) % 2 ^ (8 - start_bit)) ∷ rest)

-- The bits written so far, whether no call failed, and the calls.
pub record Progress : Type 0 where
  pub count : ℕ
  pub ok : Bool
  pub calls : List WriteCall

abbrev pub after_call : WriteCall → Progress → Progress
after_call c w = record { count = w.count; ok = w.ok; calls = c ∷ w.calls }

-- A bit of a byte, in its place.
abbrev pub bit_value : ℕ → ℕ → ℕ
bit_value byte bit_number = byte / 2 ^ bit_number % 2 * 2 ^ bit_number

-- The count of bits after so many bytes; eight times a C integer is added to a 64-bit word, which a negative
-- number makes wrap.
abbrev pub add_bits : ℕ → ℤ → ℕ
add_bits count (pos n) = count + 8 * n
add_bits count (negsuc n) = (count + 2 ^ 64 - 8 * (n + 1)) % 2 ^ 64

module _ (plc : PlcWriter) (p : PlcAddress) where
  -- The bits of the first byte from this one up, as many as there are in it, until all are written.
  unfoldable pub write_first_bits : ℕ → ℕ → ℕ → ℕ → ℕ → Progress
  write_first_bits byte bits bit_number count zero = record { count = count; ok = true; calls = [] }
  write_first_bits byte bits bit_number count (suc left) =
      let c =
        plc_write_bit p.area p.area_number p.start_byte bit_number (bit_value byte bit_number) in
      elim (is_success (plc c).status) [
        | false ↦ record { count = count; ok = false; calls = c ∷ [] }
        | true ↦ elim (count + 1 == bits) [
          | true ↦ record { count = count + 1; ok = true; calls = c ∷ [] }
          | false ↦ after_call c (write_first_bits byte bits (bit_number + 1) (count + 1) left)
        ]
      ]

  -- So many bits of the last byte, from this one up.
  unfoldable pub write_last_bits : ℤ → ℕ → ℕ → ℕ → ℕ → Progress
  write_last_bits start byte bit_number count zero = record { count = count; ok = true; calls = [] }
  write_last_bits start byte bit_number count (suc left) =
      let c = plc_write_bit p.area p.area_number start bit_number (bit_value byte bit_number) in
      elim (is_success (plc c).status) [
        | false ↦ record { count = count; ok = false; calls = c ∷ [] }
        | true ↦ after_call c (write_last_bits start byte (bit_number + 1) count left)
      ]

  -- The complete bytes, if there are eight bits left; the difference is that of a 64-bit word.
  unfoldable pub write_bytes : ℕ → ℤ → ℤ → Bytes → Progress → Progress
  write_bytes bits start write_length used w =
      let c = plc_write p.area p.area_number start write_length used in
      let r = plc c in
      if w.ok && leb 8 ((2 ^ 64 + bits - w.count) % 2 ^ 64)
      then record {
        count = add_bits w.count write_length;
        ok = is_success r.status && eqb_ℤ r.bytes_written write_length;
        calls = w.calls ++ c ∷ [];
      }
      else w

  -- The bits that are left, from this byte of the buffer.
  unfoldable pub write_rest : ℕ → ℕ → ℤ → Bytes → Progress → Option Progress
  write_rest bits start_bit offset buffer w =
      if w.ok && ltb w.count bits
      then (do
        last_byte ← elim offset [ pos n ↦ get_elem? buffer n | negsuc n ↦ none ]
        let l = write_last_bits (p.start_byte +ℤ offset) last_byte 0 w.count (start_bit + bits % 8)
        some (record { count = l.count; ok = l.ok; calls = w.calls ++ l.calls }))
      else some w

-- The success, the calls, and the buffer afterwards.
pub record WriteResult : Type 0 where
  pub ok : Bool
  pub calls : List WriteCall
  pub buffer : Bytes

-- What follows when the bytes to be written are at hand.
unfoldable pub write_used : PlcWriter → RecordAddress → ℕ → Bytes → Bytes → Option WriteResult
write_used plc a bits buffer used = do
  let p = a.plc_address
  let start_bit = start_bit_of a
  let need = need_intermediate_buffer a
  let bytes_offset = if need then 1 else 0
  let is_partial = is_bool a.plc_data_type && not ((bits + start_bit) % 8 == 0)
  let write_length = sub_ℕ (length used) ((if is_partial then 1 else 0) + bytes_offset)
  first_byte ← (if need then get_elem? used 0 else some 0)
  let first =
      (if need
        then write_first_bits plc p first_byte bits start_bit 0 (8 - start_bit)
        else record { count = 0; ok = true; calls = [] })
  let second = write_bytes plc p bits (p.start_byte +ℤ pos bytes_offset) write_length used first
  third ← write_rest plc p bits start_bit (pos bytes_offset +ℤ write_length) buffer second
  some (record { ok = third.ok; calls = third.calls; buffer = buffer })

-- The buffer has the size that its length tells.
unfoldable pub write_to_plc :
    (ℕ → Bool) → PlcWriter → RecordAddress → ℕ → Bytes → Option WriteResult
write_to_plc malloc plc a bits buffer = do
  converted ← convert_from_or_to_plc_byte_order buffer a.plc_data_type
  let used_size = bytes_of_bits (bits + start_bit_of a)
  (if not (need_intermediate_buffer a)
      then write_used plc a bits converted converted
      else if not (malloc used_size)
      then some (record { ok = false; calls = []; buffer = converted })
      else (do
        used ← align_write (start_bit_of a) 0 used_size converted
        write_used plc a bits converted used))
