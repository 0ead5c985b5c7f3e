-- ===== src/Record/Transfer/Single.antt =====
-- Records whose data is a single bit.
use s7nodave.Asyn.{PlcArea, bool, success, is_success, bit}
use s7nodave.LongSupport.{convert_from_or_to_plc_byte_order}
use s7nodave.PlcAddress.{PlcAddress}
use s7nodave.Prelude.{
  false, ℕ, zero, suc, ◌*◌, ◌/◌, ◌%◌, ◌^◌, ◌<◌, ◌≡◌, refl, ap, Bool, true, Option, some, [], ◌∷◌,
  Bytes, ℤ, pos, arith, Bool-cases, ◌+ℤ◌, ◌>>=◌, negsuc, ◌∙◌, inl, inr,
}
use s7nodave.Record.Transfer.{
  PlcReader, PlcWriter, bit_value, WriteCall, plc_write_bit, WriteResult, ReadResult, read_from_plc,
  write_to_plc, align_result, align_read, align_write, write_used, write_first_bits, write_bytes,
  write_rest, write_last_bits,
}
use s7nodave.RecordAddress.{RecordAddress, DeviceParameters}

-- The address of a bit.
abbrev pub bit_address : Bytes → DeviceParameters → PlcArea → ℤ → ℤ → ℕ → RecordAddress
bit_address port parameters area number start_byte start_bit = record {
  port_name = port;
  plc_address = record {
    area = area;
    area_number = number;
    data_size = bit;
    start_byte = start_byte;
    start_bit = pos start_bit;
  };
  plc_data_type = bool;
  record_parameters = parameters;
}

-- What holds of the eight bits of a byte.
pub below_eight :
    (P : ℕ → Type 0) → P 0 → P 1 → P 2 → P 3 → P 4 → P 5 → P 6 → P 7 → (n : ℕ) → n < 8 → P n
below_eight P a b c d e f g h zero k = a
below_eight P a b c d e f g h (suc zero) k = b
below_eight P a b c d e f g h (suc (suc zero)) k = c
below_eight P a b c d e f g h (suc (suc (suc zero))) k = d
below_eight P a b c d e f g h (suc (suc (suc (suc zero)))) k = e
below_eight P a b c d e f g h (suc (suc (suc (suc (suc zero))))) k = f
below_eight P a b c d e f g h (suc (suc (suc (suc (suc (suc zero)))))) k = g
below_eight P a b c d e f g h (suc (suc (suc (suc (suc (suc (suc zero))))))) k = h
below_eight P a b c d e f g h (suc (suc (suc (suc (suc (suc (suc (suc n)))))))) k =
    absurd (omega (arith, k))

same_bit : {m n : ℕ} → m ≡ n → Path (Option ReadResult) (some (true, m ∷ [])) (some (true, n ∷ []))
same_bit e = ap (λ n. some (true, n ∷ [])) e

module _ (malloc : ℕ → Bool) (plc : PlcReader) (port : Bytes) (parameters : DeviceParameters)
    (area : PlcArea) (number start_byte : ℤ) (old byte : ℕ) where
  -- The bit that is read is that of the byte.
  abbrev ReadsBit : ℕ → Type 0
  ReadsBit start_bit =
      read_from_plc malloc plc (bit_address port parameters area number start_byte start_bit) 1
        (some (old ∷ [])) 1
      ≡ some (true, byte / 2 ^ start_bit % 2 ∷ [])

  read_from_plc_bit :
      (start_bit : ℕ)
      → start_bit < 8
      → malloc 1 ≡ true
      → plc area number start_byte 1
        ≡ record { status = success; bytes_read = pos 1; bytes = byte ∷ [] }
      → read_from_plc malloc plc
          (bit_address port parameters area number start_byte start_bit)
          1
          (some (old ∷ []))
          1
        ≡ some (true, byte / 2 ^ start_bit % 2 ∷ [])
  unfolding read_from_plc align_result align_read convert_from_or_to_plc_byte_order
  read_from_plc_bit start_bit i m e =
      below_eight ReadsBit (rw e (same_bit (omega arith))) (rw (e, m) (same_bit (omega arith)))
        (rw (e, m) (same_bit (omega arith))) (rw (e, m) (same_bit (omega arith)))
        (rw (e, m) (same_bit (omega arith))) (rw (e, m) (same_bit (omega arith)))
        (rw (e, m) (same_bit (omega arith))) (rw (e, m) (same_bit (omega arith))) start_bit i

pub plus_zero : (z : ℤ) → z +ℤ pos 0 ≡ z
plus_zero (pos n) = ground arith
plus_zero (negsuc n) = ground arith

module _ (plc : PlcWriter) (p : PlcAddress) where
  -- What is known when one call with this value has been made.
  abbrev after_bit : ℕ → ℕ → ℕ → WriteResult
  after_bit value start_bit v =
      let c = plc_write_bit p.area p.area_number p.start_byte start_bit v in
      record { ok = is_success (plc c).status; calls = c ∷ []; buffer = value ∷ [] }

  first_bit :
      (start_bit left start : ℕ) (begin length offset : ℤ) (used value byte : ℕ)
      → Path
          (Option WriteResult)
          (do
            third ← write_rest plc p 1 start offset (value ∷ []) (
                write_bytes plc p 1 begin length
                  (used ∷ [])
                  (write_first_bits plc p byte 1 start_bit 0 (suc left)))
            some (record { ok = third.ok; calls = third.calls; buffer = value ∷ [] }))
          (some (after_bit value start_bit (bit_value byte start_bit)))
  unfolding write_rest write_bytes write_first_bits
  first_bit start_bit left start begin length offset used value byte =
      elim (Bool-cases (
        is_success
          (plc (
            plc_write_bit p.area p.area_number p.start_byte start_bit
              (bit_value byte start_bit))).status)) [
                | inl k ↦ rw (k, write_first_bits) refl
                | inr k ↦ rw (k, write_first_bits) refl
              ]

  last_bit :
      (value : ℕ)
      → Path
          (Option WriteResult)
          (do
            third ← write_rest plc p 1 0 (pos 0) (value ∷ []) (
                write_bytes plc p 1
                  (p.start_byte +ℤ pos 0)
                  (pos 0)
                  (value ∷ [])
                  (record { count = 0; ok = true; calls = [] }))
            some (record { ok = third.ok; calls = third.calls; buffer = value ∷ [] }))
          (some (after_bit value 0 (bit_value value 0)))
  unfolding write_rest write_bytes write_last_bits
  last_bit value =
      rw (plus_zero p.start_byte)
        (elim (Bool-cases (
          is_success
            (plc (plc_write_bit p.area p.area_number p.start_byte 0 (bit_value value 0))).status)) [
              | inl k ↦ rw (k, write_last_bits) refl
              | inr k ↦ rw (k, write_last_bits) refl
            ])

module _ (malloc : ℕ → Bool) (plc : PlcWriter) (port : Bytes) (parameters : DeviceParameters)
    (area : PlcArea) (number start_byte : ℤ) (value : ℕ) where
  -- The call that writes the value of a bit.
  abbrev pub bit_call : ℕ → WriteCall
  bit_call start_bit = plc_write_bit area number start_byte start_bit (value % 2 * 2 ^ start_bit)

  abbrev WritesBit : ℕ → Type 0
  WritesBit start_bit =
      write_to_plc malloc plc (bit_address port parameters area number start_byte start_bit) 1
        (value ∷ [])
      ≡ some (record {
        ok = is_success (plc (bit_call start_bit)).status;
        calls = bit_call start_bit ∷ [];
        buffer = value ∷ [];
      })

  abbrev at : ℕ → PlcAddress
  at start_bit = (bit_address port parameters area number start_byte start_bit).plc_address

  made :
      (start_bit : ℕ) {v : ℕ}
      → v ≡ value % 2 * 2 ^ start_bit
      → Path (Option WriteResult) (some (after_bit plc (at start_bit) value start_bit v)) (
          some (record {
            ok = is_success (plc (bit_call start_bit)).status;
            calls = bit_call start_bit ∷ [];
            buffer = value ∷ [];
          }))
  made start_bit e = rw e refl

  pub write_to_plc_bit :
      (start_bit : ℕ)
      → start_bit < 8
      → malloc 1 ≡ true
      → write_to_plc malloc plc
          (bit_address port parameters area number start_byte start_bit)
          1
          (value ∷ [])
        ≡ some (record {
          ok = is_success (plc (bit_call start_bit)).status;
          calls = bit_call start_bit ∷ [];
          buffer = value ∷ [];
        })
  unfolding write_to_plc align_write write_used convert_from_or_to_plc_byte_order
  write_to_plc_bit start_bit i m =
      below_eight WritesBit (last_bit plc (at 0) value ∙ made 0 (omega arith))
        (rw m (first_bit plc (at 1) 1 6 _ _ _ _ _ _ _ ∙ made 1 (omega arith)))
        (rw m (first_bit plc (at 2) 2 5 _ _ _ _ _ _ _ ∙ made 2 (omega arith)))
        (rw m (first_bit plc (at 3) 3 4 _ _ _ _ _ _ _ ∙ made 3 (omega arith)))
        (rw m (first_bit plc (at 4) 4 3 _ _ _ _ _ _ _ ∙ made 4 (omega arith)))
        (rw m (first_bit plc (at 5) 5 2 _ _ _ _ _ _ _ ∙ made 5 (omega arith)))
        (rw m (first_bit plc (at 6) 6 1 _ _ _ _ _ _ _ ∙ made 6 (omega arith)))
        (rw m (first_bit plc (at 7) 7 0 _ _ _ _ _ _ _ ∙ made 7 (omega arith))) start_bit i

  abbrev no_room : WriteResult
  no_room = record { ok = false; calls = []; buffer = value ∷ [] }

  -- Without memory for a buffer, the write returns all the same.
  pub write_to_plc_full :
      (start_bit : ℕ)
      → start_bit < 8
      → malloc 1 ≡ false
      → (w : WriteResult) × (write_to_plc malloc plc
            (bit_address port parameters area number start_byte start_bit)
            1
            (value ∷ [])
          ≡ some w)
  unfolding write_to_plc write_used convert_from_or_to_plc_byte_order
  write_to_plc_full start_bit i m =
      below_eight
        (λ n.
          (w : WriteResult) × (write_to_plc malloc plc
              (bit_address port parameters area number start_byte n) 1 (value ∷ [])
            ≡ some w))
        (after_bit plc (at 0) value 0 (bit_value value 0), last_bit plc (at 0) value)
        (no_room, rw m refl) (no_room, rw m refl) (no_room, rw m refl) (no_room, rw m refl)
        (no_room, rw m refl) (no_room, rw m refl) (no_room, rw m refl) start_bit i

  -- If there is memory for a buffer, a record of a bit makes one call, which writes the lowest bit of its
  -- value to its bit of the PLC, and it succeeds when this call does; and when the driver reads a byte that
  -- holds this value in this bit, the record reads the lowest bit of its value again.
  pub write_to_plc-read_from_plc_bit :
      (reader : PlcReader) (start_bit old byte : ℕ)
      → start_bit < 8
      → malloc 1 ≡ true
      → reader area number start_byte 1
        ≡ record { status = success; bytes_read = pos 1; bytes = byte ∷ [] }
      → byte / 2 ^ start_bit % 2 ≡ value % 2
      → (write_to_plc malloc plc
            (bit_address port parameters area number start_byte start_bit)
            1
            (value ∷ [])
          ≡ some (record {
            ok = is_success (plc (bit_call start_bit)).status;
            calls = bit_call start_bit ∷ [];
            buffer = value ∷ [];
          }))
        × (read_from_plc malloc reader
              (bit_address port parameters area number start_byte start_bit)
              1
              (some (old ∷ []))
              1
            ≡ some (true, value % 2 ∷ []))
  write_to_plc-read_from_plc_bit reader start_bit old byte i m e stored = (
    write_to_plc_bit start_bit i m,
    read_from_plc_bit malloc reader port parameters area number start_byte old byte start_bit i m e
        ∙ same_bit stored,
  )
