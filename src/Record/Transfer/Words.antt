-- ===== src/Record/Transfer/Words.antt =====
-- Records whose data are whole bytes: numbers, and arrays of them.
use s7nodave.Asyn.{success}
use s7nodave.LongSupport.RoundTrip.{convert_from_or_to_plc_byte_order_twice}
use s7nodave.LongSupport.{convert_from_or_to_plc_byte_order}
use s7nodave.Prelude.{
  Bool, ℕ, ◌+◌, ◌*◌, ◌%◌, ◌^◌, ◌<◌, ◌-◌, ◌≡◌, refl, true, false, some, [], ◌∷◌, Bytes, length, ltb,
  leb, ℤ, pos, eqb_ℤ, sub_ℕ, arith,
}
use s7nodave.Record.Transfer.{
  PlcReader, PlcWriter, WriteCall, Progress, plc_write, is_bool, read_from_plc, write_to_plc,
  align_result, write_used, write_bytes, write_rest,
}
use s7nodave.Record.Transfer.Single.{plus_zero}
use s7nodave.RecordAddress.{RecordAddress}

eqb_self : (n : ℕ) → eqb_ℤ (pos n) (pos n) ≡ true
eqb_self n = ground arith

sub_zero : (n : ℕ) → sub_ℕ n 0 ≡ pos n
sub_zero n = ground arith

-- So many bytes are written by one call, and no bits are left.
all_bytes :
    (n : ℕ)
    → 0 < n
    → 8 * n < 2 ^ 64
    → (leb 8 ((2 ^ 64 + 8 * n - 0) % 2 ^ 64) ≡ true) × (ltb (0 + 8 * n) (8 * n) ≡ false)
all_bytes n some_bytes fits = (ground arith, ground arith)

module _ (malloc : ℕ → Bool) (a : RecordAddress) (words : is_bool a.plc_data_type ≡ false) where
  -- The call that writes the bytes.
  abbrev pub write_call : Bytes → WriteCall
  write_call payload =
      plc_write a.plc_address.area a.plc_address.area_number a.plc_address.start_byte
        (pos (length payload)) payload

  abbrev written : Bytes → Progress
  written payload = record {
    count = 0 + 8 * length payload;
    ok = true;
    calls = write_call payload ∷ [];
  }

  write_bytes-written :
      (plc : PlcWriter) (payload : Bytes)
      → 0 < length payload
      → 8 * length payload < 2 ^ 64
      → plc (write_call payload) ≡ record { status = success; bytes_written = pos (length payload) }
      → write_bytes plc a.plc_address
          (8 * length payload)
          a.plc_address.start_byte
          (pos (length payload))
          payload
          (record { count = 0; ok = true; calls = [] })
        ≡ written payload
  unfolding write_bytes
  write_bytes-written plc payload some_bytes fits answer =
      rw ((all_bytes (length payload) some_bytes fits).0, answer, eqb_self (length payload)) refl

  write_rest-written :
      (plc : PlcWriter) (payload : Bytes) (start_bit : ℕ) (offset : ℤ)
      → 0 < length payload
      → 8 * length payload < 2 ^ 64
      → write_rest plc a.plc_address (8 * length payload) start_bit offset payload (written payload)
        ≡ some (written payload)
  unfolding write_rest
  write_rest-written plc payload start_bit offset some_bytes fits =
      rw ((all_bytes (length payload) some_bytes fits).1) refl

  write_used_words :
      (plc : PlcWriter) (payload : Bytes)
      → 0 < length payload
      → 8 * length payload < 2 ^ 64
      → plc (write_call payload) ≡ record { status = success; bytes_written = pos (length payload) }
      → write_used plc a (8 * length payload) payload payload
        ≡ some (record { ok = true; calls = write_call payload ∷ []; buffer = payload })
  unfolding write_used
  write_used_words plc payload some_bytes fits answer =
      rw
        (
          words,
          sub_zero (length payload),
          plus_zero a.plc_address.start_byte,
          write_bytes-written plc payload some_bytes fits answer,
          write_rest-written plc payload _ _ some_bytes fits,
        )
        refl

  write_to_plc_words :
      (plc : PlcWriter) (buffer payload : Bytes)
      → convert_from_or_to_plc_byte_order buffer a.plc_data_type ≡ some payload
      → 0 < length payload
      → 8 * length payload < 2 ^ 64
      → plc (write_call payload) ≡ record { status = success; bytes_written = pos (length payload) }
      → write_to_plc malloc plc a (8 * length payload) buffer
        ≡ some (record { ok = true; calls = write_call payload ∷ []; buffer = payload })
  unfolding write_to_plc
  write_to_plc_words plc buffer payload e some_bytes fits answer =
      rw (e, words) (write_used_words plc payload some_bytes fits answer)

  read_from_plc_words :
      (reader : PlcReader) (buffer payload old : Bytes)
      → convert_from_or_to_plc_byte_order buffer a.plc_data_type ≡ some payload
      → reader a.plc_address.area a.plc_address.area_number a.plc_address.start_byte
          (length payload)
        ≡ record { status = success; bytes_read = pos (length payload); bytes = payload }
      → read_from_plc malloc reader a (8 * length payload) (some old) (length payload)
        ≡ some (true, buffer)
  unfolding read_from_plc align_result
  read_from_plc_words reader buffer payload old e answer =
      rw
        (
          words,
          answer,
          eqb_self (length payload),
          convert_from_or_to_plc_byte_order_twice buffer payload a.plc_data_type e,
        )
        refl

  -- If the data are no bits, the buffer can be converted to some bytes, at least one, and the driver
  -- writes them all, then the buffer is written by one call with these bytes; and when the driver reads
  -- them again, the record has its buffer back.
  pub write_to_plc-read_from_plc :
      (plc : PlcWriter) (reader : PlcReader) (buffer payload old : Bytes)
      → convert_from_or_to_plc_byte_order buffer a.plc_data_type ≡ some payload
      → 0 < length payload
      → 8 * length payload < 2 ^ 64
      → plc (write_call payload) ≡ record { status = success; bytes_written = pos (length payload) }
      → reader a.plc_address.area a.plc_address.area_number a.plc_address.start_byte
          (length payload)
        ≡ record { status = success; bytes_read = pos (length payload); bytes = payload }
      → (write_to_plc malloc plc a (8 * length payload) buffer
          ≡ some (record { ok = true; calls = write_call payload ∷ []; buffer = payload }))
        × (read_from_plc malloc reader a (8 * length payload) (some old) (length payload)
            ≡ some (true, buffer))
  write_to_plc-read_from_plc plc reader buffer payload old e some_bytes fits writes reads = (
    write_to_plc_words plc buffer payload e some_bytes fits writes,
    read_from_plc_words reader buffer payload old e reads,
  )
