-- ===== src/AnalogSupport/RoundTrip.antt =====
-- Values written and read again by s7nodaveApp/src/AnalogSupport.cc.
use s7nodave.AnalogSupport.{Floats, Analog, analog_read_internal, analog_write_internal}
use s7nodave.Asyn.{PlcDataType, bool, int8, uint8, int16, uint16, int32, uint32, float}
use s7nodave.LongSupport.RoundTrip.{
  Holds, bytes_of_type, store32-load32, write_internal-read_internal,
}
use s7nodave.LongSupport.{read_internal, write_internal}
use s7nodave.Prelude.{◌^◌, ◌≤◌, ◌<◌, ◌≡◌, refl, false, some, Bytes, length, ℤ, arith}

module _ {ℓ} {D : Type ℓ} (fl : Floats D) where
  -- The type can hold the value: `rval` if it is one of integers, `val` if it is that of floats.
  abbrev pub IsExact : PlcDataType → ℤ → D → Type ℓ
  IsExact float rval val = (fl.to_float val < 2 ^ 32) × (fl.of_float (fl.to_float val) ≡ val)
  IsExact t rval val = Holds t rval × Unit {ℓ}

  -- What a read leaves that gives `rval` and `val`, in a record that has `rval'` and `val'`.
  abbrev pub result : PlcDataType → ℤ → D → ℤ → D → Analog D
  result float rval val rval' val' = record { rval = rval'; val = val; alarm = false }
  result t rval val rval' val' = record { rval = rval; val = val'; alarm = false }

  -- Integers are written and read as those of long records.
  IsRead : PlcDataType → ℤ → ℤ → D → Bytes → Type ℓ
  IsRead t rval rval' val' s =
      read_internal rval' s t ≡ some (rval, false)
      → analog_read_internal fl rval' val' s t
        ≡ some (record { rval = rval; val = val'; alarm = false })

  analog_read_internal_lem :
      (t : PlcDataType) (rval rval' : ℤ) (val' : D) (s : Bytes) → IsRead t rval rval' val' s
  unfolding IsRead read_internal analog_read_internal
  analog_read_internal_lem bool rval rval' val' s e = ground arith
  analog_read_internal_lem int8 rval rval' val' s e = ground arith
  analog_read_internal_lem uint8 rval rval' val' s e = ground arith
  analog_read_internal_lem int16 rval rval' val' s e = ground arith
  analog_read_internal_lem uint16 rval rval' val' s e = ground arith
  analog_read_internal_lem int32 rval rval' val' s e = ground arith
  analog_read_internal_lem uint32 rval rval' val' s e = cc
  analog_read_internal_lem float rval rval' val' s e = cc

  IsCarried : PlcDataType → ℤ → D → ℤ → D → Bytes → Type ℓ
  IsCarried t rval val rval' val' buffer =
      (s : Bytes) × (analog_write_internal fl rval val buffer t ≡ some (s, false))
      × (analog_read_internal fl rval' val' s t ≡ some (result t rval val rval' val'))

  analog_write_internal-float :
      (rval rval' : ℤ) (val val' : D) (buffer : Bytes)
      → IsExact float rval val
      → 4 ≤ length buffer
      → IsCarried float rval val rval' val' buffer
  unfolding IsCarried analog_read_internal analog_write_internal
  analog_write_internal-float rval rval' val val' buffer (h, exact) room =
      let (s, e, l) = store32-load32 (fl.to_float val) buffer h room in
      (s, rw e refl, rw l (rw exact refl))

  -- A value that a type can hold, in a buffer with room for the type, is written without an alarm, and what
  -- was written is read as that value, again without one: into `val` for the type of floats, and into `rval`
  -- for the others. The field that is not the type's stays as it was.
  pub analog_write_internal-analog_read_internal :
      (t : PlcDataType) (rval rval' : ℤ) (val val' : D) (buffer : Bytes)
      → IsExact t rval val
      → bytes_of_type t ≤ length buffer
      → (s : Bytes) × (analog_write_internal fl rval val buffer t ≡ some (s, false))
        × (analog_read_internal fl rval' val' s t ≡ some (result t rval val rval' val'))
  unfolding analog_write_internal write_internal IsRead IsCarried
  analog_write_internal-analog_read_internal bool rval rval' val val' buffer h room =
      let (s, e, r) = write_internal-read_internal bool rval rval' buffer h.0 room in
      (s, e, analog_read_internal_lem bool rval rval' val' s r)
  analog_write_internal-analog_read_internal int8 rval rval' val val' buffer h room =
      let (s, e, r) = write_internal-read_internal int8 rval rval' buffer h.0 room in
      (s, e, analog_read_internal_lem int8 rval rval' val' s r)
  analog_write_internal-analog_read_internal uint8 rval rval' val val' buffer h room =
      let (s, e, r) = write_internal-read_internal uint8 rval rval' buffer h.0 room in
      (s, e, analog_read_internal_lem uint8 rval rval' val' s r)
  analog_write_internal-analog_read_internal int16 rval rval' val val' buffer h room =
      let (s, e, r) = write_internal-read_internal int16 rval rval' buffer h.0 room in
      (s, e, analog_read_internal_lem int16 rval rval' val' s r)
  analog_write_internal-analog_read_internal uint16 rval rval' val val' buffer h room =
      let (s, e, r) = write_internal-read_internal uint16 rval rval' buffer h.0 room in
      (s, e, analog_read_internal_lem uint16 rval rval' val' s r)
  analog_write_internal-analog_read_internal int32 rval rval' val val' buffer h room =
      let (s, e, r) = write_internal-read_internal int32 rval rval' buffer h.0 room in
      (s, e, analog_read_internal_lem int32 rval rval' val' s r)
  analog_write_internal-analog_read_internal uint32 rval rval' val val' buffer h room = absurd h.0
  analog_write_internal-analog_read_internal float rval rval' val val' buffer h room =
      analog_write_internal-float rval rval' val val' buffer h room
