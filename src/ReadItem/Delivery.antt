-- ===== src/ReadItem/Delivery.antt =====
-- What `dispatchReadResultToChildren` of s7nodaveApp/src/PortDriverReadItem.cc gives to the items
-- that a larger one includes, when that one was read and when it failed.
use s7nodave.Asyn.{AsynStatus, success, is_success}
use s7nodave.Prelude.{
  ℕ, zero, suc, ◌+◌, ◌-◌, ◌≤◌, ◌≡◌, refl, sym, ap, ◌∙◌, true, false, some, inl, inr, List, [], ◌∷◌,
  ◌++◌, Bytes, arith, take, drop, min, ◌==◌, Bool-cases, length,
}
use s7nodave.ReadItem.Ranges.{Contains, AreNested}
use s7nodave.ReadItem.{
  Header, Forest, nil, cons, copy_result, dispatch_read_result_to_children, set_bytes_read,
  set_error_status,
}

-- The bytes of the area from a position on.
abbrev pub slice : (ℕ → ℕ) → ℕ → ℕ → Bytes
slice memory start zero = []
slice memory start (suc n) = memory start ∷ slice memory (start + 1) n

take-drop-slice :
    (memory : ℕ → ℕ) (start o n m s : ℕ)
    → s ≡ start + o
    → o + n ≤ m
    → take n (drop o (slice memory start m)) ≡ slice memory s n
take-drop-slice memory start zero zero m s e h = refl
take-drop-slice memory start zero (suc n) zero s e h = absurd (omega arith)
take-drop-slice memory start zero (suc n) (suc m) s e h =
    let same : s ≡ start = omega arith in
    rw same (
      ap (λ l. memory start ∷ l)
        (take-drop-slice memory (start + 1) zero n m (start + 1) (omega arith) (omega arith)))
take-drop-slice memory start (suc o) n zero s e h = absurd (omega arith)
take-drop-slice memory start (suc o) n (suc m) s e h =
    take-drop-slice memory (start + 1) o n m s (omega arith) (omega arith)

-- Only the bytes that were read matter of a buffer.
take-drop-take :
    {A : Type 0} (o n m : ℕ) (b : List A)
    → o + n ≤ m
    → take n (drop o (take m b)) ≡ take n (drop o b)
take-drop-take zero zero m b h = refl
take-drop-take zero (suc n) zero b h = absurd (omega arith)
take-drop-take zero (suc n) (suc m) [] h = refl
take-drop-take zero (suc n) (suc m) (x ∷ b) h =
    ap (λ l. x ∷ l) (take-drop-take zero n m b (omega arith))
take-drop-take (suc o) n zero b h = absurd (omega arith)
take-drop-take (suc o) n (suc m) [] h = refl
take-drop-take (suc o) n (suc m) (x ∷ b) h = take-drop-take o n m b (omega arith)

take-append_take : (n : ℕ) (x y : Bytes) → length (take n x) ≡ n → take n (take n x ++ y) ≡ take n x
take-append_take zero x y h = refl
take-append_take (suc n) [] y h = absurd (omega arith)
take-append_take (suc n) (c ∷ x) y h = ap (λ l. c ∷ l) (take-append_take n x y (omega arith))

pub length-slice : (memory : ℕ → ℕ) (s n : ℕ) → length (slice memory s n) ≡ n
length-slice memory s zero = refl
length-slice memory s (suc n) = ap suc (length-slice memory (s + 1) n)

-- The item has been read: all its bytes, which are those of the memory.
pub record IsDelivered (memory : ℕ → ℕ) (h : Header) (buffer : Bytes) : Type 0 where
  pub status : h.status ≡ success
  pub complete : h.bytes_read ≡ h.read_bytes
  pub held : h.buffer ≡ some buffer
  pub bytes : take h.read_bytes buffer ≡ slice memory h.start_byte h.read_bytes

-- What a result does not change.
pub record IsSameRange (h h' : Header) : Type 0 where
  pub area : h'.area ≡ h.area
  pub number : h'.area_number ≡ h.area_number
  pub start : h'.start_byte ≡ h.start_byte
  pub length : h'.read_bytes ≡ h.read_bytes
  pub owner : h'.owner ≡ h.owner

module _ (memory : ℕ → ℕ) where
  module _ (p c : Header) (bp bc : Bytes) (d : IsDelivered memory p bp) (inside : Contains p c)
      (held : c.buffer ≡ some bc) where
    offset : ℕ
    offset = c.start_byte - p.start_byte

    cut_out : take c.read_bytes (drop offset bp) ≡ slice memory c.start_byte c.read_bytes
    unfolding offset
    cut_out =
        sym (take-drop-take offset c.read_bytes p.read_bytes bp (omega arith))
        ∙ ap (λ l. take c.read_bytes (drop offset l)) d.bytes
        ∙ take-drop-slice memory p.start_byte offset c.read_bytes p.read_bytes c.start_byte
            (omega arith) (omega arith)

    copied : Bytes
    copied = take c.read_bytes (drop offset bp) ++ drop c.read_bytes bc

    copied_bytes : take c.read_bytes copied ≡ slice memory c.start_byte c.read_bytes
    unfolding copied
    copied_bytes =
        take-append_take c.read_bytes (drop offset bp) (drop c.read_bytes bc)
          (ap length cut_out ∙ length-slice memory c.start_byte c.read_bytes)
        ∙ cut_out

    copied_count : min (p.bytes_read - offset) c.read_bytes ≡ c.read_bytes
    unfolding offset
    copied_count = omega arith

    copy_result-some :
        (p.bytes_read == 0) ≡ false
        → copy_result p c
          ≡ some (record c { bytes_read = c.read_bytes; status = success; buffer = some copied })
    unfolding copy_result offset copied
    copy_result-some e = ground (arith, copied_count)

    copy_result_nothing : (p.bytes_read == 0) ≡ true → copy_result p c ≡ some (set_bytes_read c 0)
    unfolding copy_result
    copy_result_nothing e = ground arith

    -- A child of a delivered item is delivered.
    pub copy_result_delivers :
        (c' : Header) × (b : Bytes) × (copy_result p c ≡ some c')
        × IsDelivered memory c' b
        × IsSameRange c c'
    copy_result_delivers = elim (Bool-cases (p.bytes_read == 0)) [
      | inl nothing ↦
          let zero_length : c.read_bytes ≡ 0 = ground arith in
          (
            set_bytes_read c 0,
            bc,
            copy_result_nothing nothing,
            record {
              status = refl;
              complete = sym zero_length;
              held = held;
              bytes = rw zero_length;
            },
            record { area = refl; number = refl; start = refl; length = refl; owner = refl },
          )
      | inr some_bytes ↦ (
        record c { bytes_read = c.read_bytes; status = success; buffer = some copied },
        copied,
        copy_result-some some_bytes,
        record { status = refl; complete = refl; held = refl; bytes = copied_bytes },
        record { area = refl; number = refl; start = refl; length = refl; owner = refl },
      )
    ]

-- Every item of a forest has a buffer.
abbrev pub HaveBuffers : Forest → Type 0
HaveBuffers nil = Unit
HaveBuffers (cons h below rest) =
    ((b : Bytes) × (h.buffer ≡ some b)) × HaveBuffers below × HaveBuffers rest

-- The second forest is the first one after a read of the memory: the same items, all delivered.
abbrev pub AreDelivered : (ℕ → ℕ) → Forest → Forest → Type 0
AreDelivered memory nil nil = Unit
AreDelivered memory (cons h below rest) (cons h' below' rest') =
    ((b : Bytes) × IsDelivered memory h' b × IsSameRange h h')
    × AreDelivered memory below below'
    × AreDelivered memory rest rest'
AreDelivered memory _ _ = ⊥

pub AreNested-same :
    (h h' : Header) (f : Forest) → IsSameRange h h' → AreNested h f → AreNested h' f
AreNested-same h h' nil e x = tt
AreNested-same h h' (cons c below rest) e (x, b, r) = (
  record {
    same_area = rw e.area x.same_area;
    same_number = rw e.number x.same_number;
    begins = omega (arith, e.start);
    ends = omega (arith, e.start, e.length);
  },
  b,
  AreNested-same h h' rest e r,
)

-- If an item was read completely and the items included in it are nested and have buffers, then the
-- results are dispatched, and each of these items gets
-- the status of success, its full number of bytes, and the bytes of the memory at its own range.
pub dispatch_delivers :
    (memory : ℕ → ℕ) (this : Header) (buffer : Bytes) (f : Forest)
    → IsDelivered memory this buffer
    → AreNested this f
    → HaveBuffers f
    → (f' : Forest) × (dispatch_read_result_to_children this f ≡ some f') × AreDelivered memory f f'
unfolding dispatch_read_result_to_children
dispatch_delivers memory this buffer nil d n hb = (nil, refl, tt)
dispatch_delivers memory this buffer (cons c below rest) d (inside, nb, nr) ((bc, held), hb, hr) =
    let (c', b, e, dc, same) = copy_result_delivers memory this c buffer bc d inside held in
    let (below', eb, db) =
      dispatch_delivers memory c' b below dc (AreNested-same c c' below same nb) hb in
    let (rest', er, dr) = dispatch_delivers memory this buffer rest d nr hr in
    (cons c' below' rest', rw (e, eb, er), ((b, dc, same), db, dr))

-- The item has the error and no bytes, and its buffer is as it was.
pub record IsFailed (e : AsynStatus) (h h' : Header) : Type 0 where
  pub status : h'.status ≡ e
  pub no_bytes : h'.bytes_read ≡ 0
  pub kept : h'.buffer ≡ h.buffer

-- The second forest is the first one after an error: the same items, all with the error.
abbrev pub AreFailed : AsynStatus → Forest → Forest → Type 0
AreFailed e nil nil = Unit
AreFailed e (cons h below rest) (cons h' below' rest') =
    (IsFailed e h h' × IsSameRange h h') × AreFailed e below below' × AreFailed e rest rest'
AreFailed e _ _ = ⊥

-- If an item has an error, every included item, at every depth, gets that error and no bytes, and
-- keeps its buffer and its range.
pub dispatch_fails :
    (this : Header) (f : Forest)
    → is_success this.status ≡ false
    → (f' : Forest) × (dispatch_read_result_to_children this f ≡ some f')
      × AreFailed this.status f f'
unfolding dispatch_read_result_to_children copy_result
dispatch_fails this nil e = (nil, refl, tt)
dispatch_fails this (cons c below rest) e =
    let (below', eb, fb) = dispatch_fails (set_error_status c this.status) below e in
    let (rest', er, fr) = dispatch_fails this rest e in
    let failed : IsFailed this.status c (set_error_status c this.status) = record {
      status = refl;
      no_bytes = refl;
      kept = refl;
    } in
    let same : IsSameRange c (set_error_status c this.status) = record {
      area = refl;
      number = refl;
      start = refl;
      length = refl;
      owner = refl;
    } in
    (
      cons (set_error_status c this.status) below' rest',
      rw e (rw (eb, er)),
      ((failed, same), fb, fr),
    )
