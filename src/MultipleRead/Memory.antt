-- ===== src/MultipleRead/Memory.antt =====
-- What a client that serves from a memory leaves in the items that `sendRequestToPlc` of
-- s7nodaveApp/src/PortDriver.cc sends.
use s7nodave.Asyn.{PlcArea, AsynStatus, success, error, is_success}
use s7nodave.PortDriver.{area_to_snap7_area, wl_byte}
use s7nodave.Prelude.{
  ℕ, ◌+◌, ◌≡◌, refl, sym, ap, ◌∙◌, subst, Bool, true, not, ◌||◌, Option, none, some, some_inj,
  Option-cases, inl, inr, List, [], ◌∷◌, ◌++◌, Bytes, take, drop, length, min, ◌==◌, arith, ℤ,
  take-append_length,
}
use s7nodave.ReadItem.Delivery.{IsSameRange, slice, length-slice}
use s7nodave.ReadItem.Totality.{IsTrue-unread}
use s7nodave.ReadItem.{Header, Request, set_bytes_read, set_error_status}
use s7nodave.ReadRequest.Kept.{fill-eq, AreGiven, IsGiven, IsGivenAlone, IsKept}
use s7nodave.ReadRequest.{Answer, Client, DataItem, data_item, fill}

-- The bytes of the PLC, by the client's code of the area, the number of the area, and the position.
abbrev pub World : Type 0
World = ℕ → ℤ → ℕ → ℕ

-- What is read.
pub record Range : Type 0 where
  pub area : PlcArea
  pub area_number : ℤ
  pub start_byte : ℕ
  pub read_bytes : ℕ

abbrev pub range_of_header : Header → Range
range_of_header h = record {
  area = h.area;
  area_number = h.area_number;
  start_byte = h.start_byte;
  read_bytes = h.read_bytes;
}

abbrev pub range_of : Request → Range
range_of r = record {
  area = r.area;
  area_number = r.area_number;
  start_byte = r.start_byte;
  read_bytes = r.read_bytes;
}

abbrev pub memory_at : World → Range → ℕ → ℕ
memory_at world q = world (area_to_snap7_area q.area) q.area_number

-- The areas of Snap7 whose unit is a byte: not the timers and the counters.
abbrev pub counts_in_bytes : ℕ → Bool
counts_in_bytes area = not (area == 0x1d || area == 0x1c)

-- If a range of an area that counts in bytes was read completely, its bytes are those of the memory.
abbrev pub IsTrueAt : World → Range → AsynStatus → ℕ → Option Bytes → Type 0
IsTrueAt world q status bytes_read buffer =
    counts_in_bytes (area_to_snap7_area q.area) ≡ true
    → is_success status ≡ true
    → bytes_read ≡ q.read_bytes
    → (b : Bytes) → buffer ≡ some b
    → take q.read_bytes b ≡ slice (memory_at world q) q.start_byte q.read_bytes

abbrev pub IsTrueHeader : World → Header → Type 0
IsTrueHeader world h = IsTrueAt world (range_of_header h) h.status h.bytes_read h.buffer

abbrev pub IsTrueRequest : World → Request → Type 0
IsTrueRequest world r = IsTrueAt world (range_of r) r.status r.bytes_read r.buffer

abbrev pub bytes_at : World → DataItem → Bytes
bytes_at world i = slice (world i.area i.db_number) i.start i.amount

-- An item that is asked for by bytes, in an area that counts in bytes. The client takes the words of a
-- timer or a counter as the unit, whatever the item says.
abbrev pub IsByteItem : DataItem → Type 0
IsByteItem i = (counts_in_bytes i.area ≡ true) × (i.word_length ≡ wl_byte)

-- The byte items of an answer that are answered without an error have the bytes of the memory.
abbrev pub AreServed : World → Answer → ℕ → List DataItem → Type 0
AreServed world a position [] = Unit
AreServed world a position (i ∷ asked) =
    (IsByteItem i → (a.result position == 0) ≡ true → a.bytes position ≡ bytes_at world i)
    × AreServed world a (position + 1) asked

-- A client whose answers about byte items are from a memory that does not change.
pub record IsServing (world : World) (client : Client) : Type 0 where
  pub multi_vars :
      (calls : ℕ) (asked : List DataItem)
      → ((client.read_multi_vars calls asked).status == 0) ≡ true
      → AreServed world (client.read_multi_vars calls asked) 0 asked
  pub one_area :
      (calls : ℕ) (i : DataItem)
      → IsByteItem i
      → ((client.read_area calls i).0 == 0) ≡ true
      → (client.read_area calls i).1 ≡ bytes_at world i

pub range_of_header-same : (h x : Header) → IsSameRange h x → range_of_header x ≡ range_of_header h
range_of_header-same h x s = rw (s.area, s.number, s.start, s.length) refl

-- What was written to the beginning of a buffer.
filled :
    (memory : ℕ → ℕ) (start n : ℕ) (bytes rest : Bytes)
    → bytes ≡ slice memory start n
    → take n (bytes ++ rest) ≡ slice memory start n
filled memory start n bytes rest e =
    subst (λ m. take m (bytes ++ rest) ≡ slice memory start n)
      (ap length e ∙ length-slice memory start n) (take-append_length bytes rest ∙ e)

fill-none : (x : Header) (bytes : Bytes) → x.buffer ≡ none → (fill bytes x).buffer ≡ none
fill-none x bytes e = ground arith

fill-some :
    (x : Header) (bytes : Bytes) {old : Bytes}
    → x.buffer ≡ some old
    → (fill bytes x).buffer ≡ some (bytes ++ drop (length bytes) old)
fill-some x bytes e = ground arith

no_buffer : {o : Option Bytes} {b : Bytes} → o ≡ none → o ≡ some b → ⊥
no_buffer e k = cc

module _ (world : World) where
  -- An item is asked for by bytes.
  IsByteItem-same :
      (h x : Header) {i : DataItem}
      → data_item h ≡ i
      → IsSameRange h x
      → counts_in_bytes (area_to_snap7_area x.area) ≡ true
      → IsByteItem i
  unfolding data_item
  IsByteItem-same h x k s c = (
    ap (λ j. counts_in_bytes j.area) (sym k)
        ∙ ap (λ a. counts_in_bytes (area_to_snap7_area a)) (sym s.area)
        ∙ c,
    ap (λ j. j.word_length) (sym k),
  )

  -- An item whose buffer was written is true, whatever its count of bytes.
  IsTrueAt-fill :
      (h x : Header) (bytes : Bytes) (status : AsynStatus) (n : ℕ)
      → (IsByteItem (data_item h) → bytes ≡ bytes_at world (data_item h))
      → IsSameRange h x
      → IsTrueAt world (range_of_header x) status n (fill bytes x).buffer
  unfolding data_item
  IsTrueAt-fill h x bytes status n given s c ok complete b held = elim (Option-cases x.buffer) [
    | inl missing ↦ absurd (no_buffer (fill-none x bytes missing) held)
    | inr (old, found) ↦
        let e = given (IsByteItem-same h x refl s c) in
        let same : bytes ++ drop (length bytes) old ≡ b =
          some_inj (sym (fill-some x bytes found) ∙ held) in
        subst (λ q. take q.read_bytes b ≡ slice (memory_at world q) q.start_byte q.read_bytes)
          (sym (range_of_header-same h x s))
          (subst
            (λ l.
              take h.read_bytes l
              ≡ slice (memory_at world (range_of_header h)) h.start_byte h.read_bytes)
            same
            (filled (memory_at world (range_of_header h)) h.start_byte h.read_bytes bytes
              (drop (length bytes) old) e))
  ]

  given_of :
      (i : DataItem) (h : Header) (bytes : Bytes)
      → data_item h ≡ i
      → (IsByteItem i → bytes ≡ bytes_at world i)
      → IsByteItem (data_item h)
      → bytes ≡ bytes_at world (data_item h)
  given_of i h bytes k given c = given (subst IsByteItem k c) ∙ ap (bytes_at world) (sym k)

  fill-IsGiven :
      (i : DataItem) (bytes : Bytes)
      → (IsByteItem i → bytes ≡ bytes_at world i)
      → IsGiven (IsTrueHeader world) i bytes × IsGivenAlone (IsTrueHeader world) i bytes
  fill-IsGiven i bytes e = (
    λ h x k s t.
        let n = min i.amount x.read_bytes in
        let (b, same) = fill-eq bytes x in
        subst (λ y. IsTrueHeader world (set_bytes_read y n)) (sym same)
          (subst (IsTrueAt world (range_of_header x) success n) (ap (λ y. y.buffer) same)
            (IsTrueAt-fill h x bytes success n (given_of i h bytes k e) s)),
    λ h x k s t.
        let (b, same) = fill-eq bytes x in
        subst (IsTrueHeader world) (sym same) (
          subst (IsTrueAt world (range_of_header x) x.status x.bytes_read) (ap (λ y. y.buffer) same)
            (IsTrueAt-fill h x bytes x.status x.bytes_read (given_of i h bytes k e) s)),
  )

  AreServed-AreGiven :
      (a : Answer) (position : ℕ) (asked : List DataItem)
      → AreServed world a position asked
      → AreGiven (IsTrueHeader world) a position asked
  AreServed-AreGiven a position [] s = tt
  AreServed-AreGiven a position (i ∷ asked) (s, ss) = (
    (λ ok. (fill-IsGiven i (a.bytes position) (λ b. s b ok)).0),
    AreServed-AreGiven a (position + 1) asked ss,
  )

  -- A client that serves from the memory keeps the items true to it.
  pub IsServing-IsKept :
      (client : Client) → IsServing world client → IsKept (IsTrueHeader world) client
  IsServing-IsKept client serving = record {
    zeroed = λ x t c. IsTrue-unread (memory_at world (range_of_header x)) (set_bytes_read x 0) refl;
    failed = λ x t c.
        IsTrue-unread (memory_at world (range_of_header x)) (set_error_status x error) refl;
    given = λ calls asked ok.
        AreServed-AreGiven (client.read_multi_vars calls asked) 0 asked
          (serving.multi_vars calls asked ok);
    given_alone = λ calls i ok.
        (fill-IsGiven i (client.read_area calls i).1 (λ b. serving.one_area calls i b ok)).1;
  }
