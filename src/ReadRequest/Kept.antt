-- ===== src/ReadRequest/Kept.antt =====
-- What the answers of the client in `sendRequestToPlc` of s7nodaveApp/src/PortDriver.cc do to the items in
-- the store, and to a property of them.
use s7nodave.Asyn.{error}
use s7nodave.Prelude.{
  ℕ, zero, suc, ◌+◌, ◌≡◌, refl, sym, subst, true, false, Option, some, some_inj, List, [], ◌∷◌,
  ◌++◌, Bytes, All, Bool-cases, Option-cases, inl, inr, arith, ◌==◌, length, map, min, get_elem?,
  drop,
}
use s7nodave.ReadItem.Delivery.{IsSameRange}
use s7nodave.ReadItem.Totality.{IsReady}
use s7nodave.ReadItem.{Header, set_bytes_read, set_error_status}
use s7nodave.ReadRequest.{
  Answer, Client, DataItem, data_item, Entry, Sent, update, fill, process_plc_read_result,
  set_all_zero,
}

-- The item of a header is in the store, unread, read completely or in error, and has the property.
pub record IsStored (P : Header → Type 0) (h x : Header) : Type 0 where
  pub same : IsSameRange h x
  pub ready : IsReady x
  pub good : P x

abbrev pub AreStored : (Header → Type 0) → List Header → List Header → Type 0
AreStored P [] [] = Unit
AreStored P (h ∷ items) (x ∷ store) = IsStored P h x × AreStored P items store
AreStored P _ _ = ⊥

-- What bytes do to the property, if an item of a request is answered with them, or a call of its own.
abbrev pub IsGiven : (Header → Type 0) → DataItem → Bytes → Type 0
IsGiven P i bytes =
    (h x : Header)
    → data_item h ≡ i
    → IsSameRange h x
    → P x
    → P (set_bytes_read (fill bytes x) (min i.amount x.read_bytes))

abbrev pub IsGivenAlone : (Header → Type 0) → DataItem → Bytes → Type 0
IsGivenAlone P i bytes = (h x : Header) → data_item h ≡ i → IsSameRange h x → P x → P (fill bytes x)

abbrev pub AreGiven : (Header → Type 0) → Answer → ℕ → List DataItem → Type 0
AreGiven P a position [] = Unit
AreGiven P a position (i ∷ asked) =
    ((a.result position == 0) ≡ true → IsGiven P i (a.bytes position))
    × AreGiven P a (position + 1) asked

-- A property that the client's answers keep.
pub record IsKept (P : Header → Type 0) (client : Client) : Type 0 where
  pub zeroed : (x : Header) → P x → P (set_bytes_read x 0)
  pub failed : (x : Header) → P x → P (set_error_status x error)
  pub given :
      (calls : ℕ) (asked : List DataItem)
      → ((client.read_multi_vars calls asked).status == 0) ≡ true
      → AreGiven P (client.read_multi_vars calls asked) 0 asked
  pub given_alone :
      (calls : ℕ) (i : DataItem)
      → ((client.read_area calls i).0 == 0) ≡ true
      → IsGivenAlone P i (client.read_area calls i).1

-- The number of an entry is its place in the list that was sent.
abbrev pub IsEntry : List Header → Entry → Type 0
IsEntry items (n, h) = get_elem? items n ≡ some h

-- Only the buffer changes.
pub fill-eq :
    (bytes : Bytes) (x : Header) → (b : Option Bytes) × (fill bytes x ≡ record x { buffer = b })
fill-eq bytes x = elim (Option-cases x.buffer) [
  | inl e ↦ (x.buffer, ground arith)
  | inr (old, e) ↦ (some (bytes ++ drop (length bytes) old), ground arith)
]

module _ (P : Header → Type 0) where
  -- A change that keeps the item of a header stored.
  abbrev pub Keeps : Header → (Header → Header) → Type 0
  Keeps h f = (x : Header) → IsStored P h x → IsStored P h (f x)

  pub update-AreStored :
      (items store : List Header) (n : ℕ) (h : Header) (f : Header → Header)
      → AreStored P items store
      → get_elem? items n ≡ some h
      → Keeps h f
      → AreStored P items (update n f store)
  update-AreStored [] [] n h f a e k = tt
  update-AreStored [] (x ∷ store) n h f a e k = absurd a
  update-AreStored (i ∷ items) [] n h f a e k = absurd a
  update-AreStored (i ∷ items) (x ∷ store) zero h f (s, a) e k = (
    subst (λ y. IsStored P y (f x)) (sym (some_inj e))
        (k x (subst (λ y. IsStored P y x) (some_inj e) s)),
    a,
  )
  update-AreStored (i ∷ items) (x ∷ store) (suc n) h f (s, a) e k =
      (s, update-AreStored items store n h f a e k)

  pub zero-Keeps :
      ((x : Header) → P x → P (set_bytes_read x 0))
      → (h : Header) → Keeps h (λ x. set_bytes_read x 0)
  zero-Keeps k h x s = record {
    same = record {
      area = s.same.area;
      number = s.same.number;
      start = s.same.start;
      length = s.same.length;
      owner = s.same.owner;
    };
    ready = λ e. inl refl;
    good = k x s.good;
  }

  pub error-Keeps :
      ((x : Header) → P x → P (set_error_status x error))
      → (h : Header) → Keeps h (λ x. set_error_status x error)
  error-Keeps k h x s = record {
    same = record {
      area = s.same.area;
      number = s.same.number;
      start = s.same.start;
      length = s.same.length;
      owner = s.same.owner;
    };
    ready = λ e. cc;
    good = k x s.good;
  }

  pub fill-Keeps :
      (h : Header) (bytes : Bytes) → IsGivenAlone P (data_item h) bytes → Keeps h (fill bytes)
  fill-Keeps h bytes k x s =
      let (b, e) = fill-eq bytes x in
      subst (IsStored P h) (sym e) (record {
        same = record {
          area = s.same.area;
          number = s.same.number;
          start = s.same.start;
          length = s.same.length;
          owner = s.same.owner;
        };
        ready = s.ready;
        good = subst P e (k h x refl s.same s.good);
      })

  pub read-Keeps :
      (h : Header) (bytes : Bytes)
      → IsGiven P (data_item h) bytes
      → Keeps h (λ x. set_bytes_read (fill bytes x) (min (data_item h).amount x.read_bytes))
  unfolding data_item
  read-Keeps h bytes k x s =
      let (b, e) = fill-eq bytes x in
      let full : min h.read_bytes x.read_bytes ≡ x.read_bytes = omega (arith, s.same.length) in
      subst (λ y. IsStored P h (set_bytes_read y (min h.read_bytes x.read_bytes))) (sym e)
        (record {
          same = record {
            area = s.same.area;
            number = s.same.number;
            start = s.same.start;
            length = s.same.length;
            owner = s.same.owner;
          };
          ready = λ j. inr full;
          good =
              subst (λ y. P (set_bytes_read y (min h.read_bytes x.read_bytes))) e
                (k h x refl s.same s.good);
        })

  pub process_plc_read_result-AreStored :
      ((x : Header) → P x → P (set_error_status x error))
      → (items : List Header) (a : Answer) (position : ℕ) (pdu : List Entry) (store : List Header)
      → All (IsEntry items) pdu
      → AreGiven P a position (map (λ e. data_item e.1) pdu)
      → AreStored P items store
      → AreStored P items (process_plc_read_result a position pdu store)
  unfolding process_plc_read_result
  process_plc_read_result-AreStored k items a position [] store es g st = st
  process_plc_read_result-AreStored k items a position ((n, h) ∷ pdu) store (e, es) (g, gs) st =
      process_plc_read_result-AreStored k items a (position + 1) pdu _ es gs (
        update-AreStored items store n h _ st e (λ x s. elim (Bool-cases (a.result position == 0)) [
          | inl ok ↦ rw ok (read-Keeps h (a.bytes position) (g ok) x s)
          | inr bad ↦ rw bad (error-Keeps k h x s)
        ]))

-- Without the property.
abbrev pub Anything : Header → Type 0
Anything h = Unit

abbrev pub AreInPlace : List Header → List Header → Type 0
AreInPlace = AreStored Anything

pub AreStored-AreInPlace :
    (P : Header → Type 0) (items store : List Header)
    → AreStored P items store
    → AreInPlace items store
AreStored-AreInPlace P [] [] a = tt
AreStored-AreInPlace P [] (x ∷ store) a = absurd a
AreStored-AreInPlace P (i ∷ items) [] a = absurd a
AreStored-AreInPlace P (i ∷ items) (x ∷ store) (s, a) =
    (record { same = s.same; ready = s.ready; good = tt }, AreStored-AreInPlace P items store a)

-- What is left in the store, and what of it has the property.
abbrev pub IsLeft : (Header → Type 0) → List Header → Sent → Type 0
IsLeft P items r = AreInPlace items r.store × (r.status ≡ 0 → AreStored P items r.store)

pub not_zero : (n : ℕ) → (n == 0) ≡ false → n ≡ 0 → ⊥
not_zero n h e = ground arith

pub set_all_zero-AreInPlace :
    (items : List Header) (es : List Entry) (store : List Header)
    → All (IsEntry items) es
    → AreInPlace items store
    → AreInPlace items (set_all_zero es store)
unfolding set_all_zero
set_all_zero-AreInPlace items [] store h st = st
set_all_zero-AreInPlace items ((n, h) ∷ es) store (e, k) st =
    set_all_zero-AreInPlace items es _ k
      (update-AreStored Anything items store n h _ st e (zero-Keeps Anything (λ x g. tt) h))
