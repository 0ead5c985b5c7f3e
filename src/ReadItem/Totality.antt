-- ===== src/ReadItem/Totality.antt =====
-- Results are always handed down: `dispatchReadResultToChildren` of
-- s7nodaveApp/src/PortDriverReadItem.cc never copies a negative number of bytes from an item that is
-- unread, read completely or in error.
use s7nodave.Asyn.{AsynStatus, success, is_success}
use s7nodave.Prelude.{
  ℕ, sym, ap, subst, some_inj, ◌∙◌, ◌-◌, ◌≡◌, refl, true, false, Option, none, some, Option-cases,
  Bool-cases, inl, inr, ◌⊎◌, ◌++◌, Bytes, arith, take, drop, min, ◌==◌,
}
use s7nodave.ReadItem.Delivery.{
  IsSameRange, AreNested-same, slice, IsDelivered, copy_result_delivers,
}
use s7nodave.ReadItem.Ranges.{Contains, AreNested}
use s7nodave.ReadItem.{
  Header, Forest, nil, cons, copy_result, dispatch_read_result_to_children, set_bytes_read,
  set_error_status,
}

-- In error, unread, or read completely.
abbrev pub IsReady : Header → Type 0
IsReady h = is_success h.status ≡ true → (h.bytes_read ≡ 0) ⊎ (h.bytes_read ≡ h.read_bytes)

pub IsSameRange-refl : (h : Header) → IsSameRange h h
IsSameRange-refl h = record {
  area = refl;
  number = refl;
  start = refl;
  length = refl;
  owner = refl;
}

not_success : {P : Type 0} (e : AsynStatus) → is_success e ≡ false → is_success e ≡ true → P
not_success e h k = cc

-- If an item is read completely, it has the bytes of the memory of its area.
abbrev pub IsTrue : (ℕ → ℕ) → Header → Type 0
IsTrue memory h =
    is_success h.status ≡ true
    → h.bytes_read ≡ h.read_bytes
    → (b : Bytes) → h.buffer ≡ some b
    → take h.read_bytes b ≡ slice memory h.start_byte h.read_bytes

pub IsTrue-unread : (memory : ℕ → ℕ) (h : Header) → h.bytes_read ≡ 0 → IsTrue memory h
IsTrue-unread memory h e ok complete b held = rw (sym complete ∙ e) refl

IsDelivered-IsTrue :
    (memory : ℕ → ℕ) (h : Header) (b : Bytes) → IsDelivered memory h b → IsTrue memory h
IsDelivered-IsTrue memory h b d ok complete b' held =
    ap (take h.read_bytes) (some_inj (sym held ∙ d.held)) ∙ d.bytes

success_of : (e : AsynStatus) → is_success e ≡ true → e ≡ success
success_of success h = refl
success_of e h = cc

-- What a child gets: it keeps its range, is ready in turn, and true to a memory to which the item is.
abbrev pub IsHanded : Header → Header → Option Header → Type 0
IsHanded p c o =
    (c' : Header) × (o ≡ some c')
    × IsSameRange c c'
    × IsReady c'
    × ((memory : ℕ → ℕ) → IsTrue memory p → IsTrue memory c')

module _ (p c : Header) where
  handed_error : is_success p.status ≡ false → IsHanded p c (copy_result p c)
  unfolding copy_result
  handed_error failed = (
    set_error_status c p.status,
    ground arith,
    record { area = refl; number = refl; start = refl; length = refl; owner = refl },
    λ e. not_success p.status failed e,
    λ memory t ok complete b held. not_success p.status failed ok,
  )

  handed_nothing : copy_result p c ≡ some (set_bytes_read c 0) → IsHanded p c (copy_result p c)
  handed_nothing e = (
    set_bytes_read c 0,
    e,
    record { area = refl; number = refl; start = refl; length = refl; owner = refl },
    λ k. inl refl,
    λ memory t. IsTrue-unread memory (set_bytes_read c 0) refl,
  )

  module _ (ok : is_success p.status ≡ true) (inside : Contains p c) where
    no_source : p.buffer ≡ none → copy_result p c ≡ some (set_bytes_read c 0)
    unfolding copy_result
    no_source e = ground arith

    no_target :
        (b : Bytes)
        → p.buffer ≡ some b
        → c.buffer ≡ none
        → copy_result p c ≡ some (set_bytes_read c 0)
    unfolding copy_result
    no_target b e1 e2 = ground arith

    module _ (b1 b2 : Bytes) (e1 : p.buffer ≡ some b1) (e2 : c.buffer ≡ some b2) where
      unread : p.bytes_read ≡ 0 → copy_result p c ≡ some (set_bytes_read c 0)
      unfolding copy_result
      unread e = ground arith

      IsTrue-copied :
          p.bytes_read ≡ p.read_bytes
          → (memory : ℕ → ℕ) (x : Header) → copy_result p c ≡ some x
          → IsTrue memory p
          → IsTrue memory x
      IsTrue-copied complete memory x e t =
          let (c', b, e', d, same) =
            copy_result_delivers memory p c b1 b2
              (record {
                status = success_of p.status ok;
                complete = complete;
                held = e1;
                bytes = t ok complete b1 e1;
              })
              inside e2 in
          subst (IsTrue memory) (some_inj (sym e' ∙ e)) (IsDelivered-IsTrue memory c' b d)

      copied :
          p.bytes_read ≡ p.read_bytes → (p.bytes_read == 0) ≡ false → IsHanded p c (copy_result p c)
      unfolding copy_result
      copied complete some_bytes =
          let o = c.start_byte - p.start_byte in
          let full : min (p.bytes_read - o) c.read_bytes ≡ c.read_bytes =
            omega (arith, inside.begins, inside.ends) in
          let c' : Header = record c {
            bytes_read = c.read_bytes;
            status = success;
            buffer = some (take c.read_bytes (drop o b1) ++ drop c.read_bytes b2);
          } in
          let e : copy_result p c ≡ some c' = ground (arith, full, inside.begins, inside.ends) in
          (
            c',
            e,
            record { area = refl; number = refl; start = refl; length = refl; owner = refl },
            λ k. inr refl,
            λ memory t. IsTrue-copied complete memory c' e t,
          )

      handed_bytes : IsReady p → IsHanded p c (copy_result p c)
      handed_bytes ready = elim (Bool-cases (p.bytes_read == 0)) [
        | inl nothing ↦ handed_nothing (unread (ground arith))
        | inr some_bytes ↦ elim (ready ok) [
          | inl nothing ↦ handed_nothing (unread nothing)
          | inr complete ↦ copied complete some_bytes
        ]
      ]

  pub copy_result-IsHanded : Contains p c → IsReady p → IsHanded p c (copy_result p c)
  copy_result-IsHanded inside ready = elim (Bool-cases (is_success p.status)) [
    | inr failed ↦ handed_error failed
    | inl ok ↦ elim (Option-cases p.buffer) [
      | inl no_buffer ↦ handed_nothing (no_source ok inside no_buffer)
      | inr (b1, e1) ↦ elim (Option-cases c.buffer) [
        | inl no_buffer ↦ handed_nothing (no_target ok inside b1 e1 no_buffer)
        | inr (b2, e2) ↦ handed_bytes ok inside b1 b2 e1 e2 ready
      ]
    ]
  ]

-- If an item is in error, unread or read completely, and the items included in it are nested, then its
-- result is handed down to all of them.
pub dispatch_total :
    (this : Header) (f : Forest)
    → AreNested this f
    → IsReady this
    → (f' : Forest) × (dispatch_read_result_to_children this f ≡ some f')
unfolding dispatch_read_result_to_children
dispatch_total this nil n ready = (nil, refl)
dispatch_total this (cons c below rest) (inside, nb, nr) ready =
    let (c', e, same, ready', _) = copy_result-IsHanded this c inside ready in
    let (below', eb) = dispatch_total c' below (AreNested-same c c' below same nb) ready' in
    let (rest', er) = dispatch_total this rest nr ready in (cons c' below' rest', rw (e, eb, er))
