-- ===== src/ReadRequest/Sizes.antt =====
-- The sizes of requests and responses of `sendRequestToPlc` in s7nodaveApp/src/PortDriver.cc.
use s7nodave.Prelude.{
  is_empty, ltb, true, false, Bool, not, ◌&&◌, ◌||◌, ℕ, ◌+◌, ◌-◌, ◌*◌, ◌/◌, ◌%◌, ◌^◌, ◌≤◌, ◌<◌, ◌≡◌,
  refl, ap, List, [], ◌∷◌, ◌++◌, map, length, arith, ◌==◌, leb,
}
use s7nodave.ReadItem.{Header}
use s7nodave.ReadRequest.{
  DataItem, data_item, PlcCall, multi_vars, one_area, Entry, max_size_of_payload,
  max_number_of_items, effective_read_bytes,
}

-- The bytes of an item in the response of the S7 protocol: its header of four bytes, and its data,
-- which are filled up to whole words.
abbrev pub item_size : ℕ → ℕ
item_size amount = 4 + 2 * ((amount + 1) / 2)

-- The bytes that the code counts for an item are those of the protocol.
pub effective_read_bytes_lem : (amount : ℕ) → effective_read_bytes amount ≡ item_size amount
effective_read_bytes_lem amount = ground arith

-- The bytes of the items in the response, padding and headers included.
abbrev pub response_size : List DataItem → ℕ
response_size [] = 0
response_size (d ∷ items) = item_size d.amount + response_size items

response_size-append :
    (a b : List DataItem) → response_size (a ++ b) ≡ response_size a + response_size b
response_size-append [] b = omega arith
response_size-append (d ∷ a) b = omega (arith, response_size-append a b)

abbrev pub asked : List Entry → List DataItem
asked = map (λ e. data_item e.1)

asked-append :
    (a : List Entry) (n : ℕ) (h : Header) → asked (a ++ (n, h) ∷ []) ≡ asked a ++ data_item h ∷ []
asked-append [] n h = refl
asked-append (e ∷ a) n h = ap (λ l. data_item e.1 ∷ l) (asked-append a n h)

pub response_size-asked :
    (a : List Entry) (n : ℕ) (h : Header)
    → response_size (asked (a ++ (n, h) ∷ []))
      ≡ response_size (asked a) + effective_read_bytes h.read_bytes
unfolding data_item
response_size-asked a n h = rw (asked-append a n h) (
    omega (
      arith,
      response_size-append (asked a) (data_item h ∷ []),
      effective_read_bytes_lem h.read_bytes,
    ))

-- A call that the PLC can answer: at least one and at most 20 items, a request and a response that fit the PDU; only
-- an item that would not fit alone is read by a call of its own, which the client splits.
abbrev pub IsLegal : ℕ → PlcCall → Type 0
IsLegal pdu_length (multi_vars items) =
    (is_empty items ≡ false)
    × (length items ≤ 20)
    × (12 + 12 * length items ≤ pdu_length)
    × (14 + response_size items ≤ pdu_length)
IsLegal pdu_length (one_area item) = pdu_length < 14 + item_size item.amount

pub max_number_of_items_bound :
    (pdu_length : ℕ)
    → 24 ≤ pdu_length
    → (1 ≤ max_number_of_items pdu_length)
      × (max_number_of_items pdu_length ≤ 20)
      × (12 + 12 * max_number_of_items pdu_length ≤ pdu_length)
max_number_of_items_bound pdu_length h = (ground arith, ground arith, ground arith)

pub max_size_of_payload_eq :
    (pdu_length : ℕ)
    → 24 ≤ pdu_length
    → pdu_length < 2 ^ 32
    → 14 + max_size_of_payload pdu_length ≡ pdu_length
max_size_of_payload_eq pdu_length h h' = omega arith

pub one_of : (a b m : ℕ) → a + b ≡ m → m ≤ 20 → b ≤ 20
one_of a b m e h = omega arith

pub slot_count :
    (a b m : ℕ) {c : ℕ} → c ≡ a + 1 → a + b ≡ m → 1 ≤ b → b ≤ 20 → c + (b + 2 ^ 32 - 1) % 2 ^ 32 ≡ m
slot_count a b m e h free few = omega arith

pub room_count : (a b c m d : ℕ) → d ≡ a + c → a + b ≡ m → c ≤ b → d + (b - c) ≡ m
room_count a b c m d e h fits = omega arith

pub too_large : (left m c p : ℕ) → 14 + m ≡ p → leb c left ≡ false → (left == m) ≡ true → p < 14 + c
too_large left m c p e large empty = ground arith

pub pdu_fits :
    (n l left size bytes m p : ℕ) {k : ℕ}
    → n ≡ l
    → l + left ≡ m
    → size + bytes ≡ k
    → m ≤ 20
    → 12 + 12 * m ≤ p
    → 14 + k ≡ p
    → (n ≤ 20) × (12 + 12 * n ≤ p) × (14 + size ≤ p)
pdu_fits n l left size bytes m p e slots room few requests payload =
    (omega arith, omega arith, omega arith)

pub is_empty-append : (a : List Entry) (e : Entry) → is_empty (a ++ e ∷ []) ≡ false
is_empty-append [] e = refl
is_empty-append (x ∷ a) e = refl

pub is_empty-asked : (a : List Entry) → is_empty (asked a) ≡ is_empty a
is_empty-asked [] = refl
is_empty-asked (x ∷ a) = refl

-- An empty PDU has all its items and bytes left.
pub empty_room :
    (a : List Entry) (left m : ℕ)
    → is_empty a ≡ true
    → response_size (asked a) + left ≡ m
    → left ≡ m
empty_room [] left m e h = omega arith
empty_room (x ∷ a) left m e h = cc

pub empty_slots : (a : List Entry) (left m : ℕ) → is_empty a ≡ true → length a + left ≡ m → left ≡ m
empty_slots [] left m e h = omega arith
empty_slots (x ∷ a) left m e h = cc

-- With an empty PDU and items left there is no reason to send.
pub nothing_to_send :
    (items_left bytes_left : ℕ) (behind ahead have_sent : Bool)
    → 1 ≤ items_left
    → 6 ≤ bytes_left
    → (have_sent ≡ false → behind ≡ true)
    → (behind && ahead) ≡ false
    → (items_left == 0 || (ltb bytes_left 6 || (ahead && not have_sent || (behind && ahead))))
      ≡ false
nothing_to_send items_left bytes_left true true have_sent a b started some_left = cc
nothing_to_send items_left bytes_left behind false true a b started some_left = ground arith
nothing_to_send items_left bytes_left behind false false a b started some_left = ground arith
nothing_to_send items_left bytes_left false true true a b started some_left = ground arith
nothing_to_send items_left bytes_left false true false a b started some_left =
    let e : false ≡ true = started refl in cc
