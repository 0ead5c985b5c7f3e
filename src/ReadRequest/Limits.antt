-- ===== src/ReadRequest/Limits.antt =====
-- Every request of `sendRequestToPlc` in s7nodaveApp/src/PortDriver.cc fits the PDU.
use s7nodave.Prelude.{
  Bool, refl, ℕ, ◌+◌, ◌-◌, ◌*◌, ◌%◌, ◌^◌, ◌≤◌, ◌<◌, ◌≡◌, true, false, ◌&&◌, some, List, [], ◌∷◌,
  ◌++◌, inl, inr, length, length-append, length-map, is_empty, All, All-append, Bool-cases, arith,
  leb→le, ◌==◌, leb,
}
use s7nodave.ReadItem.{Header}
use s7nodave.ReadRequest.Termination.{send_request_to_plc-enough, not_begun}
use s7nodave.ReadRequest.Induction.{After, ended, kept, send_loop-After}
use s7nodave.ReadRequest.{
  Client, data_item, multi_vars, one_area, Sending, Sent, Step, going, Entry, place, place_next,
  go_on, send_pdu, step, send_request_to_plc, start_sending, no_items, must_send,
  max_size_of_payload, max_number_of_items, effective_read_bytes,
}
use s7nodave.ReadRequest.Sizes.{
  is_empty-append, is_empty-asked, empty_room, empty_slots, nothing_to_send, response_size, asked,
  IsLegal, response_size-asked, max_number_of_items_bound, max_size_of_payload_eq, one_of,
  slot_count, room_count, effective_read_bytes_lem, too_large, pdu_fits,
}

not_both : {P : Type 0} {b : Bool} → b ≡ false → b ≡ true → P
not_both h e = cc

left_over : (a b : Bool) → b ≡ true → (a && b) ≡ false → a ≡ false
left_over true b e h = cc
left_over false b e h = refl

enough_room : (left m p : ℕ) → left ≡ m → 14 + m ≡ p → 24 ≤ p → 6 ≤ left
enough_room left m p e h least = omega arith

module _ (client : Client) (pdu_length : ℕ) (least : 24 ≤ pdu_length)
    (word : pdu_length < 2 ^ 32) where
  record IsCounted (s : Sending) : Type 0 where
    slots : length s.items_in_pdu + s.items_left ≡ max_number_of_items pdu_length
    room : response_size (asked s.items_in_pdu) + s.bytes_left ≡ max_size_of_payload pdu_length
    legal : All (IsLegal pdu_length) s.calls
    -- The first items that are passed by are so because the PDU has begun.
    started : is_empty s.items_in_pdu ≡ true → s.have_sent ≡ false → is_empty s.behind ≡ true

  abbrev Keeps : Step → Type 0
  Keeps = After IsCounted (λ r. All (IsLegal pdu_length) r.calls)

  next_slot :
      (s : Sending) (n : ℕ) (h : Header)
      → IsCounted s
      → 1 ≤ s.items_left
      → length (s.items_in_pdu ++ (n, h) ∷ []) + (s.items_left + 2 ^ 32 - 1) % 2 ^ 32
        ≡ max_number_of_items pdu_length
  next_slot s n h i free =
      let few = (max_number_of_items_bound pdu_length least).1 in
      let left : s.items_left ≤ 20 = one_of (length s.items_in_pdu) s.items_left _ i.slots few in
      slot_count (length s.items_in_pdu) s.items_left _ (length-append s.items_in_pdu ((n, h) ∷ []))
        i.slots free left

  next_room :
      (s : Sending) (n : ℕ) (h : Header)
      → IsCounted s
      → leb (effective_read_bytes h.read_bytes) s.bytes_left ≡ true
      → response_size (asked (s.items_in_pdu ++ (n, h) ∷ []))
          + (s.bytes_left - effective_read_bytes h.read_bytes)
        ≡ max_size_of_payload pdu_length
  next_room s n h i fits =
      room_count (response_size (asked s.items_in_pdu)) s.bytes_left
        (effective_read_bytes h.read_bytes) _ _ (response_size-asked s.items_in_pdu n h) i.room
        (leb→le _ _ fits)

  oversized :
      (h : Header) (left : ℕ)
      → leb (effective_read_bytes h.read_bytes) left ≡ false
      → (left == max_size_of_payload pdu_length) ≡ true
      → IsLegal pdu_length (one_area (data_item h))
  unfolding data_item
  oversized h left large empty = rw (← effective_read_bytes_lem h.read_bytes) (
      too_large left _ (effective_read_bytes h.read_bytes) pdu_length
        (max_size_of_payload_eq pdu_length least word) large empty)

  place-Keeps :
      (s : Sending) (n : ℕ) (h : Header) (rest : List Entry)
      → IsCounted s
      → 1 ≤ s.items_left
      → Keeps (place client pdu_length s (n, h) rest)
  unfolding place
  place-Keeps s n h rest i free = elim (Bool-cases (h.read_bytes == 0)) [
    | inl nothing ↦
        rw (nothing, place)
          (kept (record { slots = i.slots; room = i.room; legal = i.legal; started = i.started }))
    | inr some_bytes ↦ elim (Bool-cases (leb (effective_read_bytes h.read_bytes) s.bytes_left)) [
      | inl fits ↦
          rw (some_bytes, place, fits)
            (kept (record {
              slots = next_slot s n h i free;
              room = next_room s n h i fits;
              legal = i.legal;
              started = λ e f. not_both (is_empty-append s.items_in_pdu (n, h)) e;
            }))
      | inr large ↦ elim (Bool-cases (s.bytes_left == max_size_of_payload pdu_length)) [
        | inl empty ↦
            let legal =
              All-append (IsLegal pdu_length) s.calls (one_area (data_item h) ∷ []) i.legal
                (oversized h s.bytes_left large empty, tt) in
            elim (Bool-cases ((client.read_area (length s.calls) (data_item h)).0 == 0)) [
              | inl ok ↦
                  rw (some_bytes, place, large, empty, ok)
                    (kept (record {
                      slots = i.slots;
                      room = i.room;
                      legal = legal;
                      started = i.started;
                    }))
              | inr failed ↦ rw (some_bytes, place, large, empty, failed) (ended legal)
            ]
        | inr begun ↦
            rw (some_bytes, place, large, begun)
              (kept (record {
                slots = i.slots;
                room = i.room;
                legal = i.legal;
                started =
                    λ e f. not_begun (empty_room s.items_in_pdu s.bytes_left _ e i.room) begun;
              }))
      ]
    ]
  ]

  place_next-Keeps :
      (s : Sending) (behind ahead : List Entry)
      → IsCounted s
      → 1 ≤ s.items_left
      → Keeps (place_next client pdu_length s behind ahead)
  unfolding place_next
  place_next-Keeps s [] [] i free = ended i.legal
  place_next-Keeps s ((n, h) ∷ rest) [] i free =
      place-Keeps (record s { behind = []; have_sent = false }) n h rest
        (record { slots = i.slots; room = i.room; legal = i.legal; started = λ e f. refl }) free
  place_next-Keeps s behind ((n, h) ∷ rest) i free = place-Keeps s n h rest i free

  go_on-Keeps :
      (s : Sending) → IsCounted s → 1 ≤ s.items_left → Keeps (go_on client pdu_length (going s))
  unfolding go_on
  go_on-Keeps s i free = elim (Bool-cases (no_items s)) [
    | inl all ↦ rw (all, go_on) (ended i.legal)
    | inr some_left ↦ rw (some_left, go_on) (place_next-Keeps s s.behind s.ahead i free)
  ]

  -- The items in the PDU fit it.
  counted-IsLegal :
      (s : Sending)
      → IsCounted s
      → is_empty s.items_in_pdu ≡ false
      → IsLegal pdu_length (multi_vars (asked s.items_in_pdu))
  counted-IsLegal s i filled =
      let b = max_number_of_items_bound pdu_length least in
      let (few, request_fits, response_fits) =
        pdu_fits _ _ _ _ _ _ _ (length-map (λ e. data_item e.1) s.items_in_pdu) i.slots i.room b.1
          b.2 (max_size_of_payload_eq pdu_length least word) in
      (rw (is_empty-asked s.items_in_pdu) filled, few, request_fits, response_fits)

  -- Only a PDU that has begun is sent.
  must_send_filled :
      (s : Sending)
      → IsCounted s
      → (no_items s && is_empty s.items_in_pdu) ≡ false
      → must_send s ≡ true
      → is_empty s.items_in_pdu ≡ false
  must_send_filled s i some_left must = elim (Bool-cases (is_empty s.items_in_pdu)) [
    | inr filled ↦ filled
    | inl empty ↦
        let slots = empty_slots s.items_in_pdu s.items_left _ empty i.slots in
        let room = empty_room s.items_in_pdu s.bytes_left _ empty i.room in
        let idle =
          nothing_to_send s.items_left s.bytes_left (is_empty s.behind) (is_empty s.ahead)
            s.have_sent (rw slots (max_number_of_items_bound pdu_length least).0)
            (enough_room s.bytes_left _ pdu_length room
              (max_size_of_payload_eq pdu_length least word) least)
            (i.started empty) (left_over (no_items s) _ empty some_left) in
        not_both idle must
  ]

  send_pdu-Keeps :
      (s : Sending)
      → IsCounted s
      → is_empty s.items_in_pdu ≡ false
      → Keeps (go_on client pdu_length (send_pdu client pdu_length s))
  unfolding send_pdu go_on
  send_pdu-Keeps s i filled =
      let legal =
        All-append (IsLegal pdu_length) s.calls (multi_vars (asked s.items_in_pdu) ∷ []) i.legal
          (counted-IsLegal s i filled, tt) in
      elim (Bool-cases
        ((client.read_multi_vars (length s.calls) (asked s.items_in_pdu)).status == 0)) [
          | inr failed ↦ rw (failed, send_pdu) (ended legal)
          | inl ok ↦
              rw (ok, send_pdu)
                (go_on-Keeps _
                  (record {
                    slots = omega arith;
                    room = omega arith;
                    legal = legal;
                    started = λ e f. not_both f refl;
                  })
                  (max_number_of_items_bound pdu_length least).0)
        ]

  must_send_free : (s : Sending) → must_send s ≡ false → 1 ≤ s.items_left
  must_send_free s h = ground arith

  step-Keeps : (s : Sending) → IsCounted s → Keeps (step client pdu_length s)
  unfolding step
  step-Keeps s i = elim (Bool-cases (no_items s && is_empty s.items_in_pdu)) [
    | inl all ↦ rw (all, step) (ended i.legal)
    | inr some_left ↦ elim (Bool-cases (must_send s)) [
      | inl must ↦
          rw (some_left, step, must) (send_pdu-Keeps s i (must_send_filled s i some_left must))
      | inr go ↦
          rw (some_left, step, go) (place_next-Keeps s s.behind s.ahead i (must_send_free s go))
    ]
  ]

-- For a PDU of at least 24 and less than 2^32 bytes and n items, a fuel over n*(2*n+2)+n sends the
-- items, and each request asks for at least one and at most 20 items and fits the PDU, as does its
-- response; only an item that does not fit a PDU alone is read by a call of its own.
pub send_request_to_plc-IsLegal :
    (client : Client) (pdu_length fuel : ℕ) (items : List Header)
    → 24 ≤ pdu_length
    → pdu_length < 2 ^ 32
    → length items * (2 * length items + 2) + length items < fuel
    → (r : Sent) × (send_request_to_plc client pdu_length fuel items ≡ some r)
      × All (IsLegal pdu_length) r.calls
unfolding send_request_to_plc
send_request_to_plc-IsLegal client pdu_length fuel items least word enough =
    let (r, e) = send_request_to_plc-enough client pdu_length fuel items enough in
    (
      r,
      e,
      send_loop-After client pdu_length (IsCounted client pdu_length least word)
          (λ r. All (IsLegal pdu_length) r.calls) (step-Keeps client pdu_length least word) fuel
          (start_sending pdu_length items)
          (record { slots = omega arith; room = omega arith; legal = tt; started = λ e f. refl }) e,
    )
