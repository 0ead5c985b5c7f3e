-- ===== src/ReadRequest/Termination.antt =====
-- The loop of `sendRequestToPlc` in s7nodaveApp/src/PortDriver.cc ends.
use s7nodave.Prelude.{
  ℕ, zero, suc, ◌+◌, ◌*◌, ◌≤◌, ◌<◌, ◌≡◌, refl, ap, Bool, true, false, ◌&&◌, Option, some, List, [],
  ◌∷◌, ◌++◌, ◌⊎◌, inl, inr, length, length-append, is_empty, Bool-cases, arith, map, ◌==◌, leb,
}
use s7nodave.ReadItem.{Header}
use s7nodave.ReadRequest.{
  Client, Sending, Sent, Step, going, finished, Entry, place, place_next, go_on, send_pdu, step,
  send_loop, send_request_to_plc, start_sending, entries, no_items, must_send, max_size_of_payload,
  effective_read_bytes, data_item,
}

abbrev pub count : Sending → ℕ
count s = length s.behind + length s.ahead

-- The items that the loop may still pass before it sends a PDU.
abbrev pub passes : ℕ → Bool → ℕ
passes bound true = bound + 1
passes bound false = 0

-- Decreases with each round, as long as there are at most so many items.
abbrev pub measure : ℕ → Sending → ℕ
measure bound s = count s * (2 * bound + 2) + (passes bound s.have_sent + length s.ahead)

pub not_begun : {P : Type 0} {a b : ℕ} → a ≡ b → (a == b) ≡ false → P
not_begun h e = absurd (ground arith)

-- What is left of the measure when an item is taken from the list.
taken_after_send :
    (a r bound p limit : ℕ)
    → a + suc r ≤ bound
    → p ≤ bound + 1
    → (a + suc r) * (2 * bound + 2) ≤ limit
    → (a + r) * (2 * bound + 2) + (p + r) < limit
taken_after_send a r bound p limit few h less = omega arith

taken_before_send :
    (a r k p limit : ℕ) → (a + suc r) * k + (p + suc r) ≤ limit → (a + r) * k + (p + r) < limit
taken_before_send a r k p limit less = omega arith

wrap_less :
    (r bound p limit : ℕ)
    → suc r + 0 ≤ bound
    → p ≡ bound + 1
    → (suc r + 0) * (2 * bound + 2) + (p + 0) ≤ limit
    → ((0 + r) * (2 * bound + 2) + (0 + r) < limit)
      × ((0 + suc r) * (2 * bound + 2) + (0 + suc r) ≤ limit)
wrap_less r bound p limit few h less = (omega arith, omega arith)

passes_bound : (bound : ℕ) (b : Bool) → passes bound b ≤ bound + 1
passes_bound bound true = omega arith
passes_bound bound false = omega arith

module _ (client : Client) (pdu_length bound : ℕ) where
  -- The result of a round: there are no more items than the bound, and the measure is below a limit.
  data Below (limit : ℕ) : Step → Type 0 where
    ended : {r : Sent} → Below limit (finished r)
    lower : {s : Sending} → count s ≤ bound → measure bound s < limit → Below limit (going s)

  module _ (limit : ℕ) (s : Sending) (n : ℕ) (h : Header) (rest : List Entry)
      (few : length s.behind + suc (length rest) ≤ bound) where
    -- An item that is taken from the list makes room for two passes.
    taken : ℕ
    taken =
        (length s.behind + length rest) * (2 * bound + 2) + (passes bound s.have_sent + length rest)

    -- An item that is skipped stays in the list.
    skipped : length (s.behind ++ (n, h) ∷ []) + length rest ≡ length s.behind + suc (length rest)
    skipped = omega (arith, length-append s.behind ((n, h) ∷ []))

    place-Below :
        taken < limit
        → (s.bytes_left ≡ max_size_of_payload pdu_length)
          ⊎ (measure bound (record s { ahead = (n, h) ∷ rest }) ≤ limit)
        → Below limit (place client pdu_length s (n, h) rest)
    unfolding place taken
    place-Below less why = elim (Bool-cases (h.read_bytes == 0)) [
      | inl nothing ↦ rw (nothing, place) (lower (omega arith) less)
      | inr some_bytes ↦ elim (Bool-cases (leb (effective_read_bytes h.read_bytes) s.bytes_left)) [
        | inl fits ↦ rw (some_bytes, place, fits) (lower (omega arith) less)
        | inr large ↦ elim (Bool-cases (s.bytes_left == max_size_of_payload pdu_length)) [
          | inl empty ↦
              elim (Bool-cases ((client.read_area (length s.calls) (data_item h)).0 == 0)) [
                | inl ok ↦ rw (some_bytes, place, large, empty, ok) (lower (omega arith) less)
                | inr failed ↦ rw (some_bytes, place, large, empty, failed) ended
              ]
          | inr begun ↦ elim why [
            | inl new ↦ not_begun new begun
            | inr left ↦
                rw (some_bytes, place, large, begun)
                  (lower (omega (arith, skipped)) (rw skipped (omega arith)))
          ]
        ]
      ]
    ]

  module _ (limit : ℕ) (s : Sending) where
    -- With an empty PDU the next item is taken from the list.
    after_send :
        (behind ahead : List Entry)
        → length s.behind ≡ length behind
        → s.bytes_left ≡ max_size_of_payload pdu_length
        → length behind + length ahead ≤ bound
        → (length behind + length ahead) * (2 * bound + 2) ≤ limit
        → Below limit (place_next client pdu_length s behind ahead)
    unfolding place_next taken
    after_send [] [] e full few less = ended
    after_send ((m, x) ∷ behind) [] e full few less =
        place-Below limit (record s { behind = []; have_sent = false }) m x behind (omega arith)
          (taken_after_send 0 (length behind) bound 0 limit (omega arith) (omega arith)
            (omega arith))
          (inl full)
    after_send behind ((n, h) ∷ rest) e full few less =
        place-Below limit s n h rest (omega arith)
          (rw e (
            taken_after_send (length behind) (length rest) bound (passes bound s.have_sent) limit
              few (passes_bound bound s.have_sent) less))
          (inl full)

    -- Without, the next item is taken or skipped, the first one again only behind a PDU.
    before_send :
        (behind ahead : List Entry)
        → length s.behind ≡ length behind
        → length behind + length ahead ≤ bound
        → (is_empty ahead ≡ true → s.have_sent ≡ true)
        → (length behind + length ahead) * (2 * bound + 2)
            + (passes bound s.have_sent + length ahead)
          ≤ limit
        → Below limit (place_next client pdu_length s behind ahead)
    unfolding place_next taken
    before_send [] [] e few again less = ended
    before_send ((m, x) ∷ behind) [] e few again less =
        let (taken_less, left) =
          wrap_less (length behind) bound (passes bound s.have_sent) limit few
            (ap (passes bound) (again refl)) less in
        place-Below limit (record s { behind = []; have_sent = false }) m x behind (omega arith)
          taken_less (inr left)
    before_send behind ((n, h) ∷ rest) e few again less =
        place-Below limit s n h rest (omega arith)
          (rw e (
            taken_before_send (length behind) (length rest) (2 * bound + 2)
              (passes bound s.have_sent) limit less))
          (inr (rw e less))

  go_on-Below :
      (limit : ℕ) (s : Sending)
      → s.bytes_left ≡ max_size_of_payload pdu_length
      → count s ≤ bound
      → count s * (2 * bound + 2) ≤ limit
      → Below limit (go_on client pdu_length (going s))
  unfolding go_on
  go_on-Below limit s full few less = elim (Bool-cases (no_items s)) [
    | inl all ↦ rw (all, go_on) ended
    | inr some_left ↦ rw (some_left, go_on) (after_send limit s s.behind s.ahead refl full few less)
  ]

  send_pdu-Below :
      (s : Sending)
      → count s ≤ bound
      → Below (measure bound s) (go_on client pdu_length (send_pdu client pdu_length s))
  unfolding send_pdu go_on
  send_pdu-Below s few =
      let answer =
        client.read_multi_vars (length s.calls) (map (λ e. data_item e.1) s.items_in_pdu) in
      elim (Bool-cases (answer.status == 0)) [
        | inr failed ↦ rw (failed, send_pdu) ended
        | inl ok ↦ rw (ok, send_pdu) (go_on-Below (measure bound s) _ refl few (omega arith))
      ]

  must_send_again :
      (s : Sending) → must_send s ≡ false → is_empty s.ahead ≡ true → s.have_sent ≡ true
  must_send_again s h e = ground arith

  step-Below : (s : Sending) → count s ≤ bound → Below (measure bound s) (step client pdu_length s)
  unfolding step
  step-Below s few = elim (Bool-cases (no_items s && is_empty s.items_in_pdu)) [
    | inl all ↦ rw (all, step) ended
    | inr some_left ↦ elim (Bool-cases (must_send s)) [
      | inl must ↦ rw (some_left, step, must) (send_pdu-Below s few)
      | inr go ↦
          rw (some_left, step, go)
            (before_send (measure bound s) s s.behind s.ahead refl few (must_send_again s go)
              (omega arith))
    ]
  ]

  send_loop-enough :
      (fuel : ℕ) (s : Sending)
      → count s ≤ bound
      → measure bound s < fuel
      → (r : Sent) × (send_loop client pdu_length fuel s ≡ some r)
  unfolding send_loop
  send_loop-enough zero s few less = absurd (omega arith)
  send_loop-enough (suc fuel) s few less =
      next (step client pdu_length s) (step-Below s few)
        (λ s' few' less'. send_loop-enough fuel s' few' (omega arith))
    where
      next :
          (o : Step)
          → Below (measure bound s) o
          → ((s' : Sending)
              → count s' ≤ bound
              → measure bound s' < measure bound s
              → (r : Sent) × (send_loop client pdu_length fuel s' ≡ some r))
          → (r : Sent) × (elim o as (λ _. Option Sent) [
            | finished r ↦ some r
            | going s' ↦ send_loop client pdu_length fuel s'
          ]
              ≡ some r)
      next (finished r) ended later = (r, refl)
      next (going s') (lower few' less') later = later s' few' less'

length-entries : (n : ℕ) (items : List Header) → length (entries n items) ≡ length items
length-entries n [] = refl
length-entries n (h ∷ items) = ap suc (length-entries (n + 1) items)

-- Whatever the client answers and however large a PDU is, the loop ends with a result: for n items a
-- fuel over n*(2*n+2)+n is enough.
pub send_request_to_plc-enough :
    (client : Client) (pdu_length fuel : ℕ) (items : List Header)
    → length items * (2 * length items + 2) + length items < fuel
    → (r : Sent) × (send_request_to_plc client pdu_length fuel items ≡ some r)
unfolding send_request_to_plc
send_request_to_plc-enough client pdu_length fuel items less =
    send_loop-enough client pdu_length (length items) fuel (start_sending pdu_length items)
      (omega (arith, length-entries 0 items)) (rw (length-entries 0 items) (omega arith))
