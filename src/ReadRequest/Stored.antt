-- ===== src/ReadRequest/Stored.antt =====
-- What the loop of `sendRequestToPlc` in s7nodaveApp/src/PortDriver.cc leaves in the store: the items
-- that were sent, each unread, read completely or in error.
use s7nodave.Prelude.{
  ℕ, ◌+◌, ◌≡◌, subst, false, ◌&&◌, some, List, [], ◌∷◌, ◌++◌, All, All-append, Bool-cases, inl, inr,
  ◌==◌, leb, is_empty, length, map, get_elem?-append_length, append_assoc, length-append,
}
use s7nodave.ReadItem.Totality.{IsReady, IsSameRange-refl}
use s7nodave.ReadItem.{Header}
use s7nodave.ReadRequest.Kept.{
  AreStored, AreGiven, IsKept, IsEntry, update-AreStored, zero-Keeps, fill-Keeps,
  process_plc_read_result-AreStored, Anything, AreInPlace, AreStored-AreInPlace, IsLeft, not_zero,
  set_all_zero-AreInPlace,
}
use s7nodave.ReadRequest.Induction.{After, ended, kept, send_loop-After}
use s7nodave.ReadRequest.{
  Answer, Client, DataItem, data_item, Entry, Sending, Sent, Step, going, fill,
  effective_read_bytes, max_size_of_payload, no_items, must_send, sent, entries, start_sending,
  send_pdu, place, place_next, go_on, step, send_request_to_plc,
}

module _ (P : Header → Type 0) (client : Client) (pdu_length : ℕ) (items : List Header)
    (keeps : IsKept P client) where
  record Inv (s : Sending) : Type 0 where
    behind : All (IsEntry items) s.behind
    ahead : All (IsEntry items) s.ahead
    in_pdu : All (IsEntry items) s.items_in_pdu
    stored : AreStored P items s.store

  abbrev Leaves : Step → Type 0
  Leaves = After Inv (IsLeft P items)

  left : (s : Sending) → AreStored P items s.store → IsLeft P items (sent 0 s)
  left s a = (AreStored-AreInPlace P items s.store a, λ e. a)

  place-Leaves :
      (s : Sending) (n : ℕ) (h : Header) (rest : List Entry)
      → Inv s
      → IsEntry items (n, h)
      → All (IsEntry items) rest
      → Leaves (place client pdu_length s (n, h) rest)
  unfolding place
  place-Leaves s n h rest i here later = elim (Bool-cases (h.read_bytes == 0)) [
    | inl nothing ↦
        rw (nothing, place)
          (kept (record {
            behind = i.behind;
            ahead = later;
            in_pdu = i.in_pdu;
            stored =
                update-AreStored P items s.store n h _ i.stored here (zero-Keeps P keeps.zeroed h);
          }))
    | inr some_bytes ↦ elim (Bool-cases (leb (effective_read_bytes h.read_bytes) s.bytes_left)) [
      | inl fits ↦
          rw (some_bytes, place, fits)
            (kept (record {
              behind = i.behind;
              ahead = later;
              stored = i.stored;
              in_pdu = All-append (IsEntry items) s.items_in_pdu ((n, h) ∷ []) i.in_pdu (here, tt);
            }))
      | inr large ↦ elim (Bool-cases (s.bytes_left == max_size_of_payload pdu_length)) [
        | inl empty ↦
            let answer = client.read_area (length s.calls) (data_item h) in
            elim (Bool-cases (answer.0 == 0)) [
              | inl ok ↦
                  rw (some_bytes, place, large, empty, ok)
                    (kept (record {
                      behind = i.behind;
                      ahead = later;
                      in_pdu = i.in_pdu;
                      stored = update-AreStored P items s.store n h (fill answer.1) i.stored here (
                          fill-Keeps P h answer.1
                            (keeps.given_alone (length s.calls) (data_item h) ok));
                    }))
              | inr failed ↦
                  rw (some_bytes, place, large, empty, failed)
                    (ended (
                      update-AreStored Anything items s.store n h (fill answer.1)
                          (AreStored-AreInPlace P items s.store i.stored) here
                          (fill-Keeps Anything h answer.1 (λ h' x e same g. tt)),
                      λ e. absurd (not_zero answer.0 failed e),
                    ))
            ]
        | inr begun ↦
            rw (some_bytes, place, large, begun)
              (kept (record {
                behind = All-append (IsEntry items) s.behind ((n, h) ∷ []) i.behind (here, tt);
                ahead = later;
                in_pdu = i.in_pdu;
                stored = i.stored;
              }))
      ]
    ]
  ]

  place_next-Leaves :
      (s : Sending) (behind ahead : List Entry)
      → Inv s
      → All (IsEntry items) behind
      → All (IsEntry items) ahead
      → Leaves (place_next client pdu_length s behind ahead)
  unfolding place_next
  place_next-Leaves s [] [] i b a = ended (left s i.stored)
  place_next-Leaves s ((n, h) ∷ rest) [] i (e, b) a =
      place-Leaves (record s { behind = []; have_sent = false }) n h rest
        (record { behind = tt; ahead = i.ahead; in_pdu = i.in_pdu; stored = i.stored }) e b
  place_next-Leaves s behind ((n, h) ∷ rest) i b (e, a) = place-Leaves s n h rest i e a

  go_on-Leaves : (s : Sending) → Inv s → Leaves (go_on client pdu_length (going s))
  unfolding go_on
  go_on-Leaves s i = elim (Bool-cases (no_items s)) [
    | inl all ↦ rw (all, go_on) (ended (left s i.stored))
    | inr some_left ↦
        rw (some_left, go_on) (place_next-Leaves s s.behind s.ahead i i.behind i.ahead)
  ]

  send_pdu-Leaves :
      (s : Sending) → Inv s → Leaves (go_on client pdu_length (send_pdu client pdu_length s))
  unfolding send_pdu go_on
  send_pdu-Leaves s i =
      let answer =
        client.read_multi_vars (length s.calls) (map (λ e. data_item e.1) s.items_in_pdu) in
      elim (Bool-cases (answer.status == 0)) [
        | inr failed ↦
            rw (failed, send_pdu)
              (ended (
                set_all_zero-AreInPlace items _ s.store
                    (All-append (IsEntry items) s.behind (s.ahead ++ s.items_in_pdu) i.behind
                      (All-append (IsEntry items) s.ahead s.items_in_pdu i.ahead i.in_pdu))
                    (AreStored-AreInPlace P items s.store i.stored),
                λ e. absurd (not_zero answer.status failed e),
              ))
        | inl ok ↦
            rw (ok, send_pdu)
              (go_on-Leaves _ (record {
                behind = i.behind;
                ahead = i.ahead;
                in_pdu = tt;
                stored =
                    process_plc_read_result-AreStored P keeps.failed items answer 0 s.items_in_pdu
                      s.store i.in_pdu
                      (keeps.given (length s.calls) (map (λ e. data_item e.1) s.items_in_pdu) ok)
                      i.stored;
              }))
      ]

  step-Leaves : (s : Sending) → Inv s → Leaves (step client pdu_length s)
  unfolding step
  step-Leaves s i = elim (Bool-cases (no_items s && is_empty s.items_in_pdu)) [
    | inl all ↦ rw (all, step) (ended (left s i.stored))
    | inr some_left ↦ elim (Bool-cases (must_send s)) [
      | inl must ↦ rw (some_left, step, must) (send_pdu-Leaves s i)
      | inr go ↦ rw (some_left, step, go) (place_next-Leaves s s.behind s.ahead i i.behind i.ahead)
    ]
  ]

entries-IsEntry :
    (before items : List Header) → All (IsEntry (before ++ items)) (entries (length before) items)
entries-IsEntry before [] = tt
entries-IsEntry before (h ∷ items) = (
  get_elem?-append_length before items h,
  subst (λ l. All (IsEntry l) (entries (length before + 1) items))
      (append_assoc before (h ∷ []) items)
      (subst (λ n. All (IsEntry ((before ++ h ∷ []) ++ items)) (entries n items))
        (length-append before (h ∷ [])) (entries-IsEntry (before ++ h ∷ []) items)),
)

AreStored-refl :
    (P : Header → Type 0) (items : List Header)
    → All IsReady items
    → All P items
    → AreStored P items items
AreStored-refl P [] r g = tt
AreStored-refl P (h ∷ items) (k, r) (g, gs) =
    (record { same = IsSameRange-refl h; ready = k; good = g }, AreStored-refl P items r gs)

-- The items that are sent stay in their places with their areas and ranges, and each of them is in
-- error, unread or read completely afterwards, if it was before. On success they also have any property
-- that the answers of the client keep, if they had it before.
pub send_request_to_plc-IsLeft :
    (P : Header → Type 0) (client : Client) (pdu_length fuel : ℕ) (items : List Header) {r : Sent}
    → IsKept P client
    → All IsReady items
    → All P items
    → send_request_to_plc client pdu_length fuel items ≡ some r
    → IsLeft P items r
unfolding send_request_to_plc
send_request_to_plc-IsLeft P client pdu_length fuel items keeps ready good e =
    send_loop-After client pdu_length (Inv P client pdu_length items keeps) (IsLeft P items)
      (step-Leaves P client pdu_length items keeps) fuel (start_sending pdu_length items)
      (record {
        behind = tt;
        ahead = entries-IsEntry [] items;
        in_pdu = tt;
        stored = AreStored-refl P items ready good;
      })
      e

AreGiven-Anything :
    (a : Answer) (position : ℕ) (asked : List DataItem) → AreGiven Anything a position asked
AreGiven-Anything a position [] = tt
AreGiven-Anything a position (i ∷ asked) =
    ((λ ok h x e same g. tt), AreGiven-Anything a (position + 1) asked)

All-Anything : (items : List Header) → All Anything items
All-Anything [] = tt
All-Anything (h ∷ items) = (tt, All-Anything items)

-- The items that are sent stay in their places, whatever the client answers.
pub send_request_to_plc-AreInPlace :
    (client : Client) (pdu_length fuel : ℕ) (items : List Header) {r : Sent}
    → All IsReady items
    → send_request_to_plc client pdu_length fuel items ≡ some r
    → AreInPlace items r.store
send_request_to_plc-AreInPlace client pdu_length fuel items {r} ready e =
    (send_request_to_plc-IsLeft Anything client pdu_length fuel items {r = r}
      (record {
        zeroed = λ x g. tt;
        failed = λ x g. tt;
        given = λ calls asked ok. AreGiven-Anything (client.read_multi_vars calls asked) 0 asked;
        given_alone = λ calls i ok h x e same g. tt;
      })
      ready (All-Anything items) e).0
