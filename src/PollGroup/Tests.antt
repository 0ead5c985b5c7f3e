-- ===== src/PollGroup/Tests.antt =====
-- A group of two requesters, of which the second asks twice, and the theorems at it.
use s7nodave.Asyn.{db, word, success, timeout}
use s7nodave.MultipleRead.Positions.{positions, serving_client, serving_client-IsServing}
use s7nodave.PollGroup.Responses.{
  answered_of, refusal, process_group_refused, process_group_dropped,
}
use s7nodave.PollGroup.Rounds.{process_group_answers, process_group_disconnected}
use s7nodave.PollGroup.Truth.{HasStart, AreServedRanges, process_group-AreServedRanges}
use s7nodave.PollGroup.{lock, collect_requests, Port, process_group, driver_port}
use s7nodave.PortDriver.{PortDriver}
use s7nodave.Prelude.{
  ℕ, ◌≡◌, refl, Bool, true, false, Option, some, List, [], ◌∷◌, map, Bytes, pos, ltb, All, ◌==◌,
  if◌then◌else◌, arith, Bool-cases, inl, inr,
}
use s7nodave.ReadRequest.{Client}
use s7nodave.Record.Input.{PollRequest}

abbrev ask : ℕ → PollRequest
ask start = record {
  address = record {
    area = db;
    area_number = pos 1;
    data_size = word;
    start_byte = pos start;
    start_bit = pos 0;
  };
  size = 2;
  buffer = 0 ∷ 0 ∷ [];
}

abbrev prepare : ℕ → List PollRequest
prepare n = if n == 7 then ask 4 ∷ [] else ask 0 ∷ ask 8 ∷ []

abbrev has_memory : ℕ → Bool
has_memory n = true

abbrev malloc : ℕ → Option Bytes
malloc n = some (0 ∷ 0 ∷ 0 ∷ 0 ∷ [])

abbrev client : Client
client = record {
  read_multi_vars = λ k asked. record { status = 0; result = λ i. 0; bytes = λ i. 5 ∷ 6 ∷ [] };
  read_area = λ k asked. (0, 5 ∷ 6 ∷ []);
}

abbrev requesters : List ℕ
requesters = 7 ∷ 9 ∷ []

abbrev closed : PortDriver
closed = record {
  connected = false;
  port_name = [];
  plc_hostname = [];
  plc_port = pos 102;
  plc_rack = pos 0;
  plc_slot = pos 2;
  priority = 0;
  registered = true;
}

process_group_answers_example :
    map answered_of
      (process_group prepare has_memory
        (driver_port malloc client 240 (record closed { connected = true }) success)
        requesters).0
    ≡ (7, 2) ∷ (9, 2) ∷ (9, 2) ∷ []
unfolding collect_requests
process_group_answers_example =
    process_group_answers prepare has_memory malloc client 240 (record closed { connected = true })
      success requesters (λ k. refl)

process_group_disconnected_example :
    All
      (λ r. r.success ≡ false)
      (process_group prepare has_memory (driver_port malloc client 240 closed success) requesters).0
process_group_disconnected_example =
    process_group_disconnected prepare has_memory malloc client 240 closed success requesters refl

abbrev busy : Port
busy = record { lock_port = timeout; read_items = λ chain. (success, chain) }

process_group_refused_example :
    process_group prepare has_memory busy requesters
    ≡ (map refusal (collect_requests prepare requesters), lock ∷ [])
process_group_refused_example =
    process_group_refused prepare has_memory busy 7 (9 ∷ []) (λ k. refl) refl

process_group_dropped_example : process_group prepare (λ n. ltb n 2) busy requesters ≡ ([], [])
unfolding collect_requests
process_group_dropped_example =
    process_group_dropped prepare (λ n. ltb n 2) busy requesters 2 (omega arith) refl

starts : (k : ℕ) → All HasStart (prepare k)
starts k = elim (Bool-cases (k == 7)) [
  | inl first ↦ rw first ((4, refl), tt)
  | inr second ↦ rw second ((0, refl), ((8, refl), tt))
]

process_group-AreServedRanges_example :
    AreServedRanges positions
      (collect_requests prepare requesters)
      (process_group prepare has_memory
        (driver_port malloc serving_client 240 (record closed { connected = true }) success)
        requesters).0
process_group-AreServedRanges_example =
    process_group-AreServedRanges positions prepare has_memory malloc serving_client 240
      (record closed { connected = true }) success serving_client-IsServing requesters (λ k. refl)
      starts
