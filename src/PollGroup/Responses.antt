-- ===== src/PollGroup/Responses.antt =====
-- The responses that a round of a poll group of s7nodaveApp/src/PollGroup.cc makes.
use s7nodave.Asyn.{AsynStatus, is_success}
use s7nodave.PollGroup.{
  Asked, item_of, collect_requests, build_chain, Port, PortCall, lock, read_chain_of, Response,
  responses_of, process_group,
}
use s7nodave.Prelude.{
  ℕ, zero, suc, ◌+◌, ◌<◌, ◌≡◌, refl, ap, Bool, true, false, none, some, List, [], ◌∷◌, map, length,
  length-map, arith, subst, ◌∙◌, Bool-cases, inl, inr,
}
use s7nodave.ReadItem.{Request}
use s7nodave.Record.Input.{PollRequest}

-- The requester and the size of a request and of a response.
abbrev pub asked_of : Asked → ℕ × ℕ
asked_of (q, r) = (r, q.size)

abbrev pub answered_of : Response → ℕ × ℕ
answered_of r = (r.requester, r.size)

-- The answer to a request that was not read: its own buffer.
abbrev pub refusal : Asked → Response
refusal (q, r) = record { requester = r; success = false; size = q.size; buffer = some q.buffer }

abbrev pub items_of : List Asked → List Request
items_of = map (λ q. item_of q.0)

pub build_chain-items_of :
    (has_room : ℕ → Bool) (n : ℕ) (requests : List Asked)
    → ((k : ℕ) → has_room k ≡ true)
    → build_chain has_room n requests ≡ some (items_of requests)
unfolding build_chain
build_chain-items_of has_room n [] room = refl
build_chain-items_of has_room n (q ∷ requests) room =
    rw (room n, build_chain, build_chain-items_of has_room (n + 1) requests room) refl

zero_plus : (n : ℕ) → n ≡ zero + n
zero_plus n = omega arith

plus_zero : (n : ℕ) → n + zero ≡ n
plus_zero n = omega arith

plus_next : (n k : ℕ) → n + suc k ≡ n + 1 + k
plus_next n k = omega arith

build_chain_dropped :
    (has_room : ℕ → Bool) (n k : ℕ) (requests : List Asked)
    → k < length requests
    → has_room (n + k) ≡ false
    → build_chain has_room n requests ≡ none
unfolding build_chain
build_chain_dropped has_room n k [] inside full = absurd (omega (arith, inside))
build_chain_dropped has_room n zero (q ∷ requests) inside full =
    rw (subst (λ m. has_room m ≡ false) (plus_zero n) full, build_chain) refl
build_chain_dropped has_room n (suc k) (q ∷ requests) inside full = elim (Bool-cases (has_room n)) [
  | inr here ↦ rw (here, build_chain) refl
  | inl room ↦
      rw
        (
          room,
          build_chain,
          build_chain_dropped has_room (n + 1) k requests (omega (arith, inside))
              (subst (λ m. has_room m ≡ false) (plus_next n k) full),
        )
        refl
]

respond-answered_of :
    (status : AsynStatus) (requests : List Asked) (items : List Request)
    → length items ≡ length requests
    → map answered_of (responses_of status requests items) ≡ map asked_of requests
unfolding responses_of
respond-answered_of status [] items e = refl
respond-answered_of status (q ∷ requests) [] e = absurd (omega (arith, e))
respond-answered_of status ((q, r) ∷ requests) (i ∷ items) e =
    ap (λ l. (r, q.size) ∷ l) (respond-answered_of status requests items (omega (arith, e)))

respond_refused :
    (status : AsynStatus) (requests : List Asked)
    → is_success status ≡ false
    → responses_of status requests (items_of requests) ≡ map refusal requests
unfolding responses_of
respond_refused status [] e = refl
respond_refused status ((q, r) ∷ requests) e = rw (e, respond_refused status requests e) refl

respond_nothing :
    (status : AsynStatus) (requests : List Asked)
    → Path (List Response × List PortCall) (responses_of status requests [], []) ([], [])
unfolding responses_of
respond_nothing status [] = refl
respond_nothing status (q ∷ requests) = refl

module _ (prepare : ℕ → List PollRequest) (has_room : ℕ → Bool) (port : Port) where
  abbrev pub requests_of : List ℕ → List Asked
  requests_of = collect_requests prepare

  pub none_asked : collect_requests prepare [] ≡ []
  unfolding collect_requests
  none_asked = refl

  read_chain_of_refused :
      (chain : List Request)
      → is_success port.lock_port ≡ false
      → read_chain_of port (some chain) ≡ (port.lock_port, chain, lock ∷ [])
  unfolding read_chain_of
  read_chain_of_refused chain refused = rw (refused, read_chain_of) refl

  pub read_chain_of-length :
      (chain : List Request)
      → ((chain : List Request) → length (port.read_items chain).1 ≡ length chain)
      → length (read_chain_of port (some chain)).1 ≡ length chain
  unfolding read_chain_of
  read_chain_of-length chain same = elim (Bool-cases (is_success port.lock_port)) [
    | inl locked ↦ rw (locked, read_chain_of) (same chain)
    | inr refused ↦ rw (refused, read_chain_of) refl
  ]

  -- If there is memory for each item and the driver gives back as many items as it gets, then the
  -- responses go to the requesters of all requests, in their order and with their sizes.
  pub process_group-answered_of :
      (requesters : List ℕ)
      → ((k : ℕ) → has_room k ≡ true)
      → ((chain : List Request) → length (port.read_items chain).1 ≡ length chain)
      → map answered_of (process_group prepare has_room port requesters).0
        ≡ map asked_of (collect_requests prepare requesters)
  unfolding process_group
  process_group-answered_of [] room same = rw none_asked refl
  process_group-answered_of (r ∷ requesters) room same =
      let requests = requests_of (r ∷ requesters) in
      rw (build_chain-items_of has_room 0 requests room) (
        respond-answered_of _ requests _
          (read_chain_of-length (items_of requests) same ∙ length-map (λ q. item_of q.0) requests))

  -- If there is memory for each item of a group with requesters and asyn refuses to lock the port, then
  -- nothing is read or unlocked, and each requester is told of the failure and given back its own buffer.
  pub process_group_refused :
      (r : ℕ) (requesters : List ℕ)
      → ((k : ℕ) → has_room k ≡ true)
      → is_success port.lock_port ≡ false
      → process_group prepare has_room port (r ∷ requesters)
        ≡ (map refusal (collect_requests prepare (r ∷ requesters)), lock ∷ [])
  unfolding process_group
  process_group_refused r requesters room refused =
      let requests = requests_of (r ∷ requesters) in
      rw
        (
          build_chain-items_of has_room 0 requests room,
          read_chain_of_refused (items_of requests) refused,
          respond_refused port.lock_port requests refused,
        )
        refl

  -- If there is no memory for one of the items, then the port is not used, no requester gets a response, and
  -- so none can free its buffer.
  pub process_group_dropped :
      (requesters : List ℕ) (k : ℕ)
      → k < length (collect_requests prepare requesters)
      → has_room k ≡ false
      → process_group prepare has_room port requesters ≡ ([], [])
  unfolding process_group read_chain_of
  process_group_dropped [] k inside full = refl
  process_group_dropped (r ∷ requesters) k inside full =
      let requests = requests_of (r ∷ requesters) in
      rw
        (build_chain_dropped has_room 0 k requests inside
          (subst (λ m. has_room m ≡ false) (zero_plus k) full))
        (respond_nothing _ requests)
