-- ===== src/ReadRequest/Induction.antt =====
-- Induction on the rounds of the loop of `sendRequestToPlc` in s7nodaveApp/src/PortDriver.cc.
use s7nodave.Prelude.{ℕ, zero, suc, ◌≡◌, Option, some, some_inj, subst}
use s7nodave.ReadRequest.{Client, Sending, Sent, Step, going, finished, step, send_loop}

-- A round ends the loop with a property of the result, or keeps an invariant.
pub data After (I : Sending → Type 0) (Q : Sent → Type 0) : Step → Type 0 where
  ended : {r : Sent} → Q r → After I Q (finished r)
  kept : {s : Sending} → I s → After I Q (going s)

module _ (client : Client) (pdu_length : ℕ) (I : Sending → Type 0) (Q : Sent → Type 0)
    (round : (s : Sending) → I s → After I Q (step client pdu_length s)) where
  -- What every round keeps holds of the result.
  pub send_loop-After :
      (fuel : ℕ) (s : Sending) {r : Sent} → I s → send_loop client pdu_length fuel s ≡ some r → Q r
  unfolding send_loop
  send_loop-After zero s i e = cc
  send_loop-After (suc fuel) s {r} i e =
      next (step client pdu_length s) (round s i) (λ s' i' e'. send_loop-After fuel s' i' e') e
    where
      next :
          (o : Step)
          → After I Q o
          → ((s' : Sending) → I s' → send_loop client pdu_length fuel s' ≡ some r → Q r)
          → (elim o as (λ _. Option Sent) [
            | finished q ↦ some q
            | going s' ↦ send_loop client pdu_length fuel s'
          ]
              ≡ some r)
          → Q r
      next (finished q) (ended holds) later e' = subst Q (some_inj e') holds
      next (going s') (kept i') later e' = later s' i' e'
