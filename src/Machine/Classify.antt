-- ===== src/Machine/Classify.antt =====
-- The codes of refused transitions.
use over_sync.Prelude.{◌≡◌, ◌≢◌, ◌↔◌, inl, inr, true, false, some, none, Option, arith, Bool-cases}
use over_sync.Status.{
  OrderStatus, announced, secret_revealed, completed, OrderTransitionAction, escrow, secret_relay,
  secret, claim, refund, fail, expire, OrderFailureCode, secret_before_escrow,
  secret_relay_before_escrow, claim_before_secret, refund_after_claim, late_step, already_settled,
  not_allowed,
}
use over_sync.Machine.{
  can_transition, classify_illegal_transition, evaluate_transition, require_transition,
  describe_transition_failure, action_for_status, InvalidTransitionError,
}
use over_sync.Machine.Table.{target_of, legal_by_index, can_transition-legal_sources_for}

-- The code of an action that is refused at a status other than its target, by the action. A claim has
-- one code wherever it is refused, also after a refund; a lock or reveal that is late has one code,
-- also when the order is settled.
abbrev pub reason_of_refusal : OrderTransitionAction → OrderStatus → OrderFailureCode
reason_of_refusal claim from = claim_before_secret
reason_of_refusal escrow from = late_step
reason_of_refusal secret announced = secret_before_escrow
reason_of_refusal secret from = late_step
reason_of_refusal secret_relay announced = secret_relay_before_escrow
reason_of_refusal secret_relay from = late_step
reason_of_refusal refund completed = refund_after_claim
reason_of_refusal refund announced = not_allowed
reason_of_refusal refund from = already_settled
reason_of_refusal fail from = already_settled
reason_of_refusal expire secret_revealed = not_allowed
reason_of_refusal expire from = already_settled

-- At every status where an action is refused and that is not the action's target, the code is the one
-- of the table: a claim is before the secret, also at a refunded or failed order; a reveal or a
-- destination lock of an announced order is before the escrow; every other lock or reveal is a late
-- step, also at a settled order; a refund after the claim is that; a refund of an announced order and
-- an expiry after the reveal are not allowed; and every other refund, expiry or failure finds the order
-- already settled.
pub classify_illegal_transition-reason_of_refusal :
    (from : OrderStatus) (a : OrderTransitionAction)
    → can_transition from (target_of a) ≡ false
    → from ≢ target_of a
    → classify_illegal_transition from (target_of a) (some a) ≡ reason_of_refusal a from
unfolding can_transition classify_illegal_transition
classify_illegal_transition-reason_of_refusal announced escrow r n = ground arith
classify_illegal_transition-reason_of_refusal _ _ r n = ground arith

-- `evaluateTransition` and `requireTransition` agree: a step is allowed, with no code, exactly where
-- nothing is thrown, which is where the action index has the edge; and the code and the reason of a
-- refused step are those of the error that is thrown, which names the two statuses.
pub evaluate_transition-require_transition :
    (from to : OrderStatus) (a : Option OrderTransitionAction)
    → let t = evaluate_transition from to a in
      (t.allowed ≡ legal_by_index from (action_for_status to))
      × ((t.allowed ≡ true) ↔ (require_transition from to a ≡ none))
      × ((t.allowed ≡ true) ↔ (t.code ≡ none))
      × ((e : InvalidTransitionError)
          → require_transition from to a ≡ some e
          → (t.code ≡ some e.code)
            × (t.reason ≡ some e.message)
            × (e.from ≡ from)
            × (e.to ≡ to)
            × (e.message ≡ describe_transition_failure e.code from to))
unfolding evaluate_transition require_transition
evaluate_transition-require_transition from to a = elim (Bool-cases (can_transition from to)) [
  | inl y ↦ ground (arith, can_transition-legal_sources_for from to)
  | inr n ↦ ground (arith, can_transition-legal_sources_for from to)
]
