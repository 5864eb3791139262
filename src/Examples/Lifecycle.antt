-- ===== src/Examples/Lifecycle.antt =====
-- The state machine and the timelocks.
use over_sync.Prelude.{◌+◌, ◌≤◌, ◌<◌, ◌≡◌, refl, ◌↔◌, true, some, List, [], ◌∷◌, arith, includes}
use over_sync.Status.{
  OrderStatus, announced, src_locked, dst_locked, secret_revealed, completed, expired, refunded,
  escrow, late_step, status_eq,
}
use over_sync.Machine
use over_sync.Machine.{
  can_transition, is_terminal, classify_illegal_transition, evaluate_transition, require_transition,
  action_for_status, describe_transition_failure, InvalidTransitionError,
}
use over_sync.Machine.Table.{legal_by_index, can_transition-legal_sources_for}
use over_sync.Machine.Classify.{classify_illegal_transition-reason_of_refusal}
use over_sync.Machine.Reach.{
  Run, stay, move, completed-secret_revealed, settlements, is_settlement, settled_once,
}
use over_sync.Timelock.{
  validate_timelock_ordering, evaluate_secret_window, src_timelock_expired, dst_timelock_expired,
}
use over_sync.Timelock.Safety.{secret_window_leaves_gap}
use over_sync.Sdk.StateMachine
use over_sync.Sdk.StateMachine.{sdk_agrees, thrown_pair, next_states_of}
use over_sync.Sdk.RefundTimeline
use over_sync.Sdk.RefundTimeline.{
  RefundTimelineInput, simulate_refund_timeline,
  simulate_refund_timeline-evaluate_refund_eligibility, simulated_state_forwards, waiting,
  claimable, refundable,
}

abbrev path : List OrderStatus
path = src_locked ∷ dst_locked ∷ secret_revealed ∷ completed ∷ []

life : Run announced path completed
unfolding can_transition
life = move refl (move refl (move refl (move refl stay)))

completed-secret_revealed_example : includes (announced ∷ path) secret_revealed ≡ true
completed-secret_revealed_example = completed-secret_revealed life (λ e. ground arith)

settled_once_example :
    (settlements (announced ∷ path) ≤ 1) × (is_settlement announced ≡ true → path ≡ [])
settled_once_example = settled_once life

can_transition-legal_sources_for_example :
    can_transition expired refunded ≡ legal_by_index expired (action_for_status refunded)
can_transition-legal_sources_for_example = can_transition-legal_sources_for expired refunded

classify_illegal_transition-reason_of_refusal_example :
    classify_illegal_transition completed src_locked (some escrow) ≡ late_step
unfolding can_transition
classify_illegal_transition-reason_of_refusal_example =
    classify_illegal_transition-reason_of_refusal completed escrow refl (λ e. ground arith)

sdk_agrees_example :
    (next_states_of expired ≡ Machine.transitions expired)
    × (StateMachine.can_transition expired refunded ≡ Machine.can_transition expired refunded)
    × (StateMachine.is_terminal expired ≡ Machine.is_terminal expired)
    × (StateMachine.require_transition expired refunded
        ≡ thrown_pair
            (Machine.require_transition expired refunded (Machine.action_for_status refunded)))
sdk_agrees_example = sdk_agrees expired refunded

secret_window_leaves_gap_example :
    let w = evaluate_secret_window (some 5000) (some 3000) 2900 in
    (w.is_open ≡ true → 2900 + 600 ≤ 5000)
    × ((w.error ≡ some dst_timelock_expired) ↔ ((3000 < 2900) × (2900 ≤ 5000)))
    × ((w.error ≡ some src_timelock_expired) ↔ (5000 < 2900))
unfolding validate_timelock_ordering
secret_window_leaves_gap_example = secret_window_leaves_gap 5000 3000 600 2900 (omega arith) refl

abbrev timeline : RefundTimelineInput
timeline = record {
  direction = RefundTimeline.eth_to_xlm;
  source_timelock = 5000;
  destination_timelock = 3000;
  source_lock_observed = true;
  destination_lock_observed = true;
}
