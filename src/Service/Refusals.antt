-- ===== src/Service/Refusals.antt =====
-- What the service answers when it does not write, and what it logs then.
use over_sync.Prelude.{◌+◌, ◌≡◌, refl, ◌≢◌, true, false, some, [], ◌∷◌, ◌++◌, arith, ◌==◌, text_eq}
use over_sync.Status.{
  OrderStatus, OrderTransitionAction, OrderFailureCode, status_eq, status_beq_iff, repeated_step,
  conflicting_step, escrow, secret_relay, secret, claim, refund, fail, expire,
}
use over_sync.Machine.{
  can_transition, target_status, evaluate_transition, describe_transition_failure,
  classify_illegal_transition,
}
use over_sync.Machine.Classify.{reason_of_refusal, classify_illegal_transition-reason_of_refusal}
use over_sync.Machine.Table.{target_of}
use over_sync.Order.{OrderRow}
use over_sync.Errors.{ok, err, rejected, TransitionRejectionInfo}
use over_sync.Store.{
  Store, find_row, find_by_public_id, record_rejected_transition, insert_event, transition_rejected,
}
use over_sync.Service.{
  AdvanceRequest, persist_rejection, reject_transition, rejection, is_redelivery, repeat_step,
  refuse_step, advance_order, advance_found, advance,
}

-- The store once a refusal is logged: one event of the order and one count more, nothing else.
abbrev pub logged : OrderRow → TransitionRejectionInfo → Store → Store
logged order info s = record s {
  order_events =
      s.order_events
      ++ record {
        id = s.next_event_id;
        order_id = order.id;
        payload = transition_rejected info;
        created_at = s.clock;
      }
        ∷ [];
  next_event_id = s.next_event_id + 1;
  illegal_order_transitions = info.code ∷ s.illegal_order_transitions;
}

persist_rejection-logged :
    (info : TransitionRejectionInfo) (order : OrderRow) (s : Store)
    → find_row info.public_id s.orders ≡ some order
    → persist_rejection info s ≡ (ok tt, logged order info s)
unfolding persist_rejection record_rejected_transition find_by_public_id insert_event
persist_rejection-logged info order s found = ground arith

reject_transition-logged :
    (info : TransitionRejectionInfo) (order : OrderRow) (s : Store)
    → find_row info.public_id s.orders ≡ some order
    → reject_transition info s ≡ (err (rejected info), logged order info s)
unfolding reject_transition
reject_transition-logged info order s found =
    ground (arith, persist_rejection-logged info order s found)

target_status-target_of : (a : OrderTransitionAction) → target_status a ≡ target_of a
unfolding target_status
target_status-target_of escrow = refl
target_status-target_of secret_relay = refl
target_status-target_of secret = refl
target_status-target_of claim = refl
target_status-target_of refund = refl
target_status-target_of fail = refl
target_status-target_of expire = refl

refusal_code :
    (from : OrderStatus) (a : OrderTransitionAction)
    → from ≢ target_status a
    → can_transition from (target_status a) ≡ false
    → classify_illegal_transition from (target_status a) (some a) ≡ reason_of_refusal a from
refusal_code from a n r = rw (target_status-target_of a) (
    classify_illegal_transition-reason_of_refusal from a (rw (target_status-target_of a) at r)
      (rw (target_status-target_of a) at n))

module _ (request : AdvanceRequest) (order : OrderRow) (s : Store)
    (found : find_row request.public_id s.orders ≡ some order) where
  abbrev to : OrderStatus
  to = target_status request.action

  advance_repeated :
      order.status ≡ to
      → is_redelivery request.is_same_step order ≡ true
      → let info =
          rejection request order to repeated_step
            (describe_transition_failure repeated_step order.status to) in
        advance request s ≡ (ok tt, logged order info s)
  unfolding advance advance_found advance_order repeat_step find_by_public_id
  advance_repeated there same =
      rw (found, (status_beq_iff order.status to).1 there, same)
        (persist_rejection-logged _ order s found)

  advance_conflicting :
      order.status ≡ to
      → is_redelivery request.is_same_step order ≡ false
      → let info =
          rejection request order to conflicting_step
            (describe_transition_failure conflicting_step order.status to) in
        advance request s ≡ (err (rejected info), logged order info s)
  unfolding advance advance_found advance_order repeat_step find_by_public_id
  advance_conflicting there other =
      rw (found, (status_beq_iff order.status to).1 there, other)
        (reject_transition-logged _ order s found)

  advance_illegal :
      order.status ≢ to
      → can_transition order.status to ≡ false
      → let code = reason_of_refusal request.action order.status in
        let info =
          rejection request order to code (describe_transition_failure code order.status to) in
        advance request s ≡ (err (rejected info), logged order info s)
  unfolding advance advance_found advance_order refuse_step evaluate_transition find_by_public_id
  advance_illegal elsewhere illegal =
      rw (found, elsewhere_beq, illegal, refusal_code order.status request.action elsewhere illegal)
        (reject_transition-logged _ order s found)
    where
      elsewhere_beq : (order.status == to) ≡ false
      elsewhere_beq = ground (arith, status_beq_iff order.status to)

-- What `advance` logs and answers for a refusal with this code.
abbrev pub refused_as : OrderFailureCode → AdvanceRequest → OrderRow → TransitionRejectionInfo
refused_as code request order =
    let to = target_status request.action in
    rejection request order to code (describe_transition_failure code order.status to)

-- What `advance` does with a known order that it does not move. If the order is already in the
-- target status, a request with the same facts succeeds and is logged as a repeated step, and one
-- with other facts is rejected as a conflicting step; if the state machine has no edge to the target
-- status, the request is rejected with the code that the lifecycle gives as the reason. In all three
-- cases the store gains one event of that order and one count, with that code, and nothing else.
pub advance-logged :
    (request : AdvanceRequest) (order : OrderRow) (s : Store)
    → find_row request.public_id s.orders ≡ some order
    → let to = target_status request.action in
      let repeated = refused_as repeated_step request order in
      let conflicting = refused_as conflicting_step request order in
      let illegal = refused_as (reason_of_refusal request.action order.status) request order in
      (order.status ≡ to
        → is_redelivery request.is_same_step order ≡ true
        → advance request s ≡ (ok tt, logged order repeated s))
      × (order.status ≡ to
          → is_redelivery request.is_same_step order ≡ false
          → advance request s ≡ (err (rejected conflicting), logged order conflicting s))
      × (order.status ≢ to
          → can_transition order.status to ≡ false
          → advance request s ≡ (err (rejected illegal), logged order illegal s))
advance-logged request order s found = (
  advance_repeated request order s found,
  advance_conflicting request order s found,
  advance_illegal request order s found,
)
