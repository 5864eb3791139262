-- ===== src/Service.antt =====
-- The writers of an order, coordinator/src/services/order-service.ts: `advance` and the methods that
-- call it, and `buildClaim`. A method is taken to run to its end before the next one
-- starts: interleavings of two calls are not modelled. `min_gap` is the setting
-- `timelockSafetyGapSeconds`.
pub mod Steps
pub mod Commands
pub mod Moves
pub mod Invariants
pub mod Refusals
pub mod Repeats
use over_sync.Prelude.{
  ℕ, ◌≡◌, Bool, true, false, ◌&&◌, Option, none, some, List, [], ◌∷◌, ◌++◌, ◌==◌, nat_eq,
  if◌then◌else◌, Text, text, text_eq, option_eq, to_lower_case,
}
use over_sync.Status.{
  OrderStatus, dst_locked, completed, refunded, status_eq, OrderTransitionAction, escrow,
  secret_relay, secret, claim, refund, OrderFailureCode, repeated_step, conflicting_step,
  not_allowed,
}
use over_sync.Machine.{
  target_status, action_for_status, describe_transition_failure, TransitionAssessment,
  evaluate_transition,
}
use over_sync.Timelock.{validate_timelocks_at_creation}
use over_sync.Order.{OrderRow, LockInput}
use over_sync.Errors.{
  TransitionRejectionInfo, ServiceError, unknown_order, not_a_target, timelock, not_dst_locked,
  inactive_resolver, rejected, Action, pure, throw, modify, ◌>>=◌, ◌>>◌, ok, err,
}
use over_sync.Store
use over_sync.Store.{
  Store, find_by_public_id, record_rejected_transition, set_status, record_secret_revealed,
}

-- `ORDER_SERVICE_WRITER`
abbrev pub order_service_writer : Text
order_service_writer = text "order-service"

-- `value ?? fallback`
abbrev pub or_else {ℓ} : {A : Type ℓ} → Option A → A → A
or_else none fallback = fallback
or_else (some value) fallback = value

-- `assertTimelocksAtCreation`
unfoldable pub assert_timelocks_at_creation : ℕ → ℕ → ℕ → Action Store (Unit {0})
unfolding validate_timelocks_at_creation
assert_timelocks_at_creation src dst min_gap =
    elim (validate_timelocks_at_creation src dst min_gap).error [
      | none ↦ pure tt
      | some error ↦ throw (timelock error)
    ]

pub record AdvanceRequest : Type 0 where
  pub public_id : Text
  pub action : OrderTransitionAction
  pub tx_hash : Option Text
  pub writer : Option Text
  pub is_same_step : Option (OrderRow → Bool)
  pub apply : OrderRow → Action Store (Unit {0})

-- `illegalOrderTransitions.inc({ code })` and `ordersTotal.inc({ status })`
abbrev pub count_illegal : OrderFailureCode → Action Store (Unit {0})
count_illegal code =
    modify (λ s. record s { illegal_order_transitions = code ∷ s.illegal_order_transitions })

abbrev pub count_order : OrderStatus → Action Store (Unit {0})
count_order status = modify (λ s. record s { orders_total = status ∷ s.orders_total })

unfoldable pub persist_rejection : TransitionRejectionInfo → Action Store (Unit {0})
persist_rejection info = do record_rejected_transition info; count_illegal info.code

unfoldable pub reject_transition : TransitionRejectionInfo → Action Store (Unit {0})
unfolding persist_rejection
reject_transition info = do persist_rejection info; throw (rejected info)

-- The event info of a refusal: the writer is the service itself if none is named.
abbrev pub rejection :
    AdvanceRequest → OrderRow → OrderStatus → OrderFailureCode → Text → TransitionRejectionInfo
rejection request order to code reason = record {
  public_id = request.public_id;
  from = order.status;
  to = to;
  action = request.action;
  code = code;
  reason = reason;
  writer = or_else request.writer order_service_writer;
  tx_hash = request.tx_hash;
}

-- `request.isSameStep ? request.isSameStep(order) : true`
abbrev pub is_redelivery : Option (OrderRow → Bool) → OrderRow → Bool
is_redelivery none order = true
is_redelivery (some same) order = same order

-- The branch of `advance` where the order is already in the target status.
unfoldable pub repeat_step : AdvanceRequest → OrderRow → OrderStatus → Action Store (Unit {0})
unfolding persist_rejection reject_transition
repeat_step request order to =
    let redelivery = is_redelivery request.is_same_step order in
    let code = if redelivery then repeated_step else conflicting_step in
    let info = rejection request order to code (describe_transition_failure code order.status to) in
    if redelivery then persist_rejection info else reject_transition info

-- The branch where the state machine refuses the edge.
unfoldable pub refuse_step :
    AdvanceRequest → OrderRow → OrderStatus → TransitionAssessment → Action Store (Unit {0})
unfolding reject_transition
refuse_step request order to assessment = reject_transition (
    rejection request order to (or_else assessment.code not_allowed)
      (or_else assessment.reason (describe_transition_failure not_allowed order.status to)))

-- `advance`, once the order is loaded.
unfoldable pub advance_order : AdvanceRequest → OrderRow → OrderStatus → Action Store (Unit {0})
advance_order request order to =
    let assessment = evaluate_transition order.status to (some request.action) in
    if order.status == to
    then repeat_step request order to
    else if assessment.allowed
    then (do request.apply order; count_order to)
    else refuse_step request order to assessment

unfoldable pub advance_found : AdvanceRequest → Option OrderRow → Action Store (Unit {0})
advance_found request none = throw (unknown_order request.public_id)
advance_found request (some order) = advance_order request order (target_status request.action)

unfoldable pub advance : AdvanceRequest → Action Store (Unit {0})
unfolding find_by_public_id advance_found
advance request = do found ← find_by_public_id request.public_id; advance_found request found

-- The requests that the methods pass to `advance`.
abbrev pub src_lock_request : ℕ → LockInput → Option Text → AdvanceRequest
src_lock_request min_gap input writer = record {
  public_id = input.public_id;
  action = escrow;
  tx_hash = some input.tx_hash;
  writer = writer;
  is_same_step = some λ order.
      order.src_order_id == some input.order_id
      && order.src_lock_tx == some input.tx_hash
      && order.src_lock_block == some input.block_number
      && order.src_timelock == some input.timelock;
  apply = λ order. do
    elim order.dst_timelock [
      | none ↦ pure tt
      | some dst ↦ assert_timelocks_at_creation input.timelock dst min_gap
    ]
    Store.record_src_lock input;
}

unfoldable pub record_src_lock : ℕ → LockInput → Option Text → Action Store (Unit {0})
unfolding advance
record_src_lock min_gap input writer = advance (src_lock_request min_gap input writer)

abbrev pub dst_lock_request : ℕ → LockInput → Option Text → Option Text → AdvanceRequest
dst_lock_request min_gap input resolver writer = record {
  public_id = input.public_id;
  action = secret_relay;
  tx_hash = some input.tx_hash;
  writer = writer;
  is_same_step = some λ order.
      order.dst_order_id == some input.order_id
      && order.dst_lock_tx == some input.tx_hash
      && order.dst_lock_block == some input.block_number
      && order.dst_timelock == some input.timelock
      && order.resolver_address == resolver;
  apply = λ order. do
    elim order.src_timelock [
      | none ↦ pure tt
      | some src ↦ assert_timelocks_at_creation src input.timelock min_gap
    ]
    Store.record_dst_lock input resolver;
}

unfoldable pub record_dst_lock : ℕ → LockInput → Option Text → Option Text → Action Store (Unit {0})
unfolding advance
record_dst_lock min_gap input resolver writer =
    advance (dst_lock_request min_gap input resolver writer)

abbrev pub secret_request : Text → Text → Text → Option Text → AdvanceRequest
secret_request public_id preimage tx_hash writer = record {
  public_id = public_id;
  action = secret;
  tx_hash = some tx_hash;
  writer = writer;
  is_same_step = some λ order. order.preimage == some (to_lower_case preimage);
  apply = λ order. record_secret_revealed public_id (to_lower_case preimage) tx_hash;
}

unfoldable pub record_secret : Text → Text → Text → Option Text → Action Store (Unit {0})
unfolding advance
record_secret public_id preimage tx_hash writer =
    advance (secret_request public_id preimage tx_hash writer)

-- `recordClaim` and `recordRefund` pass the same request but for the action and the status.
abbrev pub settle_request :
    OrderTransitionAction → OrderStatus → Text → Text → Option Text → AdvanceRequest
settle_request action status public_id tx_hash writer = record {
  public_id = public_id;
  action = action;
  tx_hash = some tx_hash;
  writer = writer;
  is_same_step = some λ order. true;
  apply = λ order. set_status public_id status (some tx_hash);
}

unfoldable pub record_claim : Text → Text → Option Text → Action Store (Unit {0})
unfolding advance
record_claim public_id tx_hash writer =
    advance (settle_request claim completed public_id tx_hash writer)

unfoldable pub record_refund : Text → Text → Option Text → Action Store (Unit {0})
unfolding advance
record_refund public_id tx_hash writer =
    advance (settle_request refund refunded public_id tx_hash writer)

abbrev pub mark_request : Text → OrderStatus → OrderTransitionAction → Option Text → AdvanceRequest
mark_request public_id status action writer = record {
  public_id = public_id;
  action = action;
  tx_hash = none;
  writer = writer;
  is_same_step = none;
  apply = λ order. set_status public_id status none;
}

unfoldable pub mark_status : Text → OrderStatus → Option Text → Action Store (Unit {0})
unfolding advance
mark_status public_id status writer = elim (action_for_status status) [
  | none ↦ throw (not_a_target status)
  | some action ↦ advance (mark_request public_id status action writer)
]

-- `buildClaim`; `registry` is the optional port, whose `isActive` answers for an address.
unfoldable pub build_claim : Option (Text → Bool) → Text → Text → Action Store OrderRow
unfolding find_by_public_id
build_claim registry order_id resolver = do
  found ← find_by_public_id order_id
  elim found [
    | none ↦ throw (unknown_order order_id)
    | some order ↦
        if order.status == dst_locked
        then elim registry [
          | none ↦ pure order
          | some is_active ↦
              if is_active resolver then pure order else throw (inactive_resolver resolver)
        ]
        else throw (not_dst_locked order_id order.status)
  ]
