-- ===== src/ChainEvents/Frame.antt =====
-- The settlement events that were processed stay processed, whatever the order service, the secret
-- service and the event processor of coordinator/src/services do.
pub mod Events
use over_sync.Prelude.{
  ℕ, ◌≡◌, refl, ap, inl, inr, Bool, true, false, Option, none, some, List, [], ◌∷◌, ◌++◌, arith,
  Bool-cases, ◌==◌, if◌then◌else◌, Text, to_lower_case,
}
use over_sync.Status.{
  OrderStatus, completed, refunded, status_eq, OrderTransitionAction, claim, refund,
}
use over_sync.Machine.{target_status, action_for_status, evaluate_transition, TransitionAssessment}
use over_sync.Order.{OrderRow}
use over_sync.Errors.{
  Result, ok, err, ServiceError, Action, bind_ok, bind_err, pure, throw, preimage_reused, ◌>>=◌,
  ◌>>◌, TransitionRejectionInfo,
}
use over_sync.Store
use over_sync.Store.{
  Store, write_order, find_by_public_id, find_by_preimage, set_status, record_secret_revealed,
  record_rejected_transition, insert_event,
}
use over_sync.Service.{
  AdvanceRequest, advance, advance_found, advance_order, repeat_step, refuse_step,
  reject_transition, persist_rejection, assert_timelocks_at_creation, record_src_lock,
  record_dst_lock, record_secret, record_claim, record_refund, mark_status, count_order,
  src_lock_request, dst_lock_request, secret_request, settle_request, mark_request,
}
use over_sync.Service.Commands.{Command, execute}
use over_sync.Secrets.{
  is_valid_secret_format, reveal_new, reveal_matched, reveal_checked, reveal_found, reveal,
}

-- An operation that leaves the processed events as they are.
abbrev pub Keeps : {A : Type 0} → Action Store A → Type 0
Keeps m = (s : Store) → (m s).1.processed_events ≡ s.processed_events

module _ {A B : Type 0} (m : Action Store A) (k : A → Action Store B) where
  pub bind-Keeps : Keeps m → ((a : A) → Keeps (k a)) → Keeps (m >>= k)
  bind-Keeps h g s = split (m s) refl
    where
      split :
          (out : Result A × Store)
          → m s ≡ out
          → ((m >>= k) s).1.processed_events ≡ s.processed_events
      split (ok a, s') e = rw (bind_ok m k s s' a e) (rw (g a s', ← h s, e) refl)
      split (err x, s') e = rw (bind_err m k s s' x e) (rw (← h s, e) refl)

pub if-Keeps :
    {A : Type 0} (b : Bool) (m k : Action Store A) → Keeps m → Keeps k → Keeps (if b then m else k)
if-Keeps true m k h g = h
if-Keeps false m k h g = g

write_order-Keeps :
    (id : Text) (set : ℕ → OrderRow → OrderRow) (to : OrderStatus) (tx : Option Text)
    (category : Text)
    → Keeps (write_order id set to tx category)
unfolding write_order
write_order-Keeps id set to tx category s = ground arith

persist_rejection-Keeps : (info : TransitionRejectionInfo) → Keeps (persist_rejection info)
unfolding persist_rejection record_rejected_transition
persist_rejection-Keeps info s = ground arith

repeat_step-Keeps :
    (request : AdvanceRequest) (order : OrderRow) (to : OrderStatus)
    → Keeps (repeat_step request order to)
unfolding repeat_step record_rejected_transition
repeat_step-Keeps request order to s = ground arith

refuse_step-Keeps :
    (request : AdvanceRequest) (order : OrderRow) (to : OrderStatus) (t : TransitionAssessment)
    → Keeps (refuse_step request order to t)
unfolding refuse_step record_rejected_transition
refuse_step-Keeps request order to t s = ground arith

-- A request whose own write keeps them.
abbrev Applies : AdvanceRequest → Type 0
Applies request = (order : OrderRow) → Keeps (request.apply order)

advance_order-Keeps :
    (request : AdvanceRequest) (order : OrderRow) (to : OrderStatus)
    → Applies request
    → Keeps (advance_order request order to)
unfolding advance_order
advance_order-Keeps request order to applies =
    if-Keeps (order.status == to) (repeat_step request order to) _
      (repeat_step-Keeps request order to)
      (if-Keeps (evaluate_transition order.status to (some request.action)).allowed
        (request.apply order >> count_order to) _
        (bind-Keeps (request.apply order) (λ _. count_order to) (applies order) (λ _ s. refl))
        (refuse_step-Keeps request order to _))

advance_found-Keeps :
    (request : AdvanceRequest) (found : Option OrderRow)
    → Applies request
    → Keeps (advance_found request found)
unfolding advance_found
advance_found-Keeps request none applies s = refl
advance_found-Keeps request (some order) applies s =
    advance_order-Keeps request order (target_status request.action) applies s

advance-Keeps : (request : AdvanceRequest) → Applies request → Keeps (advance request)
unfolding advance find_by_public_id
advance-Keeps request applies =
    bind-Keeps (find_by_public_id request.public_id) (advance_found request) (λ s. refl)
      (λ found. advance_found-Keeps request found applies)

assert_timelocks-Keeps :
    (src dst min_gap : ℕ) → Keeps (assert_timelocks_at_creation src dst min_gap)
unfolding assert_timelocks_at_creation
assert_timelocks-Keeps src dst min_gap s = ground arith

src_guard-Keeps :
    (min_gap src : ℕ) (dst : Option ℕ)
    → Keeps (elim dst [ none ↦ pure tt | some d ↦ assert_timelocks_at_creation src d min_gap ])
src_guard-Keeps min_gap src none s = refl
src_guard-Keeps min_gap src (some dst) s = assert_timelocks-Keeps src dst min_gap s

dst_guard-Keeps :
    (min_gap dst : ℕ) (src : Option ℕ)
    → Keeps (elim src [ none ↦ pure tt | some s ↦ assert_timelocks_at_creation s dst min_gap ])
dst_guard-Keeps min_gap dst none s = refl
dst_guard-Keeps min_gap dst (some src) s = assert_timelocks-Keeps src dst min_gap s

mark-Keeps :
    (id : Text) (status : OrderStatus) (writer : Option Text) → Keeps (mark_status id status writer)
unfolding mark_status set_status
mark-Keeps id status writer = split (action_for_status status) refl
  where
    split :
        (a : Option OrderTransitionAction)
        → action_for_status status ≡ a
        → Keeps (mark_status id status writer)
    split none e s = rw (e, mark_status) refl
    split (some action) e s =
        rw (e, mark_status)
          (advance-Keeps (mark_request id status action writer)
            (λ order. write_order-Keeps id _ _ _ _) s)

pub execute-Keeps : (min_gap : ℕ) (c : Command) → Keeps (execute min_gap c)
unfolding execute record_src_lock record_dst_lock record_secret record_claim record_refund
    set_status Store.record_src_lock Store.record_dst_lock record_secret_revealed
execute-Keeps min_gap (Command.src_lock input writer) =
    advance-Keeps (src_lock_request min_gap input writer) (λ order.
      bind-Keeps _ (λ _. Store.record_src_lock input)
        (src_guard-Keeps min_gap input.timelock order.dst_timelock)
        (λ _. write_order-Keeps input.public_id _ _ _ _))
execute-Keeps min_gap (Command.dst_lock input resolver writer) =
    advance-Keeps (dst_lock_request min_gap input resolver writer) (λ order.
      bind-Keeps _ (λ _. Store.record_dst_lock input resolver)
        (dst_guard-Keeps min_gap input.timelock order.src_timelock)
        (λ _. write_order-Keeps input.public_id _ _ _ _))
execute-Keeps min_gap (Command.reveal id preimage tx_hash writer) =
    advance-Keeps (secret_request id preimage tx_hash writer)
      (λ order. write_order-Keeps id _ _ _ _)
execute-Keeps min_gap (Command.settle id tx_hash writer) =
    advance-Keeps (settle_request claim completed id tx_hash writer)
      (λ order. write_order-Keeps id _ _ _ _)
execute-Keeps min_gap (Command.give_back id tx_hash writer) =
    advance-Keeps (settle_request refund refunded id tx_hash writer)
      (λ order. write_order-Keeps id _ _ _ _)
execute-Keeps min_gap (Command.mark id status writer) = mark-Keeps id status writer

-- The secret service writes through the order service only.
module _ (sha256 : List ℕ → Text) (now : ℕ) where
  record_secret-Keeps :
      (id preimage tx_hash : Text) (writer : Option Text)
      → Keeps (record_secret id preimage tx_hash writer)
  unfolding execute
  record_secret-Keeps id preimage tx_hash writer =
      execute-Keeps 0 (Command.reveal id preimage tx_hash writer)

  reveal_new-Keeps :
      (canonical tx_hash : Text) (order : OrderRow) (existing : Option OrderRow)
      → Keeps (reveal_new sha256 now canonical tx_hash order existing)
  reveal_new-Keeps canonical tx_hash order existing =
      if-Keeps _ (throw preimage_reused) _ (λ s. refl)
        (if-Keeps _ (record_secret order.public_id canonical tx_hash none) _
          (record_secret-Keeps order.public_id canonical tx_hash none) (λ s. refl))

  reveal_matched-Keeps :
      (canonical tx_hash : Text) (order : OrderRow) (stored : Option Text)
      → Keeps (reveal_matched sha256 now canonical tx_hash order stored)
  unfolding find_by_preimage
  reveal_matched-Keeps canonical tx_hash order (some p) s = ground arith
  reveal_matched-Keeps canonical tx_hash order none s =
      bind-Keeps (find_by_preimage canonical) (reveal_new sha256 now canonical tx_hash order)
        (λ _. refl) (reveal_new-Keeps canonical tx_hash order) s

  reveal_checked-Keeps :
      (canonical tx_hash : Text) (order : OrderRow) (matched : Option Bool)
      → Keeps (reveal_checked sha256 now canonical tx_hash order matched)
  reveal_checked-Keeps canonical tx_hash order none s = refl
  reveal_checked-Keeps canonical tx_hash order (some false) s = refl
  reveal_checked-Keeps canonical tx_hash order (some true) s =
      reveal_matched-Keeps canonical tx_hash order order.preimage s

  reveal_found-Keeps :
      (public_id canonical tx_hash : Text) (found : Option OrderRow)
      → Keeps (reveal_found sha256 now public_id canonical tx_hash found)
  reveal_found-Keeps public_id canonical tx_hash none s = refl
  reveal_found-Keeps public_id canonical tx_hash (some order) s =
      reveal_checked-Keeps canonical tx_hash order _ s

  pub reveal-Keeps :
      (public_id preimage tx_hash : Text) → Keeps (reveal sha256 now public_id preimage tx_hash)
  unfolding reveal find_by_public_id
  reveal-Keeps public_id preimage tx_hash =
      if-Keeps (is_valid_secret_format preimage) _ _
        (bind-Keeps (find_by_public_id public_id)
          (reveal_found sha256 now public_id (to_lower_case preimage) tx_hash) (λ s. refl)
          (reveal_found-Keeps public_id (to_lower_case preimage) tx_hash))
        (λ s. refl)
