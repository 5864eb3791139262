-- ===== src/Service/Steps.antt =====
-- What `advance` does to the table of orders, for any request whose `apply` is one write of the
-- order or a refusal that writes nothing.
use over_sync.Prelude.{
  ℕ, ◌≡◌, refl, ◌⊎◌, inl, inr, true, Option, some, arith, Bool-cases, Option-cases, ◌==◌, Text,
}
use over_sync.Status.{OrderStatus, OrderTransitionAction, status_eq}
use over_sync.Machine.{can_transition, target_status, evaluate_transition, TransitionAssessment}
use over_sync.Order.{OrderRow}
use over_sync.Errors.{Action, ◌>>◌, Result, ok, TransitionRejectionInfo}
use over_sync.Store.{Store, find_row, update_where, record_rejected_transition}
use over_sync.Service.{
  AdvanceRequest, persist_rejection, repeat_step, refuse_step, advance_order, advance, count_order,
}

-- A write of the order: it returns, and the table is updated at the order's public id.
abbrev pub Written : Text → (ℕ → OrderRow → OrderRow) → Store → Result (Unit {0}) × Store → Type 0
Written public_id set s (r, s') =
    (r ≡ ok tt) × (s'.orders ≡ update_where public_id (set s.clock) s.orders)

-- Nothing of the table is written.
abbrev pub Untouched : Store → Result (Unit {0}) × Store → Type 0
Untouched s (r, s') = s'.orders ≡ s.orders

evaluate_transition_allowed :
    (from to : OrderStatus) (a : Option OrderTransitionAction)
    → (evaluate_transition from to a).allowed ≡ can_transition from to
unfolding evaluate_transition
evaluate_transition_allowed from to a = ground arith

pub persist_rejection-Untouched :
    (info : TransitionRejectionInfo) (s : Store) → Untouched s (persist_rejection info s)
unfolding persist_rejection record_rejected_transition
persist_rejection-Untouched info s = ground arith

pub repeat_step-Untouched :
    (request : AdvanceRequest) (order : OrderRow) (to : OrderStatus) (s : Store)
    → Untouched s (repeat_step request order to s)
unfolding repeat_step record_rejected_transition
repeat_step-Untouched request order to s = ground arith

pub refuse_step-Untouched :
    (request : AdvanceRequest) (order : OrderRow) (to : OrderStatus) (t : TransitionAssessment)
    (s : Store)
    → Untouched s (refuse_step request order to t s)
unfolding refuse_step record_rejected_transition
refuse_step-Untouched request order to t s = ground arith

count_order-cases :
    {P : Type 0} (public_id : Text) (set : ℕ → OrderRow → OrderRow) (m : Action Store (Unit {0}))
    (status : OrderStatus) (s : Store)
    → Untouched s (m s) ⊎ (P × Written public_id set s (m s))
    → let out = (m >> count_order status) s in Untouched s out ⊎ (P × Written public_id set s out)
count_order-cases public_id set m status s (inl same) = inl (ground arith)
count_order-cases public_id set m status s (inr (p, w)) = inr (p, (ground arith, ground arith))

-- The order was found, the edge to the status is legal, the order passed the writer's own guard, and
-- the write was made.
abbrev pub Advanced :
    Text
    → OrderStatus
    → (OrderRow → Type 0)
    → (ℕ → OrderRow → OrderRow)
    → Store
    → Result (Unit {0}) × Store
    → Type 0
Advanced public_id to Passes set s out =
    (order : OrderRow) × (find_row public_id s.orders ≡ some order)
    × (can_transition order.status to ≡ true)
    × Passes order
    × Written public_id set s out

with_edge {ℓ κ μ ν} :
    {A : Type ℓ} {B : Type κ} {C : Type μ} {D : Type ν} → C → A ⊎ (B × D) → A ⊎ (C × B × D)
with_edge c (inl a) = inl a
with_edge c (inr (b, d)) = inr (c, b, d)

module _ (request : AdvanceRequest) (Passes : OrderRow → Type 0) (set : ℕ → OrderRow → OrderRow)
    (applies : (order : OrderRow) (s : Store)
      → Untouched s (request.apply order s)
        ⊎ (Passes order × Written request.public_id set s (request.apply order s))) where
  abbrev to : OrderStatus
  to = target_status request.action

  advance_order-cases :
      (order : OrderRow) (s : Store)
      → Untouched s (advance_order request order to s)
        ⊎ ((can_transition order.status to ≡ true)
            × Passes order
            × Written request.public_id set s (advance_order request order to s))
  unfolding advance_order
  advance_order-cases order s = elim (Bool-cases (order.status == to)) [
    | inl there ↦ inl (rw there (repeat_step-Untouched request order to s))
    | inr elsewhere ↦ elim (Bool-cases (can_transition order.status to)) [
      | inl legal ↦
          rw (elsewhere, evaluate_transition_allowed order.status to (some request.action), legal)
            (with_edge refl (
              count_order-cases request.public_id set (request.apply order) to s (applies order s)))
      | inr illegal ↦ inl (
          rw (elsewhere, evaluate_transition_allowed order.status to (some request.action), illegal)
            (refuse_step-Untouched request order to _ s))
    ]
  ]

  -- A call of `advance` leaves the table as it was, or it finds the order, the state machine has the
  -- edge from its status, and it makes the one write and returns.
  pub advance-cases :
      (s : Store)
      → Untouched s (advance request s)
        ⊎ Advanced request.public_id to Passes set s (advance request s)
  unfolding advance
  advance-cases s = elim (Option-cases (find_row request.public_id s.orders)) [
    | inl unknown ↦ inl (ground arith)
    | inr (order, found) ↦ rw found (elim (advance_order-cases order s) [
      | inl same ↦ inl same
      | inr (legal, passes, w) ↦ inr (order, refl, legal, passes, w)
    ])
  ]
