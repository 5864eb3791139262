-- ===== src/Service/Repeats.antt =====
-- A command that is delivered again.
pub mod Requests
use over_sync.Prelude.{
  ℕ, ◌≡◌, refl, inl, inr, true, false, Option, none, some, arith, Bool-cases, Option-cases, ◌==◌,
  Text, text, text_eq, text_beq_iff, option_eq, to_lower_case, ==_refl, nat_eq,
}
use over_sync.Status.{
  OrderStatus, announced, src_locked, dst_locked, secret_revealed, completed, refunded, failed,
  expired, OrderTransitionAction, status_eq, status_beq_iff, escrow, secret_relay, secret, claim,
  refund, fail, expire,
}
use over_sync.Machine.{can_transition, target_status, action_for_status, evaluate_transition}
use over_sync.Order.{OrderRow, LockInput}
use over_sync.Errors.{ok, ◌>>◌}
use over_sync.Store
use over_sync.Store.{
  Store, find_row, update_where, find_by_public_id, set_status, set_status_columns,
  src_lock_columns, dst_lock_columns, secret_columns, category_of, write_order,
  record_secret_revealed,
}
use over_sync.Store.Rows.{find_row-update_where}
use over_sync.Service.{
  AdvanceRequest, is_redelivery, advance_order, advance_found, advance, count_order,
  src_lock_request, dst_lock_request, secret_request, settle_request, mark_request, record_src_lock,
  record_dst_lock, record_secret, record_claim, record_refund, mark_status,
  assert_timelocks_at_creation,
}
use over_sync.Service.Repeats.Requests.{
  src_lock-writes, dst_lock-writes, write_order-writes, src_lock-settles, dst_lock-settles,
  set_status-writes, record_secret_revealed-writes,
}
use over_sync.Service.Commands.{Command, execute}
use over_sync.Service.Refusals.{advance-logged}

-- An order that has the target status already, with the facts of the request.
abbrev Settled : AdvanceRequest → Store → Type 0
Settled request s =
    (order : OrderRow) × (find_row request.public_id s.orders ≡ some order)
    × (order.status ≡ target_status request.action)
    × (is_redelivery request.is_same_step order ≡ true)

-- A request that wrote the order leaves it settled; so does one that found it settled.
module _ (request : AdvanceRequest) (set : ℕ → OrderRow → OrderRow)
    (keeps : (now : ℕ) (r : OrderRow) → (set now r).public_id ≡ r.public_id)
    (writes : (order : OrderRow) (s : Store)
      → (request.apply order s).0 ≡ ok tt
      → (request.apply order s).1.orders ≡ update_where request.public_id (set s.clock) s.orders)
    (settles : (now : ℕ) (order : OrderRow)
      → can_transition order.status (target_status request.action) ≡ true
      → ((set now order).status ≡ target_status request.action)
        × (is_redelivery request.is_same_step (set now order) ≡ true)) where
  abbrev to : OrderStatus
  to = target_status request.action

  count_order-ok :
      (order : OrderRow) (s : Store)
      → ((request.apply order >> count_order to) s).0 ≡ ok tt
      → ((request.apply order >> count_order to) s).1.orders
        ≡ update_where request.public_id (set s.clock) s.orders
  count_order-ok order s h = ground (arith, writes order s)

  written-Settled :
      (order : OrderRow) (s s' : Store)
      → find_row request.public_id s.orders ≡ some order
      → can_transition order.status to ≡ true
      → s'.orders ≡ update_where request.public_id (set s.clock) s.orders
      → Settled request s'
  written-Settled order s s' found legal w =
      let (there, same) = settles s.clock order legal in
      (
        set s.clock order,
        rw
            (
              w,
              find_row-update_where request.public_id (set s.clock) (keeps s.clock)
                  request.public_id s.orders,
              found,
            )
            (ground (arith, text_beq_iff request.public_id request.public_id)),
        there,
        same,
      )

  advance-applies :
      (order : OrderRow) (s : Store)
      → find_row request.public_id s.orders ≡ some order
      → (order.status == to) ≡ false
      → can_transition order.status to ≡ true
      → advance request s ≡ (request.apply order >> count_order to) s
  unfolding advance advance_found advance_order find_by_public_id evaluate_transition
  advance-applies order s found elsewhere legal = rw (found, elsewhere, legal) refl

  unknown-Settled :
      (s : Store)
      → find_row request.public_id s.orders ≡ none
      → (advance request s).0 ≡ ok tt
      → Settled request (advance request s).1
  unfolding advance advance_found find_by_public_id
  unknown-Settled s unknown h = ground arith

  known-Settled :
      (order : OrderRow) (s : Store)
      → find_row request.public_id s.orders ≡ some order
      → (advance request s).0 ≡ ok tt
      → Settled request (advance request s).1
  known-Settled order s found h =
      let (repeated, conflicting, illegal) = advance-logged request order s found in
      elim (Bool-cases (order.status == to)) [
        | inl eq ↦
            let there = (status_beq_iff order.status to).0 eq in
            elim (Bool-cases (is_redelivery request.is_same_step order)) [
              | inl same ↦ rw (repeated there same) (order, found, there, same)
              | inr other ↦ absurd (ground (arith, conflicting there other))
            ]
        | inr ne ↦ elim (Bool-cases (can_transition order.status to)) [
          | inl legal ↦ written-Settled order s (advance request s).1 found legal (
              rw (advance-applies order s found ne legal)
                (count_order-ok order s (rw (advance-applies order s found ne legal) at h)))
          | inr refused ↦ absurd (ground (arith, illegal, status_beq_iff order.status to))
        ]
      ]

  advance-Settled :
      (s : Store) → (advance request s).0 ≡ ok tt → Settled request (advance request s).1
  advance-Settled s h = elim (Option-cases (find_row request.public_id s.orders)) [
    | inl unknown ↦ unknown-Settled s unknown h
    | inr (order, found) ↦ known-Settled order s found h
  ]

  -- Sent again at any later time, it succeeds and leaves the table as it is.
  advance_again :
      (s : Store) (later : ℕ)
      → (advance request s).0 ≡ ok tt
      → let s' = record (advance request s).1 { clock = later } in
        ((advance request s').0 ≡ ok tt) × ((advance request s').1.orders ≡ s'.orders)
  advance_again s later h =
      let (order, found, there, same) = advance-Settled s h in
      let s' : Store = record (advance request s).1 { clock = later } in
      rw ((advance-logged request order s' found).0 there same) (refl, refl)

mark_action_again :
    (action : OrderTransitionAction) (id : Text) (writer : Option Text) (s : Store) (later : ℕ)
    → let run = advance (mark_request id (target_status action) action writer) in
      (run s).0 ≡ ok tt
      → let s' = record (run s).1 { clock = later } in
        ((run s').0 ≡ ok tt) × ((run s').1.orders ≡ s'.orders)
mark_action_again action id writer s later h =
    advance_again (mark_request id (target_status action) action writer)
      (set_status_columns (target_status action)) (λ now r. refl)
      (λ order. set_status-writes id (target_status action) none) (λ now order legal. (refl, refl))
      s later h

mark_again :
    (id : Text) (status : OrderStatus) (writer : Option Text) (s : Store) (later : ℕ)
    → (mark_status id status writer s).0 ≡ ok tt
    → let s' = record (mark_status id status writer s).1 { clock = later } in
      ((mark_status id status writer s').0 ≡ ok tt)
      × ((mark_status id status writer s').1.orders ≡ s'.orders)
unfolding mark_status action_for_status target_status
mark_again id announced writer s later h = ground arith
mark_again id src_locked writer s later h = mark_action_again escrow id writer s later h
mark_again id dst_locked writer s later h = mark_action_again secret_relay id writer s later h
mark_again id secret_revealed writer s later h = mark_action_again secret id writer s later h
mark_again id completed writer s later h = mark_action_again claim id writer s later h
mark_again id refunded writer s later h = mark_action_again refund id writer s later h
mark_again id failed writer s later h = mark_action_again fail id writer s later h
mark_again id expired writer s later h = mark_action_again expire id writer s later h

-- A command that succeeded succeeds again when it is delivered a second time, at any time and with
-- no other command in between, and the table of orders stays as the first delivery left it.
pub execute_again :
    (min_gap : ℕ) (c : Command) (s : Store) (later : ℕ)
    → (execute min_gap c s).0 ≡ ok tt
    → let s' = record (execute min_gap c s).1 { clock = later } in
      ((execute min_gap c s').0 ≡ ok tt) × ((execute min_gap c s').1.orders ≡ s'.orders)
unfolding execute record_src_lock record_dst_lock record_secret record_claim record_refund
    target_status
execute_again min_gap (Command.src_lock input writer) s later h =
    advance_again (src_lock_request min_gap input writer) (src_lock_columns input) (λ now r. refl)
      (src_lock-writes min_gap input writer) (src_lock-settles min_gap input writer) s later h
execute_again min_gap (Command.dst_lock input resolver writer) s later h =
    advance_again (dst_lock_request min_gap input resolver writer) (dst_lock_columns input resolver)
      (λ now r. refl) (dst_lock-writes min_gap input resolver writer)
      (dst_lock-settles min_gap input resolver writer) s later h
execute_again min_gap (Command.reveal id preimage tx_hash writer) s later h =
    advance_again (secret_request id preimage tx_hash writer)
      (secret_columns (to_lower_case preimage) tx_hash) (λ now r. refl)
      (λ order s. record_secret_revealed-writes id (to_lower_case preimage) tx_hash s)
      (λ now order legal. (refl, ==_refl (some (to_lower_case preimage)))) s later h
execute_again min_gap (Command.settle id tx_hash writer) s later h =
    advance_again (settle_request claim completed id tx_hash writer) (set_status_columns completed)
      (λ now r. refl) (λ order. set_status-writes id completed (some tx_hash))
      (λ now order legal. (refl, refl)) s later h
execute_again min_gap (Command.give_back id tx_hash writer) s later h =
    advance_again (settle_request refund refunded id tx_hash writer) (set_status_columns refunded)
      (λ now r. refl) (λ order. set_status-writes id refunded (some tx_hash))
      (λ now order legal. (refl, refl)) s later h
execute_again min_gap (Command.mark id status writer) s later h =
    mark_again id status writer s later h
