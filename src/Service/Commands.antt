-- ===== src/Service/Commands.antt =====
-- The methods of the order service that write an existing order, as commands: what a client, a
-- listener or the secret service may call.
use over_sync.Prelude.{ℕ, ◌≡◌, refl, ◌⊎◌, inl, Option, none, some, arith, Text, to_lower_case}
use over_sync.Status.{
  OrderStatus, announced, src_locked, dst_locked, secret_revealed, completed, refunded, failed,
  expired, OrderTransitionAction, fail, expire, escrow, secret_relay, secret, claim, refund,
}
use over_sync.Machine.{target_status, action_for_status}
use over_sync.Timelock.{validate_timelocks_at_creation}
use over_sync.Order.{OrderRow, LockInput}
use over_sync.Errors.{Action}
use over_sync.Store
use over_sync.Store.{
  Store, find_row, update_where, set_status, write_order, record_secret_revealed,
  set_status_columns, src_lock_columns, dst_lock_columns, secret_columns,
}
use over_sync.Service.{
  advance, assert_timelocks_at_creation, record_src_lock, record_dst_lock, record_secret,
  record_claim, record_refund, mark_status, src_lock_request, dst_lock_request, secret_request,
  settle_request, mark_request,
}
use over_sync.Service.Steps.{Written, Untouched, Advanced, advance-cases}

pub data Command : Type 0 where
  -- input, writer
  src_lock : LockInput → Option Text → Command
  -- input, resolver, writer
  dst_lock : LockInput → Option Text → Option Text → Command
  -- public id, preimage, transaction, writer
  reveal : Text → Text → Text → Option Text → Command
  -- public id, transaction, writer
  settle : Text → Text → Option Text → Command
  give_back : Text → Text → Option Text → Command
  -- public id, status, writer
  mark : Text → OrderStatus → Option Text → Command

unfoldable pub execute : ℕ → Command → Action Store (Unit {0})
execute min_gap (src_lock input writer) = record_src_lock min_gap input writer
execute min_gap (dst_lock input resolver writer) = record_dst_lock min_gap input resolver writer
execute min_gap (reveal id preimage tx_hash writer) = record_secret id preimage tx_hash writer
execute min_gap (settle id tx_hash writer) = record_claim id tx_hash writer
execute min_gap (give_back id tx_hash writer) = record_refund id tx_hash writer
execute min_gap (mark id status writer) = mark_status id status writer

-- The order that a command names, the status that it writes, and the columns that it sets.
abbrev pub command_id : Command → Text
command_id (src_lock input writer) = input.public_id
command_id (dst_lock input resolver writer) = input.public_id
command_id (reveal id preimage tx_hash writer) = id
command_id (settle id tx_hash writer) = id
command_id (give_back id tx_hash writer) = id
command_id (mark id status writer) = id

abbrev pub command_target : Command → OrderStatus
command_target (src_lock input writer) = src_locked
command_target (dst_lock input resolver writer) = dst_locked
command_target (reveal id preimage tx_hash writer) = secret_revealed
command_target (settle id tx_hash writer) = completed
command_target (give_back id tx_hash writer) = refunded
command_target (mark id status writer) = status

abbrev pub command_columns : Command → ℕ → OrderRow → OrderRow
command_columns (src_lock input writer) = src_lock_columns input
command_columns (dst_lock input resolver writer) = dst_lock_columns input resolver
command_columns (reveal id preimage tx_hash writer) =
    secret_columns (to_lower_case preimage) tx_hash
command_columns (settle id tx_hash writer) = set_status_columns completed
command_columns (give_back id tx_hash writer) = set_status_columns refunded
command_columns (mark id status writer) = set_status_columns status

write_order-cases :
    (id : Text) (set : ℕ → OrderRow → OrderRow) (to : OrderStatus) (tx : Option Text)
    (category : Text) (s : Store)
    → Untouched s (write_order id set to tx category s)
      ⊎ Written id set s (write_order id set to tx category s)
unfolding write_order
write_order-cases id set to tx category s = ground arith

-- The guard of a lock: the timelocks of both sides, if both are set, pass the ordering test.
abbrev pub PassesOrdering : ℕ → Option ℕ → Option ℕ → Type 0
PassesOrdering min_gap (some src) (some dst) =
    (validate_timelocks_at_creation src dst min_gap).error ≡ none
PassesOrdering min_gap _ _ = Unit

abbrev pub CommandGuard : ℕ → Command → OrderRow → Type 0
CommandGuard min_gap (src_lock input writer) order =
    PassesOrdering min_gap (some input.timelock) order.dst_timelock
CommandGuard min_gap (dst_lock input resolver writer) order =
    PassesOrdering min_gap order.src_timelock (some input.timelock)
CommandGuard min_gap (reveal id preimage tx_hash writer) order = Unit
CommandGuard min_gap (settle id tx_hash writer) order = Unit
CommandGuard min_gap (give_back id tx_hash writer) order = Unit
CommandGuard min_gap (mark id status writer) order = Unit

src_lock-applies :
    (min_gap : ℕ) (input : LockInput) (writer : Option Text) (order : OrderRow) (s : Store)
    → let out = (src_lock_request min_gap input writer).apply order s in
      Untouched s out
      ⊎ (PassesOrdering min_gap (some input.timelock) order.dst_timelock
          × Written input.public_id (src_lock_columns input) s out)
unfolding assert_timelocks_at_creation Store.record_src_lock
src_lock-applies min_gap input writer order s = ground arith

dst_lock-applies :
    (min_gap : ℕ) (input : LockInput) (resolver writer : Option Text) (order : OrderRow) (s : Store)
    → let out = (dst_lock_request min_gap input resolver writer).apply order s in
      Untouched s out
      ⊎ (PassesOrdering min_gap order.src_timelock (some input.timelock)
          × Written input.public_id (dst_lock_columns input resolver) s out)
unfolding assert_timelocks_at_creation Store.record_dst_lock
dst_lock-applies min_gap input resolver writer order s = ground arith

set_status-applies :
    (id : Text) (status : OrderStatus) (tx : Option Text) (s : Store)
    → Untouched s (set_status id status tx s)
      ⊎ (Unit {0} × Written id (set_status_columns status) s (set_status id status tx s))
unfolding set_status
set_status-applies id status tx s = ground arith

record_secret_revealed-applies :
    (id preimage tx : Text) (s : Store)
    → Untouched s (record_secret_revealed id preimage tx s)
      ⊎ (Unit {0}
          × Written id (secret_columns preimage tx) s (record_secret_revealed id preimage tx s))
unfolding record_secret_revealed
record_secret_revealed-applies id preimage tx s = ground arith

mark_action-cases :
    (action : OrderTransitionAction) (id : Text) (writer : Option Text) (s : Store)
    → let to = target_status action in
      Untouched s (advance (mark_request id to action writer) s)
      ⊎ Advanced id to
          (λ _. Unit)
          (set_status_columns to)
          s
          (advance (mark_request id to action writer) s)
mark_action-cases action id writer s =
    advance-cases (mark_request id (target_status action) action writer) _
      (set_status_columns (target_status action))
      (λ order. set_status-applies id (target_status action) none) s

mark_status-cases :
    (id : Text) (status : OrderStatus) (writer : Option Text) (s : Store)
    → Untouched s (mark_status id status writer s)
      ⊎ Advanced id status
          (λ _. Unit)
          (set_status_columns status)
          s
          (mark_status id status writer s)
unfolding mark_status action_for_status target_status
mark_status-cases id announced writer s = inl refl
mark_status-cases id src_locked writer s = mark_action-cases escrow id writer s
mark_status-cases id dst_locked writer s = mark_action-cases secret_relay id writer s
mark_status-cases id secret_revealed writer s = mark_action-cases secret id writer s
mark_status-cases id completed writer s = mark_action-cases claim id writer s
mark_status-cases id refunded writer s = mark_action-cases refund id writer s
mark_status-cases id failed writer s = mark_action-cases fail id writer s
mark_status-cases id expired writer s = mark_action-cases expire id writer s

-- Every command leaves the table of orders as it was, or it finds its order, the state machine has
-- the edge from the order's status to the command's, the timelocks pass where the command is a lock,
-- and the command sets its columns of the rows of that order and returns.
pub execute-cases :
    (min_gap : ℕ) (c : Command) (s : Store)
    → Untouched s (execute min_gap c s)
      ⊎ Advanced
          (command_id c)
          (command_target c)
          (CommandGuard min_gap c)
          (command_columns c)
          s
          (execute min_gap c s)
unfolding execute record_src_lock record_dst_lock record_secret record_claim record_refund
    target_status
execute-cases min_gap (src_lock input writer) s =
    advance-cases (src_lock_request min_gap input writer) _ (src_lock_columns input)
      (src_lock-applies min_gap input writer) s
execute-cases min_gap (dst_lock input resolver writer) s =
    advance-cases (dst_lock_request min_gap input resolver writer) _
      (dst_lock_columns input resolver) (dst_lock-applies min_gap input resolver writer) s
execute-cases min_gap (reveal id preimage tx_hash writer) s =
    advance-cases (secret_request id preimage tx_hash writer) _
      (secret_columns (to_lower_case preimage) tx_hash)
      (λ order. record_secret_revealed-applies id (to_lower_case preimage) tx_hash) s
execute-cases min_gap (settle id tx_hash writer) s =
    advance-cases (settle_request claim completed id tx_hash writer) _
      (set_status_columns completed) (λ order. set_status-applies id completed (some tx_hash)) s
execute-cases min_gap (give_back id tx_hash writer) s =
    advance-cases (settle_request refund refunded id tx_hash writer) _ (set_status_columns refunded)
      (λ order. set_status-applies id refunded (some tx_hash)) s
execute-cases min_gap (mark id status writer) s = mark_status-cases id status writer s
