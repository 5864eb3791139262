-- ===== src/ListenerEvents.antt =====
-- What the chain listeners hand to the order book: `OrderEventApplier` of
-- coordinator/src/listeners/order-events.ts, but for its logging.
pub mod Commands
pub mod Applied
use over_sync.Prelude.{
  ℕ, Bool, true, false, not, ◌&&◌, Option, none, some, ◌==◌, if◌then◌else◌, is_empty, Text, text_eq,
  option_eq, to_lower_case,
}
use over_sync.Status.{OrderFailureCode}
use over_sync.Order.{Chain, chain_beq, OrderRow, LockInput}
use over_sync.Errors.{
  Result, ok, err, ServiceError, rejected, is_validation_error, TransitionRejectionInfo, Action,
  pure, ◌>>=◌, ◌>>◌,
}
use over_sync.Store.{Store, find_by_hashlock, find_by_src_order_id, find_by_dst_order_id}
use over_sync.Service.{record_src_lock, record_dst_lock, record_secret, record_claim, record_refund}

pub data BridgeEventKind : Type 0 where
  lock claim refund : BridgeEventKind

pub record BridgeOrderEvent : Type 0 where
  pub kind : BridgeEventKind
  pub chain : Chain
  pub tx_hash : Text
  pub block_number : ℕ
  pub order_id : Option Text
  pub hashlock : Option Text
  pub timelock : Option ℕ
  pub preimage : Option Text

-- The reasons of an ignored event: one for each message, and the error whose message is passed on.
pub data IgnoreReason : Type 0 where
  no_hashlock no_order_for_hashlock no_timelock no_order_id no_order_for_id : IgnoreReason
  refused_by : ServiceError → IgnoreReason

pub data BridgeEventOutcome : Type 0 where
  applied : Text → BridgeEventOutcome
  ignored : IgnoreReason → BridgeEventOutcome
  rejected_event : Text → OrderFailureCode → Text → BridgeEventOutcome
  error : ServiceError → BridgeEventOutcome

-- A string that is set and not empty, as a JavaScript condition takes it.
abbrev pub truthy : Option Text → Option Text
truthy none = none
truthy (some s) = if is_empty s then none else some s

abbrev pub lower_option : Option Text → Option Text
lower_option none = none
lower_option (some s) = some (to_lower_case s)

-- The `catch` of `apply`.
abbrev pub outcome_of : Result BridgeEventOutcome → BridgeEventOutcome
outcome_of (ok outcome) = outcome
outcome_of (err (rejected info)) = rejected_event info.public_id info.code info.reason
outcome_of (err e) = if is_validation_error e then ignored (refused_by e) else error e

module _ (min_gap : ℕ) (writer : Text) where
  abbrev pub lock_input : BridgeOrderEvent → Text → ℕ → OrderRow → LockInput
  lock_input event order_id timelock order = record {
    public_id = order.public_id;
    order_id = order_id;
    tx_hash = event.tx_hash;
    block_number = event.block_number;
    timelock = timelock;
  }

  -- `applyLock`, once the order is found.
  abbrev pub lock_found :
      BridgeOrderEvent → Option ℕ → Option Text → Option OrderRow → Action Store BridgeEventOutcome
  lock_found event timelock order_id none = pure (ignored no_order_for_hashlock)
  lock_found event none order_id (some order) = pure (ignored no_timelock)
  lock_found event (some timelock) none (some order) = pure (ignored no_order_id)
  lock_found event (some timelock) (some order_id) (some order) =
      let input = lock_input event order_id timelock order in
      (if chain_beq event.chain order.src_chain
        then record_src_lock min_gap input (some writer)
        else record_dst_lock min_gap input none (some writer))
      >> pure (applied order.public_id)

  abbrev pub lock_hashlock : BridgeOrderEvent → Option Text → Action Store BridgeEventOutcome
  lock_hashlock event none = pure (ignored no_hashlock)
  lock_hashlock event (some hashlock) =
      find_by_hashlock hashlock >>= lock_found event event.timelock (truthy event.order_id)

  unfoldable pub apply_lock : BridgeOrderEvent → Action Store BridgeEventOutcome
  apply_lock event = lock_hashlock event (truthy (lower_option event.hashlock))

  -- `resolveOrder`
  abbrev pub by_hashlock : Option Text → Action Store (Option OrderRow)
  by_hashlock none = pure none
  by_hashlock (some hashlock) = find_by_hashlock (to_lower_case hashlock)

  abbrev pub or_find :
      Action Store (Option OrderRow) → Option OrderRow → Action Store (Option OrderRow)
  or_find next none = next
  or_find next (some order) = pure (some order)

  abbrev pub by_id : BridgeOrderEvent → Option Text → Action Store (Option OrderRow)
  by_id event none = by_hashlock (truthy event.hashlock)
  by_id event (some id) =
      find_by_src_order_id event.chain id
      >>= or_find
          (find_by_dst_order_id event.chain id >>= or_find (by_hashlock (truthy event.hashlock)))

  unfoldable pub resolve_order : BridgeOrderEvent → Action Store (Option OrderRow)
  resolve_order event = by_id event (truthy event.order_id)

  -- `if (preimage && order.preimage !== preimage)`
  abbrev pub claim_secret : BridgeOrderEvent → OrderRow → Option Text → Action Store (Unit {0})
  claim_secret event order none = pure tt
  claim_secret event order (some preimage) =
      if order.preimage == some preimage
      then pure tt
      else record_secret order.public_id preimage event.tx_hash (some writer)

  abbrev pub claim_found : BridgeOrderEvent → Option OrderRow → Action Store BridgeEventOutcome
  claim_found event none = pure (ignored no_order_for_id)
  claim_found event (some order) =
      claim_secret event order (truthy (lower_option event.preimage))
      >> record_claim order.public_id event.tx_hash (some writer)
      >> pure (applied order.public_id)

  unfoldable pub apply_claim : BridgeOrderEvent → Action Store BridgeEventOutcome
  unfolding resolve_order
  apply_claim event = resolve_order event >>= claim_found event

  abbrev pub refund_found : BridgeOrderEvent → Option OrderRow → Action Store BridgeEventOutcome
  refund_found event none = pure (ignored no_order_for_id)
  refund_found event (some order) =
      record_refund order.public_id event.tx_hash (some writer) >> pure (applied order.public_id)

  unfoldable pub apply_refund : BridgeOrderEvent → Action Store BridgeEventOutcome
  unfolding resolve_order
  apply_refund event = resolve_order event >>= refund_found event

  abbrev pub apply_kind : BridgeEventKind → BridgeOrderEvent → Action Store BridgeEventOutcome
  apply_kind lock event = apply_lock event
  apply_kind claim event = apply_claim event
  apply_kind refund event = apply_refund event

  -- `apply` never throws.
  unfoldable pub apply : BridgeOrderEvent → Store → BridgeEventOutcome × Store
  unfolding apply_lock apply_claim apply_refund
  apply event s = let (r, s') = apply_kind event.kind event s in (outcome_of r, s')
