-- ===== src/OrderPoll.antt =====
-- relayer/src/order-poll-utils.ts. `Date.parse` is a parameter.
pub mod Expiry
use over_sync.Prelude.{
  ℕ, ◌+◌, Bool, true, false, ◌&&◌, ◌||◌, not, is_empty, Option, none, some, List, [], ◌∷◌, any,
  includes, ltb, ◌==◌, text_eq, option_eq, if◌then◌else◌, Text, text,
}
use over_sync.Watchdog.{Moment, number, date}

-- `TERMINAL_STATUSES`, `MOCK_STATUSES` and `PRE_DEPOSIT_STATUSES`
abbrev terminal_statuses : List Text
terminal_statuses =
    text "completed"
    ∷ text "cancelled"
    ∷ text "failed"
    ∷ text "refunded"
    ∷ text "expired"
    ∷ text "escrow_creation_failed"
    ∷ []

abbrev mock_statuses : List Text
mock_statuses = text "mock_escrow_created" ∷ text "mock_htlc_created" ∷ []

abbrev pre_deposit_statuses : List Text
pre_deposit_statuses =
    text "pending_relayer_escrow"
    ∷ text "pending_direct_escrow"
    ∷ text "pending_dst_escrow_deployment"
    ∷ text "awaiting_xlm_payment"
    ∷ []

-- An active order, with the fields that the code reads; a status of none is the empty one, too.
pub record ActiveOrder : Type 0 where
  pub status : Text
  pub created : Option Moment

-- `parseOrderCreatedMs`
abbrev parse_order_created_ms : (Text → Option ℕ) → Option Moment → Option ℕ
parse_order_created_ms parse_date none = none
parse_order_created_ms parse_date (some (number n)) = some n
parse_order_created_ms parse_date (some (date s)) = parse_date s

-- `hasPendingRelayerEscrow` and `hasAwaitingXlmPayment`
abbrev has_pending_relayer_escrow : List ActiveOrder → Bool
has_pending_relayer_escrow orders = any (λ o. o.status == text "pending_relayer_escrow") orders

abbrev has_awaiting_xlm_payment : List ActiveOrder → Bool
has_awaiting_xlm_payment orders = any (λ o. o.status == text "awaiting_xlm_payment") orders

-- An order that the loop of `needsChainMonitoring` does not pass by
abbrev pub is_monitored : ActiveOrder → Bool
is_monitored o =
    not
      (is_empty o.status || includes terminal_statuses o.status || includes mock_statuses o.status)

-- `needsChainMonitoring`
abbrev pub needs_chain_monitoring : List ActiveOrder → Bool
needs_chain_monitoring orders = any is_monitored orders

module _ (parse_date : Text → Option ℕ) (max_age_ms now : ℕ) where
  abbrev is_old : Option ℕ → Bool
  is_old none = false
  is_old (some created_ms) = not (ltb now (created_ms + max_age_ms))

  -- The tests of a turn of `expireAbandonedOrders`
  unfoldable pub is_abandoned : ActiveOrder → Bool
  is_abandoned o =
      if is_empty o.status || not (includes pre_deposit_statuses o.status)
      then false
      else is_old (parse_order_created_ms parse_date o.created)

  -- `expireAbandonedOrders`, with the orders that it leaves
  unfoldable pub expire_abandoned_orders : List ActiveOrder → ℕ × List ActiveOrder
  unfolding is_abandoned
  expire_abandoned_orders [] = (0, [])
  expire_abandoned_orders (o ∷ orders) =
      let rest = expire_abandoned_orders orders in
      if is_abandoned o
      then (rest.0 + 1, record o { status = text "expired" } ∷ rest.1)
      else (rest.0, o ∷ rest.1)
