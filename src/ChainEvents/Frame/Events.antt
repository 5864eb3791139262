-- ===== src/ChainEvents/Frame/Events.antt =====
-- The processed events under the event processor: applying a settlement event and saving a cursor.
use over_sync.Prelude.{ℕ, ◌≡◌, refl, Option, none, some, List, arith, ◌==◌, Text, is_empty}
use over_sync.Status.{refunded, status_eq}
use over_sync.Order.{OrderRow}
use over_sync.Errors.{Action, pure}
use over_sync.Store.{Store, ChainName, ChainCursor, find_by_src_order_id, find_by_dst_order_id}
use over_sync.Service.{record_refund}
use over_sync.Service.Commands.{Command, execute}
use over_sync.Secrets
use over_sync.ChainEvents.{
  SettlementEvent, claimed_event, refunded_event, SettlementKind, applied, duplicate, ignored,
  get_chain_cursor, save_chain_cursor, check_network, resume, advance, find_order, apply_refunded,
  is_recorded, apply_claimed, apply_kind, apply_found, apply,
}
use over_sync.ChainEvents.Frame.{Keeps, bind-Keeps, if-Keeps, execute-Keeps, reveal-Keeps}

check_network-Keeps :
    (chain : ChainName) (network_id : Text) (saved : Option ChainCursor)
    → Keeps (check_network chain network_id saved)
check_network-Keeps chain network_id none s = refl
check_network-Keeps chain network_id (some saved) s = ground arith

pub advance-Keeps :
    (chain : ChainName) (network_id : Text) (position : ℕ) (cursor : Option Text)
    → Keeps (advance chain network_id position cursor)
unfolding advance resume get_chain_cursor save_chain_cursor
advance-Keeps chain network_id position cursor =
    bind-Keeps (resume chain network_id) (λ _. saved)
      (bind-Keeps (get_chain_cursor chain) (check_network chain network_id) (λ s. refl)
        (check_network-Keeps chain network_id))
      (λ _ s. refl)
  where
    saved : Action Store (Unit {0})
    saved =
        save_chain_cursor
          (record { chain = chain; network_id = network_id; position = position; cursor = cursor })

find_order-Keeps : (ev : SettlementEvent) → Keeps (find_order ev)
unfolding find_order find_by_src_order_id find_by_dst_order_id
find_order-Keeps ev s = ground arith

module _ (sha256 : List ℕ → Text) (now : ℕ) where
  record_refund-Keeps : (id tx_hash : Text) → Keeps (record_refund id tx_hash none)
  unfolding execute
  record_refund-Keeps id tx_hash = execute-Keeps 0 (Command.give_back id tx_hash none)

  apply_claimed-Keeps :
      (ev : SettlementEvent) (order : OrderRow) (preimage : Option Text)
      → Keeps (apply_claimed sha256 now ev order preimage)
  apply_claimed-Keeps ev order none s = refl
  apply_claimed-Keeps ev order (some preimage) s =
      if-Keeps (is_empty preimage) (pure ignored) _ (λ _. refl)
        (if-Keeps (is_recorded sha256 now ev order) (pure duplicate) _ (λ _. refl)
          (bind-Keeps (Secrets.reveal sha256 now order.public_id preimage ev.tx_hash)
            (λ _. pure applied) (reveal-Keeps sha256 now order.public_id preimage ev.tx_hash)
            (λ _ _. refl)))
        s

  apply_refunded-Keeps :
      (ev : SettlementEvent) (order : OrderRow) → Keeps (apply_refunded sha256 now ev order)
  apply_refunded-Keeps ev order =
      if-Keeps (order.status == refunded) (pure duplicate) _ (λ _. refl)
        (bind-Keeps (record_refund order.public_id ev.tx_hash none) (λ _. pure applied)
          (record_refund-Keeps order.public_id ev.tx_hash) (λ _ _. refl))

  apply_found-Keeps :
      (ev : SettlementEvent) (found : Option OrderRow) → Keeps (apply_found sha256 now ev found)
  apply_found-Keeps ev none s = refl
  apply_found-Keeps ev (some order) s = by_kind ev.kind
    where
      by_kind :
          (kind : SettlementKind)
          → (apply_kind sha256 now kind ev order s).1.processed_events ≡ s.processed_events
      by_kind claimed_event = apply_claimed-Keeps ev order ev.preimage s
      by_kind refunded_event = apply_refunded-Keeps ev order s

  pub apply-Keeps : (ev : SettlementEvent) → Keeps (apply sha256 now ev)
  unfolding apply
  apply-Keeps ev =
      bind-Keeps (find_order ev) (apply_found sha256 now ev) (find_order-Keeps ev)
        (apply_found-Keeps ev)
