-- ===== src/Examples/Watches.antt =====
-- Scans of the watchdog over an order that waits for ETH, with a claim in flight and without, and the polled orders.
use over_sync.Prelude.{
  select, any, not, ◌&&◌, ℕ, ◌+◌, ◌≤◌, ◌≡◌, refl, true, false, none, some, List, [], ◌∷◌, length,
  text, text_beq, text_eq, option_eq, ◌==◌, arith,
}
use over_sync.OrderPoll.{
  ActiveOrder, is_monitored, needs_chain_monitoring, is_abandoned, expire_abandoned_orders,
}
use over_sync.OrderPoll.Expiry.{expire_abandoned_orders-needs_chain_monitoring}
use over_sync.Relay.Records.{RelayAction}
use over_sync.Relay.Tracker.{RelayTrackerConfig, Tracker, find_blocking, get_blocking_record}
use over_sync.Relay.Submit.{submit}
use over_sync.Relay.Restore.{is_set, restore, restore_entries, start}
use over_sync.Relay.Steps.{submitted, Reach, new, next}
use over_sync.Watchdog.{
  number, WatchdogOrder, WatchdogConfig, is_xlm_to_eth_awaiting_eth, to_millis,
  watchdog_refund_action, started_at, SubmitReply, submission, thrown, skipped, refunded, Sight,
  after_submit, is_due, turn, Watched, WatchEvent, turn_starts, submit_ends, begins, watch,
}
use over_sync.Watchdog.Refunds.{turn-refunded_facts, watch-refunded, failed_attempt_waits}

abbrev tracker_config : RelayTrackerConfig
tracker_config = record {
  max_attempts = 2;
  has_confirm = true;
  has_store = true;
  save = λ l. some l;
  serializable = λ t. some t;
  digest = λ t. t;
  quoted = λ t. t;
}

abbrev cfg : WatchdogConfig
cfg = record {
  tracker_config = tracker_config;
  stale_after_ms = 300000;
  network_mode = text "testnet";
  parse_date = λ _. none;
}

abbrev stuck_order : WatchdogOrder
stuck_order = record {
  order_id = some (text "7");
  direction = some (text "xlm_to_eth");
  status = some (text "pending");
  stellar_address = some (text "GA");
  stellar_tx_hash = some (text "ab");
  xlm_received_at = some (number 5000);
  created = none;
  network_mode = none;
  refund_tx_hash = none;
  refunded_at = none;
  watchdog_failed_at = none;
  watchdog_failure_reason = none;
}

abbrev fresh_tracker : Tracker
fresh_tracker = start tracker_config []

abbrev sight_of : SubmitReply → Sight
sight_of reply = record { tracker = fresh_tracker; reply = reply; ended_at = 9000000 }

abbrev paying : Sight
paying = sight_of (submission (some (text "cd")) none)

abbrev failing : Sight
failing = sight_of (thrown (text "no answer"))

turn_pays : (turn cfg 8000000 (text "7") paying stuck_order).0 ≡ refunded (text "cd")
unfolding turn is_due is_xlm_to_eth_awaiting_eth to_millis after_submit start restore
    restore_entries find_blocking text_beq
turn_pays = refl

turn-refunded_facts_example :
    ((stuck_order.direction == some (text "xlm_to_eth")) ≡ true)
    × (is_set stuck_order.stellar_tx_hash ≡ true)
    × (is_set stuck_order.stellar_address ≡ true)
    × (is_set stuck_order.refund_tx_hash ≡ false)
    × ((t : ℕ) × (started_at cfg stuck_order ≡ some t) × (t + cfg.stale_after_ms ≤ 8000000))
    × (get_blocking_record tracker_config
          (watchdog_refund_action (text "7") stuck_order cfg.network_mode)
          paying.tracker
        ≡ none)
    × ((turn cfg 8000000 (text "7") paying stuck_order).1.refund_tx_hash ≡ some (text "cd"))
turn-refunded_facts_example =
    turn-refunded_facts cfg 8000000 (text "7") paying stuck_order (text "cd") turn_pays

-- A refund is marked while a second turn waits, which marks it again.
abbrev refunded_order : WatchdogOrder
refunded_order = record stuck_order {
  refund_tx_hash = some (text "cd");
  status = some (text "refunded");
}

abbrev one_waiting : Watched
one_waiting = record { order = refunded_order; waiting = 1 }

abbrev watch_events : List WatchEvent
watch_events =
    turn_starts 9900000 fresh_tracker
    ∷ submit_ends (submission (some (text "cd")) none) 9900000
    ∷ turn_starts 9990000 fresh_tracker
    ∷ []

watch-refunded_example :
    (length (watch cfg (text "7") watch_events one_waiting).0
        + (watch cfg (text "7") watch_events one_waiting).1.waiting
      ≤ 1)
    × (is_set (watch cfg (text "7") watch_events one_waiting).1.order.refund_tx_hash ≡ true)
    × ((now : ℕ) (tracker : Tracker)
        → begins cfg (text "7") now tracker (watch cfg (text "7") watch_events one_waiting).1.order
          ≡ false)
watch-refunded_example = watch-refunded cfg (text "7") watch_events one_waiting refl

failed_attempt_waits_example :
    let order' = (turn cfg 8000000 (text "7") failing stuck_order).1 in
    turn cfg 9500000 (text "7") paying order' ≡ (skipped, order')
unfolding turn is_due is_xlm_to_eth_awaiting_eth to_millis after_submit start restore
    restore_entries find_blocking text_beq
failed_attempt_waits_example =
    failed_attempt_waits cfg 8000000 (text "7") failing stuck_order refl (ground arith) 9500000
      paying (ground arith)

abbrev claim : RelayAction
claim = record {
  order_id = text "7";
  side = text "xlm_to_eth";
  action = text "claim";
  chain = text "ethereum";
  network = none;
}

abbrev with_claim : Tracker
with_claim = (submit tracker_config claim true 1 fresh_tracker).1

claim_reached : Reach tracker_config with_claim
claim_reached = next new (submitted claim true 1 (λ i e n. refl))

abbrev polled_orders : List ActiveOrder
polled_orders =
    record { status = text "awaiting_xlm_payment"; created = some (number 1000) }
    ∷ record { status = text "completed"; created = some (number 1000) }
    ∷ record { status = text "pending_direct_escrow"; created = some (number 900000) }
    ∷ []

expire_abandoned_orders-needs_chain_monitoring_example :
    let abandoned = is_abandoned (λ _. none) 800000 900000 in
    let out = expire_abandoned_orders (λ _. none) 800000 900000 polled_orders in
    (out.0 ≡ length (select abandoned polled_orders))
    × (needs_chain_monitoring out.1 ≡ any (λ o. not (abandoned o) && is_monitored o) polled_orders)
    × (expire_abandoned_orders (λ _. none) 800000 900000 out.1 ≡ (0, out.1))
expire_abandoned_orders-needs_chain_monitoring_example =
    expire_abandoned_orders-needs_chain_monitoring (λ _. none) 800000 900000 polled_orders
