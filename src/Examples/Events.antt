-- ===== src/Examples/Events.antt =====
-- Chain events and secrets.
use over_sync.Prelude.{
  ℕ, ◌≡◌, refl, true, none, some, List, [], ◌∷◌, ◌++◌, replicate, Text, text, text_beq,
  to_lower_case,
}
use over_sync.Order
use over_sync.Order.{OrderRow}
use over_sync.Decimal.{to_bigint, value_from}
use over_sync.Timelock.{evaluate_secret_window}
use over_sync.Machine.{target_status, evaluate_transition, can_transition}
use over_sync.Service.{record_secret, advance_order}
use over_sync.Service.Commands.{Command}
use over_sync.Errors.{ok}
use over_sync.Store.{
  Store, find_row, ethereum, find_by_preimage, find_by_src_order_id, record_secret_revealed,
}
use over_sync.ListenerEvents.{BridgeOrderEvent, lock}
use over_sync.ListenerEvents
use over_sync.Secrets.{order_message, is_valid_secret_format, reveal, matches_known_orders}
use over_sync.Secrets.Gate.{Passed, reveal-Passed}
use over_sync.ChainEvents
use over_sync.ChainEvents.{
  SettlementEvent, claimed_event, duplicate, process, find_order, advance, get_chain_cursor,
}
use over_sync.ChainEvents.Once.{
  process_again, Call, delivers, saves, commands, reveals, ticks, run_calls,
}
use over_sync.Examples.Data.{swap, tx, locked_order, store_of}

abbrev observed_lock : BridgeOrderEvent
observed_lock = record {
  kind = lock;
  chain = Order.ethereum;
  tx_hash = tx;
  block_number = 12;
  order_id = some (text "7");
  hashlock = some (text "0xAB");
  timelock = some 5000;
  preimage = none;
}

-- A hash that is its own argument: two different messages never have the same hash.
abbrev toy_hash : List ℕ → Text
toy_hash bytes = bytes

abbrev preimage : Text
preimage = text "0x" ++ replicate 64 b'1'

abbrev message : List ℕ
message = replicate 31 0 ++ 7 ∷ replicate 32 17

abbrev bound_order : OrderRow
bound_order = record locked_order { hashlock = message }

abbrev bound_book : Store
bound_book = store_of (bound_order ∷ [])

reveal_runs : (reveal toy_hash 1000000 swap preimage tx bound_book).0 ≡ ok tt
unfolding reveal find_row text_beq is_valid_secret_format matches_known_orders order_message
    to_bigint value_from to_lower_case find_by_preimage evaluate_secret_window record_secret
    advance_order target_status evaluate_transition can_transition record_secret_revealed
reveal_runs = refl

reveal-Passed_example :
    (is_valid_secret_format preimage ≡ true)
    × (order : OrderRow) × (find_row swap bound_book.orders ≡ some order)
    × Passed toy_hash 1000000
        (to_lower_case preimage)
        tx
        order
        bound_book
        (reveal toy_hash 1000000 swap preimage tx bound_book).1
reveal-Passed_example = reveal-Passed toy_hash 1000000 swap preimage tx bound_book reveal_runs

abbrev claim_seen : SettlementEvent
claim_seen = record {
  chain = ethereum;
  kind = claimed_event;
  onchain_order_id = text "7";
  tx_hash = tx;
  log_index = 0;
  position = 12;
  preimage = some preimage;
}

process_runs :
    (process toy_hash 1000000 (text "test") claim_seen bound_book).0 ≡ ok ChainEvents.applied
unfolding reveal find_row text_beq is_valid_secret_format matches_known_orders order_message
    to_bigint value_from to_lower_case find_by_preimage evaluate_secret_window record_secret
    advance_order target_status evaluate_transition can_transition record_secret_revealed process
    ChainEvents.apply find_order find_by_src_order_id
process_runs = refl

-- The same event again, a saved cursor, a command, a reveal and a tick of the database's clock.
abbrev meanwhile : List (ℕ × Call)
meanwhile =
    (1100000, delivers (text "test") claim_seen)
    ∷ (1200000, saves ethereum (text "test") 20 none)
    ∷ (1300000, commands 600 (Command.settle (text "order") tx none))
    ∷ (1400000, reveals (text "order") (text "0x00") tx)
    ∷ (1500000, ticks 1500)
    ∷ []

process_again_example :
    let s' =
      run_calls toy_hash meanwhile
        (process toy_hash 1000000 (text "test") claim_seen bound_book).1 in
    process toy_hash 2000000 (text "test") claim_seen s' ≡ (ok duplicate, s')
process_again_example =
    process_again toy_hash 1000000 2000000 (text "test") claim_seen ChainEvents.applied meanwhile
      bound_book process_runs
