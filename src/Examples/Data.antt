-- ===== src/Examples/Data.antt =====
-- An order book with one announced order, and the commands of its life.
use over_sync.Prelude.{ℕ, Option, none, some, List, [], ◌∷◌, false, Text, text}
use over_sync.Status.{OrderStatus, announced, dst_locked}
use over_sync.Order.{OrderRow, LockInput, eth_to_xlm}
use over_sync.Order
use over_sync.Store.{Store}
use over_sync.Service.Commands.{Command, src_lock, dst_lock, reveal, settle, give_back}

abbrev pub swap : Text
swap = text "swap"

abbrev pub tx : Text
tx = text "0xA1"

abbrev pub row_with : OrderStatus → Option ℕ → Option ℕ → Option Text → OrderRow
row_with status src dst preimage = record {
  id = 1;
  public_id = swap;
  direction = eth_to_xlm;
  status = status;
  hashlock = text "0xab";
  src_chain = Order.ethereum;
  src_address = text "0x01";
  src_asset = text "ETH";
  src_amount = text "5";
  src_safety_deposit = text "1";
  src_order_id = some (text "7");
  src_lock_tx = none;
  src_lock_block = none;
  src_timelock = src;
  dst_chain = Order.stellar;
  dst_address = text "G";
  dst_asset = text "XLM";
  dst_amount = text "9";
  dst_order_id = none;
  dst_lock_tx = none;
  dst_lock_block = none;
  dst_timelock = dst;
  preimage = preimage;
  secret_revealed_tx = none;
  resolver_address = none;
  fixture = false;
  created_at = 10;
  updated_at = 10;
}

abbrev pub announced_order : OrderRow
announced_order = row_with announced none none none

abbrev pub locked_order : OrderRow
locked_order = row_with dst_locked (some 5000) (some 3000) none

abbrev pub store_of : List OrderRow → Store
store_of rows = record {
  clock = 100;
  orders = rows;
  order_events = [];
  next_order_id = 2;
  next_event_id = 1;
  chain_cursors = [];
  processed_events = [];
  orders_total = [];
  illegal_order_transitions = [];
}

abbrev pub book : Store
book = store_of (announced_order ∷ [])

abbrev pub locked_book : Store
locked_book = store_of (locked_order ∷ [])

abbrev pub lock_until : ℕ → LockInput
lock_until timelock = record {
  public_id = swap;
  order_id = text "7";
  tx_hash = tx;
  block_number = 12;
  timelock = timelock;
}

abbrev pub lock_source : Command
lock_source = src_lock (lock_until 5000) none

abbrev pub lock_destination : Command
lock_destination = dst_lock (lock_until 3000) none none

abbrev pub show_secret : Command
show_secret = reveal swap (text "0xAB") tx none

-- The whole life of the order, with a refund that comes too late.
abbrev pub life : List (ℕ × Command)
life =
    (101, lock_source)
    ∷ (102, lock_destination)
    ∷ (103, show_secret)
    ∷ (104, settle swap tx none)
    ∷ (105, give_back swap tx none)
    ∷ []
