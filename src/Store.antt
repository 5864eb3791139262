-- ===== src/Store.antt =====
-- The repository of orders, coordinator/src/persistence/orders-repo.ts, over the tables of
-- coordinator/src/persistence/schema.sql as lists of rows in the order of their insertion. The
-- clock of the database and the ids that it hands out are fields of the store; so are the two
-- counters of coordinator/src/metrics.ts that the order service raises, as lists of the labels.
pub mod Rows
use over_sync.Prelude.{
  ℕ, ◌+◌, Bool, true, false, ◌&&◌, Option, none, some, List, [], ◌∷◌, ◌++◌, map, ◌==◌,
  if◌then◌else◌, find, Text, text, text_eq, option_eq,
}
use over_sync.Status.{
  OrderStatus, announced, src_locked, dst_locked, secret_revealed, completed, refunded, failed,
  expired, status_eq, OrderTransitionAction, OrderFailureCode,
}
use over_sync.Errors.{
  ok, err, unique_violation, insert_failed, repo_unknown_order, Action, pure, throw, gets, modify,
  ◌>>=◌, ◌>>◌, TransitionRejectionInfo,
}
use over_sync.Order.{Chain, chain_beq, Direction, OrderRow, LockInput, AnnounceOrderInput}

-- The payload of an event, before it is written as JSON; its two forms are the two event types.
pub data EventPayload : Type 0 where
  -- `from`, `to`, `txHash`, `category`
  transition_summary : Option OrderStatus → OrderStatus → Option Text → Text → EventPayload
  transition_rejected : TransitionRejectionInfo → EventPayload

pub record OrderEvent : Type 0 where
  pub id : ℕ
  pub order_id : ℕ
  pub payload : EventPayload
  pub created_at : ℕ

pub data ChainName : Type 0 where
  ethereum soroban : ChainName

abbrev pub chain_name_beq : ChainName → ChainName → Bool
chain_name_beq ethereum ethereum = true
chain_name_beq soroban soroban = true
chain_name_beq _ _ = false

pub record ChainCursor : Type 0 where
  pub chain : ChainName
  pub network_id : Text
  pub position : ℕ
  pub cursor : Option Text

pub record Store : Type 0 where
  pub clock : ℕ
  pub orders : List OrderRow
  pub order_events : List OrderEvent
  pub next_order_id : ℕ
  pub next_event_id : ℕ
  pub chain_cursors : List ChainCursor
  pub processed_events : List Text
  pub orders_total : List OrderStatus
  pub illegal_order_transitions : List OrderFailureCode

abbrev pub has_public_id : Text → OrderRow → Bool
has_public_id public_id row = row.public_id == public_id

-- `UPDATE orders SET … WHERE public_id = :publicId`
unfoldable pub update_where : Text → (OrderRow → OrderRow) → List OrderRow → List OrderRow
update_where public_id set [] = []
update_where public_id set (row ∷ rows) =
    (if has_public_id public_id row then set row else row) ∷ update_where public_id set rows

unfoldable pub find_row : Text → List OrderRow → Option OrderRow
find_row public_id rows = find (has_public_id public_id) rows

unfoldable pub find_by_public_id : Text → Action Store (Option OrderRow)
find_by_public_id public_id = gets (λ s. find_row public_id s.orders)

unfoldable pub find_by_hashlock : Text → Action Store (Option OrderRow)
find_by_hashlock hashlock = gets (λ s. find (λ row. row.hashlock == hashlock) s.orders)

unfoldable pub find_by_preimage : Text → Action Store (Option OrderRow)
find_by_preimage preimage = gets (λ s. find (λ row. row.preimage == some preimage) s.orders)

unfoldable pub find_by_src_order_id : Chain → Text → Action Store (Option OrderRow)
find_by_src_order_id chain order_id =
    gets (λ s.
      find (λ row. chain_beq row.src_chain chain && row.src_order_id == some order_id) s.orders)

unfoldable pub find_by_dst_order_id : Chain → Text → Action Store (Option OrderRow)
find_by_dst_order_id chain order_id =
    gets (λ s.
      find (λ row. chain_beq row.dst_chain chain && row.dst_order_id == some order_id) s.orders)

-- `insertEvent`
unfoldable pub insert_event : ℕ → EventPayload → Action Store (Unit {0})
insert_event order_id payload = modify (λ s. record s {
  order_events =
      s.order_events
      ++ record {
        id = s.next_event_id;
        order_id = order_id;
        payload = payload;
        created_at = s.clock;
      }
        ∷ [];
  next_event_id = s.next_event_id + 1;
})

-- `recordTransition`
unfoldable pub record_transition :
    ℕ → Option OrderStatus → OrderStatus → Option Text → Text → Action Store (Unit {0})
unfolding insert_event
record_transition order_id from to tx_hash category =
    insert_event order_id (transition_summary from to tx_hash category)

-- The shape that the four writers share: load the order, update its row, record the transition.
unfoldable pub write_order :
    Text → (ℕ → OrderRow → OrderRow) → OrderStatus → Option Text → Text → Action Store (Unit {0})
unfolding find_by_public_id record_transition
write_order public_id set to tx_hash category = do
  found ← find_by_public_id public_id
  elim found [
    | none ↦ throw repo_unknown_order
    | some order ↦ do
      modify (λ s. record s { orders = update_where public_id (set s.clock) s.orders })
      record_transition order.id (some order.status) to tx_hash category
  ]

-- The category that `setStatus` records is the status itself.
abbrev pub category_of : OrderStatus → Text
category_of announced = text "announced"
category_of src_locked = text "src_locked"
category_of dst_locked = text "dst_locked"
category_of secret_revealed = text "secret_revealed"
category_of completed = text "completed"
category_of refunded = text "refunded"
category_of failed = text "failed"
category_of expired = text "expired"

-- `updateStatus`, `updateSrcLock`, `updateDstLock` and `updateSecret`: what each statement sets.
abbrev pub set_status_columns : OrderStatus → ℕ → OrderRow → OrderRow
set_status_columns status now row = record row { status = status; updated_at = now }

abbrev pub after_src_lock : OrderStatus → OrderStatus
after_src_lock announced = src_locked
after_src_lock status = status

abbrev pub after_dst_lock : OrderStatus → OrderStatus
after_dst_lock announced = dst_locked
after_dst_lock src_locked = dst_locked
after_dst_lock status = status

abbrev pub src_lock_columns : LockInput → ℕ → OrderRow → OrderRow
src_lock_columns input now row = record row {
  src_order_id = some input.order_id;
  src_lock_tx = some input.tx_hash;
  src_lock_block = some input.block_number;
  src_timelock = some input.timelock;
  status = after_src_lock row.status;
  updated_at = now;
}

abbrev pub dst_lock_columns : LockInput → Option Text → ℕ → OrderRow → OrderRow
dst_lock_columns input resolver now row = record row {
  dst_order_id = some input.order_id;
  dst_lock_tx = some input.tx_hash;
  dst_lock_block = some input.block_number;
  dst_timelock = some input.timelock;
  resolver_address = resolver;
  status = after_dst_lock row.status;
  updated_at = now;
}

abbrev pub secret_columns : Text → Text → ℕ → OrderRow → OrderRow
secret_columns preimage tx_hash now row = record row {
  preimage = some preimage;
  secret_revealed_tx = some tx_hash;
  status = secret_revealed;
  updated_at = now;
}

unfoldable pub set_status : Text → OrderStatus → Option Text → Action Store (Unit {0})
unfolding write_order
set_status public_id status tx_hash =
    write_order public_id (set_status_columns status) status tx_hash (category_of status)

unfoldable pub record_src_lock : LockInput → Action Store (Unit {0})
unfolding write_order
record_src_lock input =
    write_order input.public_id (src_lock_columns input) src_locked (some input.tx_hash)
      (text "src_locked")

unfoldable pub record_dst_lock : LockInput → Option Text → Action Store (Unit {0})
unfolding write_order
record_dst_lock input resolver =
    write_order input.public_id (dst_lock_columns input resolver) dst_locked (some input.tx_hash)
      (text "dst_locked")

unfoldable pub record_secret_revealed : Text → Text → Text → Action Store (Unit {0})
unfolding write_order
record_secret_revealed public_id preimage tx_hash =
    write_order public_id (secret_columns preimage tx_hash) secret_revealed (some tx_hash)
      (text "secret_revealed")

unfoldable pub record_rejected_transition : TransitionRejectionInfo → Action Store (Unit {0})
unfolding find_by_public_id insert_event
record_rejected_transition info = do
  found ← find_by_public_id info.public_id
  elim found [
    | none ↦ throw repo_unknown_order
    | some order ↦ insert_event order.id (transition_rejected info)
  ]

-- The row that `insertStmt` inserts; the columns that it does not name are NULL or defaults.
abbrev pub announced_row : Text → AnnounceOrderInput → Store → OrderRow
announced_row public_id input s = record {
  id = s.next_order_id;
  public_id = public_id;
  direction = input.direction;
  status = announced;
  hashlock = input.hashlock;
  src_chain = input.src_chain;
  src_address = input.src_address;
  src_asset = input.src_asset;
  src_amount = input.src_amount;
  src_safety_deposit = input.src_safety_deposit;
  src_order_id = none;
  src_lock_tx = none;
  src_lock_block = none;
  src_timelock = none;
  dst_chain = input.dst_chain;
  dst_address = input.dst_address;
  dst_asset = input.dst_asset;
  dst_amount = input.dst_amount;
  dst_order_id = none;
  dst_lock_tx = none;
  dst_lock_block = none;
  dst_timelock = none;
  preimage = none;
  secret_revealed_tx = none;
  resolver_address = none;
  fixture = false;
  created_at = s.clock;
  updated_at = s.clock;
}

-- An INSERT fails where the public id is taken.
unfoldable pub insert_order : Text → AnnounceOrderInput → Action Store (Unit {0})
insert_order public_id input s = elim (find_row public_id s.orders) [
  | some taken ↦ (err unique_violation, s)
  | none ↦ (
    ok tt,
    record s {
      orders = s.orders ++ announced_row public_id input s ∷ [];
      next_order_id = s.next_order_id + 1;
    },
  )
]

-- `announce`; `randomBytes(16)` is the argument `public_id`.
unfoldable pub announce : Text → AnnounceOrderInput → Action Store OrderRow
unfolding insert_order find_by_public_id record_transition
announce public_id input = do
  insert_order public_id input
  row ← find_by_public_id public_id
  elim row [
    | none ↦ throw insert_failed
    | some order ↦ do record_transition order.id none announced none (text "created"); pure order
  ]
