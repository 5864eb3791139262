-- ===== src/Service/Repeats/Requests.antt =====
-- What the methods' requests write, and that the rows they write hold the facts of the request.
use over_sync.Prelude.{
  ℕ, ◌≡◌, true, Option, some, arith, Text, text, text_eq, option_eq, ==_refl, nat_eq,
}
use over_sync.Status.{OrderStatus, src_locked, dst_locked, secret_revealed, status_eq}
use over_sync.Machine.{can_transition}
use over_sync.Order.{OrderRow, LockInput}
use over_sync.Errors.{ok}
use over_sync.Store
use over_sync.Store.{
  Store, find_row, update_where, find_by_public_id, set_status, set_status_columns,
  src_lock_columns, dst_lock_columns, secret_columns, category_of, write_order,
  record_secret_revealed,
}
use over_sync.Service.{
  is_redelivery, src_lock_request, dst_lock_request, assert_timelocks_at_creation,
}

-- Each method's request: what its write leaves, and that the write settles the request.
pub src_lock-writes :
    (min_gap : ℕ) (input : LockInput) (writer : Option Text) (order : OrderRow) (s : Store)
    → let out = (src_lock_request min_gap input writer).apply order s in
      out.0 ≡ ok tt
      → out.1.orders ≡ update_where input.public_id (src_lock_columns input s.clock) s.orders
unfolding assert_timelocks_at_creation Store.record_src_lock write_order
src_lock-writes min_gap input writer order s h = ground arith

pub dst_lock-writes :
    (min_gap : ℕ) (input : LockInput) (resolver writer : Option Text) (order : OrderRow) (s : Store)
    → let out = (dst_lock_request min_gap input resolver writer).apply order s in
      out.0 ≡ ok tt
      → out.1.orders
        ≡ update_where input.public_id (dst_lock_columns input resolver s.clock) s.orders
unfolding assert_timelocks_at_creation Store.record_dst_lock write_order
dst_lock-writes min_gap input resolver writer order s h = ground arith

pub write_order-writes :
    (id : Text) (set : ℕ → OrderRow → OrderRow) (to : OrderStatus) (tx : Option Text)
    (category : Text) (s : Store)
    → (write_order id set to tx category s).0 ≡ ok tt
    → (write_order id set to tx category s).1.orders ≡ update_where id (set s.clock) s.orders
unfolding write_order
write_order-writes id set to tx category s h = ground arith

pub src_lock-settles :
    (min_gap : ℕ) (input : LockInput) (writer : Option Text) (now : ℕ) (order : OrderRow)
    → can_transition order.status src_locked ≡ true
    → let row = src_lock_columns input now order in
      (row.status ≡ src_locked)
      × (is_redelivery (src_lock_request min_gap input writer).is_same_step row ≡ true)
unfolding can_transition
src_lock-settles min_gap input writer now order h =
    rw
      (
        ==_refl input.order_id,
        ==_refl input.tx_hash,
        ==_refl input.block_number,
        ==_refl input.timelock,
      )
      (ground arith)

pub dst_lock-settles :
    (min_gap : ℕ) (input : LockInput) (resolver writer : Option Text) (now : ℕ) (order : OrderRow)
    → can_transition order.status dst_locked ≡ true
    → let row = dst_lock_columns input resolver now order in
      (row.status ≡ dst_locked)
      × (is_redelivery (dst_lock_request min_gap input resolver writer).is_same_step row ≡ true)
unfolding can_transition
dst_lock-settles min_gap input resolver writer now order h =
    rw
      (
        ==_refl input.order_id,
        ==_refl input.tx_hash,
        ==_refl input.block_number,
        ==_refl input.timelock,
        ==_refl resolver,
      )
      (ground arith)

pub set_status-writes :
    (id : Text) (status : OrderStatus) (tx : Option Text) (s : Store)
    → (set_status id status tx s).0 ≡ ok tt
    → (set_status id status tx s).1.orders
      ≡ update_where id (set_status_columns status s.clock) s.orders
unfolding set_status
set_status-writes id status tx s h =
    write_order-writes id (set_status_columns status) status tx (category_of status) s h

pub record_secret_revealed-writes :
    (id preimage tx : Text) (s : Store)
    → (record_secret_revealed id preimage tx s).0 ≡ ok tt
    → (record_secret_revealed id preimage tx s).1.orders
      ≡ update_where id (secret_columns preimage tx s.clock) s.orders
unfolding record_secret_revealed
record_secret_revealed-writes id preimage tx s h =
    write_order-writes id (secret_columns preimage tx) secret_revealed (some tx)
      (text "secret_revealed") s h
