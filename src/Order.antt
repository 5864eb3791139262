-- ===== src/Order.antt =====
-- The row of an order and the inputs that write one: the types of
-- coordinator/src/persistence/orders-repo.ts. A column that may be NULL is an `Option`.
use over_sync.Prelude.{ℕ, ◌≡◌, refl, ◌↔◌, Bool, true, false, Option, Text, arith}
use over_sync.Status.{OrderStatus}

pub data Chain : Type 0 where
  ethereum stellar : Chain

pub data Direction : Type 0 where
  eth_to_xlm xlm_to_eth : Direction

abbrev pub chain_beq : Chain → Chain → Bool
chain_beq ethereum ethereum = true
chain_beq stellar stellar = true
chain_beq _ _ = false

pub chain_beq_iff : (a b : Chain) → (chain_beq a b ≡ true) ↔ (a ≡ b)
chain_beq_iff ethereum ethereum = (λ _. refl, λ _. refl)
chain_beq_iff _ _ = (λ h. ground arith, λ h. ground arith)

pub record OrderRow : Type 0 where
  pub id : ℕ
  pub public_id : Text
  pub direction : Direction
  pub status : OrderStatus
  pub hashlock : Text
  pub src_chain : Chain
  pub src_address : Text
  pub src_asset : Text
  pub src_amount : Text
  pub src_safety_deposit : Text
  pub src_order_id : Option Text
  pub src_lock_tx : Option Text
  pub src_lock_block : Option ℕ
  pub src_timelock : Option ℕ
  pub dst_chain : Chain
  pub dst_address : Text
  pub dst_asset : Text
  pub dst_amount : Text
  pub dst_order_id : Option Text
  pub dst_lock_tx : Option Text
  pub dst_lock_block : Option ℕ
  pub dst_timelock : Option ℕ
  pub preimage : Option Text
  pub secret_revealed_tx : Option Text
  pub resolver_address : Option Text
  pub fixture : Bool
  pub created_at : ℕ
  pub updated_at : ℕ

-- The arguments of `recordSrcLock` and `recordDstLock`.
pub record LockInput : Type 0 where
  pub public_id : Text
  pub order_id : Text
  pub tx_hash : Text
  pub block_number : ℕ
  pub timelock : ℕ

pub record AnnounceOrderInput : Type 0 where
  pub direction : Direction
  pub hashlock : Text
  pub src_chain : Chain
  pub src_address : Text
  pub src_asset : Text
  pub src_amount : Text
  pub src_safety_deposit : Text
  pub dst_chain : Chain
  pub dst_address : Text
  pub dst_asset : Text
  pub dst_amount : Text
