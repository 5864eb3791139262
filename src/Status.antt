-- ===== src/Status.antt =====
-- The statuses of an order (the type `OrderStatus` of
-- coordinator/src/persistence/orders-repo.ts) and the actions and failure codes of
-- coordinator/src/state-machine/order-machine.ts, with their comparison `===`.
use over_sync.Prelude.{◌≡◌, refl, ◌↔◌, Bool, true, false, arith, JsEqual}

pub data OrderStatus : Type 0 where
  announced src_locked dst_locked secret_revealed completed refunded failed expired : OrderStatus

pub data OrderTransitionAction : Type 0 where
  escrow secret_relay secret claim refund fail expire : OrderTransitionAction

abbrev pub status_beq : OrderStatus → OrderStatus → Bool
status_beq announced announced = true
status_beq src_locked src_locked = true
status_beq dst_locked dst_locked = true
status_beq secret_revealed secret_revealed = true
status_beq completed completed = true
status_beq refunded refunded = true
status_beq failed failed = true
status_beq expired expired = true
status_beq _ _ = false

pub status_beq_iff : (a b : OrderStatus) → (status_beq a b ≡ true) ↔ (a ≡ b)
status_beq_iff announced announced = (λ _. refl, λ _. refl)
status_beq_iff _ _ = (λ h. ground arith, λ h. ground arith)

instance abbrev pub status_eq : JsEqual OrderStatus
status_eq = record { equals = status_beq; equals_iff = status_beq_iff }

abbrev pub action_beq : OrderTransitionAction → OrderTransitionAction → Bool
action_beq escrow escrow = true
action_beq secret_relay secret_relay = true
action_beq secret secret = true
action_beq claim claim = true
action_beq refund refund = true
action_beq fail fail = true
action_beq expire expire = true
action_beq _ _ = false

pub action_beq_iff : (a b : OrderTransitionAction) → (action_beq a b ≡ true) ↔ (a ≡ b)
action_beq_iff escrow escrow = (λ _. refl, λ _. refl)
action_beq_iff _ _ = (λ h. ground arith, λ h. ground arith)

instance abbrev pub action_eq : JsEqual OrderTransitionAction
action_eq = record { equals = action_beq; equals_iff = action_beq_iff }

-- `ORDER_FAILURE_CODES`
pub data OrderFailureCode : Type 0 where
  secret_before_escrow secret_relay_before_escrow claim_before_secret : OrderFailureCode
  refund_after_claim late_step repeated_step conflicting_step : OrderFailureCode
  already_settled not_allowed : OrderFailureCode
