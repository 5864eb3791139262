-- ===== src/Machine/Table.antt =====
-- The tables that are folded from the edges: what they hold, and that they agree.
use over_sync.Prelude.{◌≡◌, refl, ◌↔◌, ◌⊎◌, Bool, true, false, some, none, Option, arith, includes}
use over_sync.Status.{
  OrderStatus, announced, src_locked, dst_locked, secret_revealed, completed, refunded, failed,
  expired, status_eq, OrderTransitionAction, escrow, secret_relay, secret, claim, refund, fail,
  expire,
}
use over_sync.Machine.{
  action_target_status, legal_sources_for, action_for_status, can_transition, is_terminal,
}

-- The status that an action writes, written out.
abbrev pub target_of : OrderTransitionAction → OrderStatus
target_of escrow = src_locked
target_of secret_relay = dst_locked
target_of secret = secret_revealed
target_of claim = completed
target_of refund = refunded
target_of fail = failed
target_of expire = expired

pub action_target_status_lem :
    (a : OrderTransitionAction) → action_target_status a ≡ some (target_of a)
unfolding action_target_status
action_target_status_lem escrow = refl
action_target_status_lem _ = refl

-- Looking up an action by its target status finds that action again.
pub action_for_status-target_of :
    (a : OrderTransitionAction) → action_for_status (target_of a) ≡ some a
unfolding action_for_status
action_for_status-target_of escrow = refl
action_for_status-target_of _ = refl

-- Legality as the per-action index tells it: a status that no action writes cannot be entered.
abbrev pub legal_by_index : OrderStatus → Option OrderTransitionAction → Bool
legal_by_index from none = false
legal_by_index from (some a) = includes (legal_sources_for a) from

-- For every pair of statuses the transition table allows the step exactly when the action that
-- writes the second status lists the first among its legal sources; a status that no action writes
-- is never entered.
pub can_transition-legal_sources_for :
    (from to : OrderStatus) → can_transition from to ≡ legal_by_index from (action_for_status to)
unfolding can_transition legal_sources_for action_for_status
can_transition-legal_sources_for from to = ground arith

abbrev pub IsSettled : OrderStatus → Type 0
IsSettled s = (s ≡ completed) ⊎ (s ≡ refunded) ⊎ (s ≡ failed)

-- The statuses with no way out are completed, refunded and failed, and no others.
pub is_terminal_iff : (s : OrderStatus) → (is_terminal s ≡ true) ↔ IsSettled s
unfolding is_terminal
is_terminal_iff announced = (λ h. ground arith, λ h. ground arith)
is_terminal_iff _ = (λ h. ground arith, λ h. ground arith)
