-- ===== src/Sdk/StateMachine.antt =====
-- packages/sdk/src/state-machine/index.ts: the table of transitions that clients use, written out by
-- hand there, against the coordinator's table, which is folded from the list of edges. The type
-- `OrderStatus` of packages/sdk/src/types/index.ts has the coordinator's eight statuses.
use over_sync.Prelude.{
  ◌≡◌, refl, Bool, Option, none, some, inl, inr, ap, List, [], ◌∷◌, arith, Bool-cases,
  if◌then◌else◌, includes, is_empty,
}
use over_sync.Status.{
  OrderStatus, announced, src_locked, dst_locked, secret_revealed, completed, refunded, failed,
  expired, status_eq,
}
use over_sync.Machine
use over_sync.Machine.{InvalidTransitionError}

-- `TRANSITIONS`, which `nextStatesOf` copies.
pub next_states_of : OrderStatus → List OrderStatus
next_states_of announced = src_locked ∷ failed ∷ expired ∷ []
next_states_of src_locked = dst_locked ∷ secret_revealed ∷ refunded ∷ failed ∷ expired ∷ []
next_states_of dst_locked = secret_revealed ∷ refunded ∷ failed ∷ expired ∷ []
next_states_of secret_revealed = completed ∷ refunded ∷ failed ∷ []
next_states_of completed = []
next_states_of refunded = []
next_states_of failed = []
next_states_of expired = refunded ∷ failed ∷ []

pub can_transition : OrderStatus → OrderStatus → Bool
unfolding next_states_of
can_transition from to = includes (next_states_of from) to

-- `requireTransition`: the statuses of the error that it throws, if it throws.
pub require_transition : OrderStatus → OrderStatus → Option (OrderStatus × OrderStatus)
unfolding can_transition
require_transition from to = if can_transition from to then none else some (from, to)

pub is_terminal : OrderStatus → Bool
unfolding next_states_of
is_terminal status = is_empty (next_states_of status)

-- The client's table is the coordinator's, entry by entry and in the same order.
pub next_states_of-transitions : (s : OrderStatus) → next_states_of s ≡ Machine.transitions s
unfolding next_states_of Machine.transitions
next_states_of-transitions announced = refl
next_states_of-transitions src_locked = refl
next_states_of-transitions dst_locked = refl
next_states_of-transitions secret_revealed = refl
next_states_of-transitions completed = refl
next_states_of-transitions refunded = refl
next_states_of-transitions failed = refl
next_states_of-transitions expired = refl

same_test : (from to : OrderStatus) → can_transition from to ≡ Machine.can_transition from to
unfolding can_transition Machine.can_transition
same_test from to = ap (λ table. includes table to) (next_states_of-transitions from)

abbrev pub thrown_pair : Option InvalidTransitionError → Option (OrderStatus × OrderStatus)
thrown_pair none = none
thrown_pair (some e) = some (e.from, e.to)

same_throw :
    (from to : OrderStatus)
    → require_transition from to
      ≡ thrown_pair (Machine.require_transition from to (Machine.action_for_status to))
unfolding require_transition Machine.require_transition
same_throw from to = elim (Bool-cases (Machine.can_transition from to)) [
  | inl y ↦ cc (y, same_test from to)
  | inr n ↦ ground (arith, same_test from to)
]

-- The client and the coordinator agree on every pair of statuses: they allow the same steps, call
-- the same statuses terminal, list the same next statuses, and throw on the same pairs an error that
-- names the same two statuses.
pub sdk_agrees :
    (from to : OrderStatus)
    → (next_states_of from ≡ Machine.transitions from)
      × (can_transition from to ≡ Machine.can_transition from to)
      × (is_terminal from ≡ Machine.is_terminal from)
      × (require_transition from to
          ≡ thrown_pair (Machine.require_transition from to (Machine.action_for_status to)))
unfolding is_terminal Machine.is_terminal
sdk_agrees from to = (
  next_states_of-transitions from,
  same_test from to,
  ap is_empty (next_states_of-transitions from),
  same_throw from to,
)
