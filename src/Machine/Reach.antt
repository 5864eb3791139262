-- ===== src/Machine/Reach.antt =====
-- The lifecycles of an order: sequences of legal steps, whatever the writers and events are.
use over_sync.Prelude.{
  ℕ, suc, Bool, ◌+◌, ◌≤◌, ◌≡◌, refl, ◌≢◌, inl, inr, true, false, List, [], ◌∷◌, arith, length,
  includes, Bool-cases, ◌==◌, if◌then◌else◌,
}
use over_sync.Status.{
  OrderStatus, announced, src_locked, dst_locked, secret_revealed, completed, refunded, failed,
  expired, status_eq,
}
use over_sync.Machine.{can_transition}

-- `Run s path t`: legal steps lead from `s` through the statuses of `path`, of which the last is `t`.
pub data Run : OrderStatus → List OrderStatus → OrderStatus → Type 0 where
  stay : {s : OrderStatus} → Run s [] s
  move :
      {s t u : OrderStatus} {path : List OrderStatus}
      → can_transition s t ≡ true
      → Run t path u
      → Run s (t ∷ path) u

-- How many steps of a longest lifecycle lie behind a status.
abbrev depth : OrderStatus → ℕ
depth announced = 0
depth src_locked = 1
depth dst_locked = 2
depth secret_revealed = 3
depth expired = 3
depth completed = 4
depth refunded = 4
depth failed = 4

depth-can_transition : (s t : OrderStatus) → can_transition s t ≡ true → depth s + 1 ≤ depth t
unfolding can_transition
depth-can_transition announced announced h = ground arith
depth-can_transition _ _ h = ground arith

depth-Run :
    {s u : OrderStatus} {path : List OrderStatus} → Run s path u → depth s + length path ≤ depth u
depth-Run stay = omega arith
depth-Run (move {s = s} {t = t} h r) = omega (arith, depth-can_transition s t h, depth-Run r)

depth_capped : (s : OrderStatus) → depth s ≤ 4
depth_capped announced = omega arith
depth_capped _ = omega arith

-- Every lifecycle ends: no order takes more than four steps, whatever sequence of legal steps it
-- takes and wherever it starts.
pub Run_bounded : (s u : OrderStatus) (path : List OrderStatus) → Run s path u → length path ≤ 4
Run_bounded s u path r = omega (arith, depth-Run r, depth_capped u)

step_into_completed : (s : OrderStatus) → can_transition s completed ≡ true → s ≡ secret_revealed
unfolding can_transition
step_into_completed announced h = ground arith
step_into_completed _ h = ground arith

-- A lifecycle that reaches completed, from any other status, passes through secret_revealed.
pub completed-secret_revealed :
    {s : OrderStatus} {path : List OrderStatus}
    → Run s path completed
    → s ≢ completed
    → includes (s ∷ path) secret_revealed ≡ true
completed-secret_revealed stay n = absurd (n refl)
completed-secret_revealed (move {s = s} {t = t} {path = path} h r) n =
    elim (Bool-cases (t == completed)) [
      | inl last ↦ ground (arith, step_into_completed s, (status_eq.equals_iff t completed).0 last)
      | inr more ↦
          ground
            (arith, completed-secret_revealed r (λ e. cc ((status_eq.equals_iff t completed).1 e)))
    ]

-- The statuses that settle an order
abbrev pub is_settlement : OrderStatus → Bool
is_settlement completed = true
is_settlement refunded = true
is_settlement failed = true
is_settlement _ = false

-- How many of the statuses are settlements of the order.
abbrev pub settlements : List OrderStatus → ℕ
settlements [] = 0
settlements (s ∷ path) = let rest = settlements path in if is_settlement s then suc rest else rest

step_from_is_settlement : (s t : OrderStatus) → is_settlement s ≡ true → can_transition s t ≡ false
unfolding can_transition
step_from_is_settlement s t h = ground arith

-- An order is settled at most once: a lifecycle visits at most one of completed, refunded and
-- failed, and nothing comes after it.
pub settled_once :
    {s u : OrderStatus} {path : List OrderStatus}
    → Run s path u
    → (settlements (s ∷ path) ≤ 1) × (is_settlement s ≡ true → path ≡ [])
settled_once {s} stay = elim (Bool-cases (is_settlement s)) [
  | inl settles ↦ rw settles (omega arith, λ h. refl)
  | inr other ↦ rw other (omega arith, λ h. refl)
]
settled_once (move {s = s} {t = t} m r) =
    ground (arith, settled_once r, step_from_is_settlement s t)
