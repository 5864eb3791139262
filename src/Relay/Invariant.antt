-- ===== src/Relay/Invariant.antt =====
-- What holds of a tracker between two steps: an order has at most one submission that has not failed,
-- and a record's status, hash, count of broadcasts and operation fit together.
pub mod Writes
pub mod Lookups
pub mod Restart
pub mod Moves
pub mod Polls
pub mod Submits
pub mod Reach
use over_sync.Prelude.{
  ℕ, suc, ◌≤◌, ◌<◌, ◌≡◌, ◌≢◌, refl, Bool, true, false, Option, none, some, List, [], ◌∷◌, includes,
  All, Pairwise, Text, is_empty, nat_eq,
}
use over_sync.Relay.Records.{RelayStatus, in_flight, pending, succeeded, failed, SubmissionRecord}
use over_sync.Relay.Tracker.{
  Task, idle, reserved, staging, broadcasting, attached, polling, sleeping, Tracker,
}
use over_sync.Relay.Restore.{is_set}
use over_sync.Relay.Steps.{View, raw, view}

-- A submission that holds the lock of its order.
abbrev pub is_live : RelayStatus → Bool
is_live failed = false
is_live _ = true

-- Two submissions that may stand side by side.
abbrev pub Apart : View → View → Type 0
Apart v w =
    (v.key ≢ w.key)
    × (is_live v.status ≡ true → is_live w.status ≡ true → v.order_key ≢ w.order_key)

-- A record with a hash has been broadcast once, and one without never.
abbrev pub sent_with : Bool → ℕ
sent_with true = 1
sent_with false = 0

-- The hash that a status asks for.
abbrev pub HashFits : RelayStatus → Bool → Type 0
HashFits in_flight has_hash = has_hash ≡ false
HashFits failed has_hash = Unit
HashFits _ has_hash = has_hash ≡ true

abbrev pub SoundView : View → Type 0
SoundView v =
    (v.broadcasts ≡ sent_with (is_set v.tx_hash))
    × HashFits v.status (is_set v.tx_hash)
    × (is_empty v.key ≡ false)
    × (is_empty v.order_key ≡ false)

-- The operation that a status goes with.
abbrev pub task_fits : RelayStatus → Task → Bool
task_fits in_flight reserved = true
task_fits in_flight staging = true
task_fits in_flight _ = false
task_fits pending reserved = false
task_fits pending staging = false
task_fits pending _ = true
task_fits _ idle = true
task_fits _ _ = false

abbrev pub IsSound : SubmissionRecord → Task → Type 0
IsSound r t = SoundView (raw r) × (task_fits r.status t ≡ true)

pub record Inv (heap : ℕ → SubmissionRecord) (next : ℕ) (records : List ℕ) (tasks : ℕ → Task)
    : Type 0 where
  -- the numbers from `next` on are not used yet
  pub fresh : (i : ℕ) → next ≤ i → tasks i ≡ idle
  pub below : All (λ i. i < next) records
  -- what the Map does not hold any more has failed
  pub kept : (i : ℕ) → i < next → is_live (heap i).status ≡ true → includes records i ≡ true
  pub apart : Pairwise (λ i j. Apart (raw (heap i)) (raw (heap j))) records
  pub sound : (i : ℕ) → i < next → IsSound (heap i) (tasks i)

abbrev pub Holds : Tracker → Type 0
Holds s = Inv s.heap s.next s.records s.tasks
