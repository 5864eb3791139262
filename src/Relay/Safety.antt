-- ===== src/Relay/Safety.antt =====
-- What a tracker promises of the orders and the transactions.
pub mod Restarts
pub mod Forgets
use mathlib.Core.Path.{subst}
use over_sync.Prelude.{
  ℕ, ◌≤◌, ◌<◌, ◌≡◌, ◌≢◌, refl, ap, ◌∙◌, true, false, Bool, none, some, List, [], ◌∷◌, map, Text,
  includes, nat_eq, text_eq, text_beq_iff, ◌==◌, Bool-cases, Option-cases, ◌||◌, arith, inl, inr,
  ◌↔◌,
}
use over_sync.Relay.Records.{
  RelayStatus, in_flight, pending, succeeded, failed, relay_status_eq, relay_status_beq_iff,
  SubmissionRecord, RelayAction,
}
use over_sync.Relay.Tracker.{
  RelayTrackerConfig, Tracker, Task, idle, find_key, find_blocking, without_key, get,
  get_blocking_record, is_blocking, key_of, order_key_of, forget,
}
use over_sync.Relay.Restore.{is_set, start}
use over_sync.Relay.Restore.Idle.{start-AllIdle}
use over_sync.Relay.Steps.{
  View, view, Reach, Saved, IsOrderly, IsCareful, WholeStore, restart_status,
}
use over_sync.Relay.Numbers.{All-includes}
use over_sync.Relay.Invariant.{is_live, sent_with, task_fits, Holds}
use over_sync.Relay.Invariant.Lookups.{
  find_key_found, find_key-none, find_key_absent, find_blocking-none, All-without_key, same_key,
}
use over_sync.Relay.Invariant.Submits.{without_key-absent}
use over_sync.Relay.Invariant.Restart.{start-Restored}
use over_sync.Relay.Invariant.Reach.{Reach-Holds}
use over_sync.Relay.Durable.Reach.{Reach-Saved, IsCareful-Saved}

true_not_false : true ≡ false → {A : Type 0} → A
true_not_false e = absurd (ground arith)

pub careful-Holds :
    {cfg : RelayTrackerConfig} {s : Tracker} (r : Reach cfg s) → IsCareful cfg r → Holds s
careful-Holds r careful = Reach-Holds r (IsCareful-Saved r careful)

pub live_status : (st : RelayStatus) → st ≢ failed → is_live st ≡ true
live_status failed n = absurd (n refl)
live_status _ n = refl

-- A record that the loop of `getBlockingRecord` stops at, and one that it passes by
pub blocking_is_live :
    (r : SubmissionRecord) (order_key key : Text)
    → is_blocking order_key key r ≡ true
    → (r.order_key ≡ order_key) × (is_live r.status ≡ true)
blocking_is_live r order_key key h = ground (
  arith,
  (text_beq_iff r.order_key order_key).0,
  (relay_status_beq_iff r.status failed).1,
  live_status r.status,
)

not_blocking :
    (r : SubmissionRecord) (order_key key : Text)
    → r.status ≢ failed
    → r.order_key ≡ order_key
    → r.key ≢ key
    → is_blocking order_key key r ≡ false
    → true ≡ false
not_blocking r order_key key n e d h = ground (
  arith,
  (text_beq_iff r.order_key order_key).1 e,
  (relay_status_beq_iff r.status failed).0,
  (text_beq_iff r.key key).0,
)

at_most_once : (b : ℕ) (h : Bool) → b ≡ sent_with h → (b ≤ 1) × ((b ≡ 1) ↔ (h ≡ true))
at_most_once b true e = (omega arith, (λ _. refl, λ _. e))
at_most_once b false e = (omega arith, (λ o. absurd (omega arith), λ h. absurd (ground arith)))

-- In every state that a tracker reaches without a `forget` of a record in flight, and with all that a
-- restart has to find in the store at each restart, a submission has been broadcast at most once, and it
-- has been broadcast exactly if it has a hash.
pub broadcast_at_most_once :
    {cfg : RelayTrackerConfig} {s : Tracker} (r : Reach cfg s)
    → IsOrderly cfg (Saved cfg) r
    → (i : ℕ) → i < s.next
    → ((s.heap i).broadcasts ≤ 1)
      × (((s.heap i).broadcasts ≡ 1) ↔ (is_set (s.heap i).tx_hash ≡ true))
broadcast_at_most_once {s = s} r orderly i lt =
    at_most_once (s.heap i).broadcasts (is_set (s.heap i).tx_hash)
      ((Reach-Holds r orderly).sound i lt).0.0

-- The key of a record that the Map holds finds it.
pub get_held :
    (s : Tracker) (i : ℕ) → Holds s → includes s.records i ≡ true → get (s.heap i).key s ≡ some i
get_held s i inv m = elim (Option-cases (get (s.heap i).key s)) [
  | inl absent ↦
      absurd
        (All-includes _ s.records i (find_key-none s.heap (s.heap i).key s.records absent) m refl)
  | inr (j, found) ↦
      let at = find_key_found s.heap (s.heap i).key s.records j found in
      found ∙ ap some (same_key inv j i at.0 m at.1)
]

-- `getBlockingRecord` does not pass by a submission that has not failed.
pub live_submission_blocks :
    {cfg : RelayTrackerConfig} {s : Tracker} (r : Reach cfg s)
    → IsCareful cfg r
    → (i : ℕ) (action : RelayAction) → i < s.next
    → (s.heap i).status ≢ failed
    → (s.heap i).order_key ≡ order_key_of cfg action
    → (s.heap i).key ≢ key_of cfg action
    → get_blocking_record cfg action s ≢ none
live_submission_blocks {cfg} {s} r careful i action lt alive same other free =
    let held = (careful-Holds r careful).kept i lt (live_status (s.heap i).status alive) in
    absurd (
      true_not_false (
        not_blocking (s.heap i) (order_key_of cfg action) (key_of cfg action) alive same other (
          All-includes _ s.records i
            (find_blocking-none s.heap (order_key_of cfg action) (key_of cfg action) s.records free)
            held)))
