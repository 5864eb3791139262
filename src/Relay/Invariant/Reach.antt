-- ===== src/Relay/Invariant/Reach.antt =====
-- The invariant in every state that a tracker reaches.
use over_sync.Prelude.{refl, true, Bool-cases, inl, inr}
use over_sync.Relay.Tracker.{RelayTrackerConfig, Tracker, attached}
use over_sync.Relay.Steps.{
  Step, submitted, begun, not_staged, is_staged, done, not_done, taken_up, polled, woken, forgotten,
  restarted, Reach, new, next, Saved, Allowed, IsOrderly,
}
use over_sync.Relay.Invariant.{Holds}
use over_sync.Relay.Invariant.Restart.{start-Restored, start-Holds_no_store, start-Holds_empty}
use over_sync.Relay.Invariant.Moves.{
  after, begin_broadcast-Holds, staging_error-Holds, staged-Holds, broadcast_done-Holds,
  reconcile-Holds, poll-Holds,
}
use over_sync.Relay.Invariant.Polls.{broadcast_failed-Holds, poll_answer-Holds}
use over_sync.Relay.Invariant.Submits.{submit-Holds, forget-Holds}

pub Step-Holds :
    {cfg : RelayTrackerConfig} {s t : Tracker} (step : Step cfg s t)
    → Allowed cfg (Saved cfg) step
    → Holds s
    → Holds t
Step-Holds {cfg} {s} (submitted action running now known) _ inv =
    submit-Holds cfg action running now s inv
Step-Holds {cfg} {s} (begun i now e) _ inv = begin_broadcast-Holds cfg s inv i now e
Step-Holds {cfg} {s} (not_staged i message retryable now e) _ inv =
    staging_error-Holds cfg s inv i message retryable now e
Step-Holds {cfg} {s} (is_staged i submission now e) _ inv =
    staged-Holds cfg s inv i submission now e
Step-Holds {cfg} {s} (done i result now e) _ inv = broadcast_done-Holds cfg s inv i result now e
Step-Holds {cfg} {s} (not_done i message now e) _ inv =
    broadcast_failed-Holds cfg s inv i message now e
Step-Holds {cfg} {s} (taken_up i now e) _ inv =
    let at = after cfg s inv i attached e refl in reconcile-Holds cfg s inv i true now at.0 at.1
Step-Holds {cfg} {s} (polled i polls duplicate reply now e) _ inv =
    poll_answer-Holds cfg s inv i polls duplicate reply now e
Step-Holds {cfg} {s} (woken i polls duplicate now e) _ inv =
    poll-Holds cfg s inv i polls duplicate now e
Step-Holds {cfg} {s} (forgotten key) allowed inv = forget-Holds cfg key s inv allowed
Step-Holds {cfg} {s} restarted saved inv = elim (Bool-cases cfg.has_store) [
  | inl stored ↦ (start-Restored cfg s stored inv saved).0
  | inr without ↦ start-Holds_no_store cfg s.disk without
]

pub Reach-Holds :
    {cfg : RelayTrackerConfig} {s : Tracker} (r : Reach cfg s)
    → IsOrderly cfg (Saved cfg) r
    → Holds s
Reach-Holds {cfg} new orderly = start-Holds_empty cfg
Reach-Holds (next r st) orderly = Step-Holds st orderly.1 (Reach-Holds r orderly.0)
