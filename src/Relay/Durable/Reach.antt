-- ===== src/Relay/Durable/Reach.antt =====
-- The store in every state that a tracker reaches.
use over_sync.Prelude.{◌≡◌, refl, true, some, List, []}
use over_sync.Relay.Records.{PersistedSubmission}
use over_sync.Relay.Tracker.{RelayTrackerConfig, Tracker}
use over_sync.Relay.Drive.{attempted, staging_error, broadcast_done, confirmation_of, poll_answer}
use over_sync.Relay.Restore.{start, restore, restore_entries}
use over_sync.Relay.Steps.{
  Saved, Step, submitted, begun, not_staged, is_staged, done, not_done, taken_up, polled, woken,
  forgotten, restarted, Reach, new, next, Allowed, IsOrderly, IsCareful, WholeStore,
}
use over_sync.Relay.Invariant.{Holds}
use over_sync.Relay.Invariant.Moves.{staging_error-Holds, broadcast_done-Holds}
use over_sync.Relay.Invariant.Polls.{poll_answer-Holds}
use over_sync.Relay.Invariant.Reach.{Reach-Holds}
use over_sync.Relay.Durable.{
  put-Saved, poll-Saved, reconcile-Saved, broadcast_failed-Saved, written, staged-Saved,
  confirmed-disk,
}
use over_sync.Relay.Durable.Submits.{submit-Saved, forget-Saved, restart-Saved}

module _ (cfg : RelayTrackerConfig) (stored : cfg.has_store ≡ true)
    (saves : (l : List PersistedSubmission) → cfg.save l ≡ some l) where
  Step-Saved :
      {s t : Tracker} (step : Step cfg s t)
      → Allowed cfg (Saved cfg) step
      → Holds s
      → Saved cfg s
      → Saved cfg t
  Step-Saved {s} (submitted action running now known) _ inv saved =
      submit-Saved cfg stored saves action running now s inv saved
  Step-Saved {s} (begun i now e) _ inv saved =
      put-Saved cfg stored saves s i (attempted (s.heap i) now) refl saved
  Step-Saved {s} (not_staged i message retryable now e) _ inv saved =
      written cfg stored saves (staging_error cfg i message retryable now s).1
        (staging_error-Holds cfg s inv i message retryable now e) (simp (stored, saves))
  Step-Saved {s} (is_staged i submission now e) _ inv saved =
      staged-Saved cfg stored saves s inv i submission now e
  Step-Saved {s} (done i result now e) _ inv saved =
      written cfg stored saves (broadcast_done cfg i result now s).1
        (broadcast_done-Holds cfg s inv i result now e) (simp (stored, saves))
  Step-Saved {s} (not_done i message now e) _ inv saved =
      broadcast_failed-Saved cfg stored saves s inv i message now e
  Step-Saved {s} (taken_up i now e) _ inv saved =
      reconcile-Saved cfg stored saves s i true now saved
  Step-Saved {s} (polled i polls duplicate reply now e) _ inv saved =
      written cfg stored saves (poll_answer cfg i polls duplicate reply now s).1
        (poll_answer-Holds cfg s inv i polls duplicate reply now e)
        (confirmed-disk cfg stored saves s i polls duplicate (confirmation_of reply).state
          (confirmation_of reply) now)
  Step-Saved {s} (woken i polls duplicate now e) _ inv saved =
      poll-Saved cfg stored saves s i polls duplicate now saved
  Step-Saved {s} (forgotten key) allowed inv saved =
      forget-Saved cfg stored saves key s inv allowed saved
  Step-Saved {s} restarted ready inv saved = restart-Saved cfg stored saves s inv saved

  start-Saved : Saved cfg (start cfg [])
  unfolding start restore restore_entries
  start-Saved = rw stored refl

  pub Reach-Saved : {s : Tracker} (r : Reach cfg s) → IsOrderly cfg (Saved cfg) r → Saved cfg s
  Reach-Saved new orderly = start-Saved
  Reach-Saved (next r st) orderly =
      Step-Saved st orderly.1 (Reach-Holds r orderly.0) (Reach-Saved r orderly.0)

-- A store that holds whole snapshots has everything saved at a restart.
Allowed-Saved :
    {cfg : RelayTrackerConfig} {s t : Tracker} (step : Step cfg s t)
    → (WholeStore cfg → Saved cfg s)
    → Allowed cfg (λ _. WholeStore cfg) step
    → Allowed cfg (Saved cfg) step
Allowed-Saved (forgotten key) saved allowed = allowed
Allowed-Saved restarted saved allowed = saved allowed
Allowed-Saved (submitted _ _ _ _) saved allowed = tt
Allowed-Saved (begun _ _ _) saved allowed = tt
Allowed-Saved (not_staged _ _ _ _ _) saved allowed = tt
Allowed-Saved (is_staged _ _ _ _) saved allowed = tt
Allowed-Saved (done _ _ _ _) saved allowed = tt
Allowed-Saved (not_done _ _ _ _) saved allowed = tt
Allowed-Saved (taken_up _ _ _) saved allowed = tt
Allowed-Saved (polled _ _ _ _ _ _) saved allowed = tt
Allowed-Saved (woken _ _ _ _ _) saved allowed = tt

pub IsCareful-Saved :
    {cfg : RelayTrackerConfig} {s : Tracker} (r : Reach cfg s)
    → IsCareful cfg r
    → IsOrderly cfg (Saved cfg) r
IsCareful-Saved new careful = tt
IsCareful-Saved {cfg} (next r st) careful =
    let before = IsCareful-Saved r careful.0 in
    (before, Allowed-Saved st (λ whole. Reach-Saved cfg whole.0 whole.1 r before) careful.1)
