-- ===== src/Relay/Steps.antt =====
-- What may happen to a tracker: a call of `submit`, an await of an operation that ends, `forget`, and
-- a restart of the process. Between two steps nothing runs.
use over_sync.Prelude.{ℕ, ◌≡◌, ◌≢◌, Bool, true, false, Option, some, List, [], map, Text}
use over_sync.Relay.Records.{
  RelayStatus, in_flight, failed, RelayAction, SubmissionRecord, PersistedSubmission,
  StagedSubmission, ConfirmReply,
}
use over_sync.Relay.Tracker.{
  RelayTrackerConfig, idle, reserved, staging, broadcasting, attached, polling, sleeping, Tracker,
  get, key_of, forget,
}
use over_sync.Relay.Submit.{submit}
use over_sync.Relay.Drive.{
  begin_broadcast, staging_error, staged, broadcast_done, broadcast_failed, reconcile, poll,
  poll_answer,
}
use over_sync.Relay.Restore.{restored_record, start}

-- What a restart has to find again of a record.
pub record View : Type 0 where
  pub key : Text
  pub order_key : Text
  pub status : RelayStatus
  pub tx_hash : Option Text
  pub broadcasts : ℕ

abbrev pub restart_status : RelayStatus → RelayStatus
restart_status in_flight = failed
restart_status status = status

-- The view of a record, and the view that is left of it after a restart.
abbrev pub raw : SubmissionRecord → View
raw r = record {
  key = r.key;
  order_key = r.order_key;
  status = r.status;
  tx_hash = r.tx_hash;
  broadcasts = r.broadcasts;
}

abbrev pub view : SubmissionRecord → View
view r = record (raw r) { status = restart_status r.status }

-- The store holds what the memory holds, but for the numbers and times of attempts.
abbrev pub Saved : RelayTrackerConfig → Tracker → Type 0
Saved cfg s = map (λ e. view (restored_record cfg e)) s.disk ≡ map (λ i. view (s.heap i)) s.records

-- `running` is what `inflight` answers for the key: it holds the keys whose operation runs.
abbrev pub Registered : Tracker → Text → Bool → Type 0
Registered s key running = (i : ℕ) → get key s ≡ some i → s.tasks i ≢ idle → running ≡ true

module _ (cfg : RelayTrackerConfig) where
  pub data Step (s : Tracker) : Tracker → Type 0 where
    submitted :
        (action : RelayAction) (running : Bool) (now : ℕ)
        → Registered s (key_of cfg action) running
        → Step s (submit cfg action running now s).1
    begun : (i now : ℕ) → s.tasks i ≡ reserved → Step s (begin_broadcast i now s)
    not_staged :
        (i : ℕ) (message : Text) (retryable : Bool) (now : ℕ)
        → s.tasks i ≡ staging
        → Step s (staging_error cfg i message retryable now s).1
    is_staged :
        (i : ℕ) (submission : StagedSubmission) (now : ℕ)
        → s.tasks i ≡ staging
        → Step s (staged cfg i submission now s).1
    done :
        (i : ℕ) (result : Option Text) (now : ℕ)
        → s.tasks i ≡ broadcasting
        → Step s (broadcast_done cfg i result now s).1
    not_done :
        (i : ℕ) (message : Text) (now : ℕ)
        → s.tasks i ≡ broadcasting
        → Step s (broadcast_failed cfg i message now s).1
    taken_up : (i now : ℕ) → s.tasks i ≡ attached → Step s (reconcile cfg i true now s).1
    polled :
        (i polls : ℕ) (duplicate : Bool) (reply : ConfirmReply) (now : ℕ)
        → s.tasks i ≡ polling polls duplicate
        → Step s (poll_answer cfg i polls duplicate reply now s).1
    woken :
        (i polls : ℕ) (duplicate : Bool) (now : ℕ)
        → s.tasks i ≡ sleeping polls duplicate
        → Step s (poll cfg i polls duplicate now s).1
    -- `forget(key)` without `force`
    forgotten : (key : Text) → Step s (forget cfg key false s).1
    -- the process ends and starts again on what the store holds
    restarted : Step s (start cfg s.disk)

  -- The states that a relayer with an empty store reaches.
  pub data Reach : Tracker → Type 0 where
    new : Reach (start cfg [])
    next : {s t : Tracker} → Reach s → Step s t → Reach t

-- The tracker has a store, and the store holds every snapshot that it is handed, whole.
abbrev pub WholeStore : RelayTrackerConfig → Type 0
WholeStore cfg = (cfg.has_store ≡ true) × ((l : List PersistedSubmission) → cfg.save l ≡ some l)

module _ (cfg : RelayTrackerConfig) (Restarts : Tracker → Type 0) where
  -- What is asked of a step: a record in flight is not forgotten, and a restart is as `Restarts` says.
  abbrev pub Allowed : {s t : Tracker} → Step cfg s t → Type 0
  Allowed {s} (forgotten key) = (i : ℕ) → get key s ≡ some i → (s.heap i).status ≢ in_flight
  Allowed {s} restarted = Restarts s
  Allowed _ = Unit

  -- It is asked of every step on the way to a state.
  abbrev pub IsOrderly : {s : Tracker} → Reach cfg s → Type 0
  IsOrderly new = Unit
  IsOrderly (next r step) = IsOrderly r × Allowed step

-- On the way to a state no record in flight was forgotten, and a restart had a store that holds whole
-- snapshots; without a restart nothing is asked of the store.
abbrev pub IsCareful : (cfg : RelayTrackerConfig) {s : Tracker} → Reach cfg s → Type 0
IsCareful cfg r = IsOrderly cfg (λ _. WholeStore cfg) r
