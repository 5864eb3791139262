-- ===== src/Relay/Restore.antt =====
-- `restore` of relayer/src/relay-submission-tracker.ts with `normalizePersistedStatus`, and the start
-- of a relayer on what its store holds. The numbers of a stored record are taken to be finite, and its
-- texts to be there: `entry.orderKey` may be empty.
pub mod Idle
use over_sync.Prelude.{
  ℕ, ◌+◌, Bool, true, false, ◌||◌, Option, none, some, List, [], ◌∷◌, ◌++◌, ◌==◌, text_eq, is_empty,
  not, if◌then◌else◌, Text, text,
}
use over_sync.Relay.Records.{
  RelayStatus, in_flight, pending, succeeded, failed, RelayTerminalReason, staging_failed,
  SubmissionRecord, StoredStatus, known, unknown, PersistedSubmission,
}
use over_sync.Relay.Keys.{compute_order_key}
use over_sync.Relay.Tracker.{RelayTrackerConfig, idle, Tracker, put}

-- A text that a condition takes as true
abbrev pub is_set : Option Text → Bool
is_set none = false
is_set (some []) = false
is_set (some (c ∷ s)) = true

-- `normalizePersistedStatus`
unfoldable pub normalize_persisted_status :
    StoredStatus → (has_hash : Bool) → Option Text → RelayStatus × Option Text
normalize_persisted_status (known succeeded) has_hash last_error = (succeeded, last_error)
normalize_persisted_status (known failed) has_hash last_error = (failed, last_error)
normalize_persisted_status (known in_flight) has_hash last_error =
    (failed, some (text "relayer restarted before a transaction hash was recorded"))
normalize_persisted_status (known pending) true last_error = (pending, last_error)
normalize_persisted_status (known pending) false last_error =
    (failed, some (text "pending record without a transaction hash; discarded"))
normalize_persisted_status (unknown s) has_hash last_error =
    (failed, some (text "unknown persisted status " ++ s ++ text "; discarded"))

abbrev pub is_staging_failed : Option RelayTerminalReason → Bool
is_staging_failed (some staging_failed) = true
is_staging_failed _ = false

-- The terminal reason that `restore` gives a record.
abbrev pub restored_reason :
    RelayStatus → Option RelayTerminalReason → (has_hash : Bool) → Option RelayTerminalReason
restored_reason failed reason has_hash =
    if is_staging_failed reason || not has_hash then some staging_failed else reason
restored_reason status reason has_hash = reason

-- `entry.orderKey || computeOrderKey(…)`
abbrev pub key_or : Text → Text → Text
key_or [] computed = computed
key_or (c ∷ s) computed = c ∷ s

unfoldable pub restored_record : RelayTrackerConfig → PersistedSubmission → SubmissionRecord
unfolding normalize_persisted_status
restored_record cfg entry =
    let normal = normalize_persisted_status entry.status (is_set entry.tx_hash) entry.last_error in
    record {
      key = entry.key;
      order_key =
          key_or entry.order_key
            (compute_order_key cfg.digest cfg.quoted entry.order_id entry.side);
      action = record {
        order_id = entry.order_id;
        side = entry.side;
        action = entry.action;
        chain = entry.chain;
        network = entry.network;
      };
      status = normal.0;
      attempts = entry.attempts;
      max_attempts = entry.max_attempts;
      broadcasts = entry.broadcasts;
      tx_hash = entry.tx_hash;
      network = entry.network;
      last_error = normal.1;
      terminal_reason = restored_reason normal.0 entry.terminal_reason (is_set entry.tx_hash);
      result = entry.result;
      first_seen_at = entry.first_seen_at;
      last_attempt_at = entry.last_attempt_at;
      completed_at = entry.completed_at;
      restored = true;
    }

-- `this.records.set(key, record)`, where the record has the number `n`: a key that is there keeps its
-- place.
unfoldable pub set_key : (ℕ → SubmissionRecord) → Text → ℕ → List ℕ → List ℕ
set_key heap key n [] = n ∷ []
set_key heap key n (i ∷ is) =
    let rest = set_key heap key n is in if (heap i).key == key then n ∷ is else i ∷ rest

module _ (cfg : RelayTrackerConfig) where
  -- A turn of the loop of `restore`
  unfoldable pub restore_entry : PersistedSubmission → Tracker → Tracker
  unfolding restored_record set_key
  restore_entry entry s =
      if is_empty entry.key then s else record (put s.next (restored_record cfg entry) idle s) {
        next = s.next + 1;
        records = set_key s.heap entry.key s.next s.records;
        restored_count = s.restored_count + 1;
      }

  unfoldable pub restore_entries : List PersistedSubmission → Tracker → Tracker
  unfolding restore_entry
  restore_entries [] s = s
  restore_entries (entry ∷ entries) s = restore_entries entries (restore_entry entry s)

  -- `restore`, with what `load` gives, or nothing if it throws
  unfoldable pub restore : Option (List PersistedSubmission) → Tracker → Tracker
  unfolding restore_entries
  restore none s = record s { store_errors = s.store_errors + 1 }
  restore (some loaded) s = restore_entries loaded s

abbrev blank : SubmissionRecord
blank = record {
  key = [];
  order_key = [];
  action = record { order_id = []; side = []; action = []; chain = []; network = none };
  status = failed;
  attempts = 0;
  max_attempts = 0;
  broadcasts = 0;
  tx_hash = none;
  network = none;
  last_error = none;
  terminal_reason = none;
  result = none;
  first_seen_at = 0;
  last_attempt_at = none;
  completed_at = none;
  restored = false;
}

-- The fields of a new tracker, before its constructor calls `restore`
abbrev pub empty : List PersistedSubmission → Tracker
empty disk = record {
  heap = λ _. blank;
  next = 0;
  records = [];
  reconciling = [];
  tasks = λ _. idle;
  disk = disk;
  events = [];
  duplicates_skipped = 0;
  in_flight_skipped = 0;
  order_blocked = 0;
  restored_count = 0;
  store_errors = 0;
}

-- `new RelaySubmissionTracker(config)` on a store that holds `disk`
unfoldable pub start : RelayTrackerConfig → List PersistedSubmission → Tracker
unfolding restore
start cfg disk = if cfg.has_store then restore cfg (some disk) (empty disk) else empty []
