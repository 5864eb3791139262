-- ===== src/Relay/Tracker.antt =====
-- The state of `RelaySubmissionTracker` in relayer/src/relay-submission-tracker.ts, and its methods
-- that do not wait: look-ups, `persist`, `emit`, `fail`, `settleSuccess`, `forget` and `reset`.
use over_sync.Prelude.{
  ℕ, ◌+◌, Bool, true, false, ◌&&◌, ◌||◌, not, Option, none, some, List, [], ◌∷◌, ◌++◌, map, ◌==◌,
  option_eq, nat_eq, text_eq, if◌then◌else◌, Text, text,
}
use over_sync.Relay.Records.{
  pending, succeeded, failed, relay_status_eq, RelayTerminalReason, failed_on_chain, not_found,
  non_retryable, staging_failed, RelayAction, SubmissionRecord, PersistedSubmission, known,
  RelayTrackerEventType, success, terminal_failure, order_busy, RelayTrackerEvent, RelayOutcome,
}
use over_sync.Relay.Keys.{compute_order_key, compute_submission_key}

-- The configuration, and the two functions of libraries that the keys use. `save` is what the
-- store holds after it was handed a snapshot, or nothing if it throws, and `serializable` is `serializableResult`'s way through JSON.
-- The options that only change how long an await lasts or what is logged are left out.
pub record RelayTrackerConfig : Type 0 where
  pub max_attempts : ℕ
  pub has_confirm : Bool
  pub has_store : Bool
  pub save : List PersistedSubmission → Option (List PersistedSubmission)
  pub serializable : Text → Option Text
  pub digest : Text → Text
  pub quoted : Text → Text

-- Where the operation on a record stands: at which await, with the local variables of `reconcile`.
-- `reserved` and `attached` are handed to `track`, which has not called them yet.
pub data Task : Type 0 where
  idle reserved staging broadcasting attached : Task
  polling sleeping : (polls : ℕ) (duplicate : Bool) → Task

pub record Tracker : Type 0 where
  pub heap : ℕ → SubmissionRecord
  pub next : ℕ
  -- the Map, in the order of insertion
  pub records : List ℕ
  pub reconciling : List Text
  pub tasks : ℕ → Task
  -- what the store holds
  pub disk : List PersistedSubmission
  pub events : List RelayTrackerEvent
  pub duplicates_skipped : ℕ
  pub in_flight_skipped : ℕ
  pub order_blocked : ℕ
  pub restored_count : ℕ
  pub store_errors : ℕ

-- A value written at one number.
abbrev pub update {ℓ} : {A : Type ℓ} → (ℕ → A) → ℕ → A → ℕ → A
update f i a j = if i == j then a else f j

-- The record and the operation of one number, written together.
abbrev pub put : ℕ → SubmissionRecord → Task → Tracker → Tracker
put i r t s = record s { heap = update s.heap i r; tasks = update s.tasks i t }

-- `this.records.get(key)`, in the list of the Map's numbers
unfoldable pub find_key : (ℕ → SubmissionRecord) → Text → List ℕ → Option ℕ
find_key heap key [] = none
find_key heap key (i ∷ is) =
    let rest = find_key heap key is in if (heap i).key == key then some i else rest

abbrev pub get : Text → Tracker → Option ℕ
get key s = find_key s.heap key s.records

-- `this.records.delete(key)`
unfoldable pub without_key : (ℕ → SubmissionRecord) → Text → List ℕ → List ℕ
without_key heap key [] = []
without_key heap key (i ∷ is) =
    let rest = without_key heap key is in if (heap i).key == key then rest else i ∷ rest

abbrev pub delete : Text → Tracker → Tracker
delete key s = record s { records = without_key s.heap key s.records }

-- The test in the loop of `getBlockingRecord`
abbrev pub is_blocking : Text → Text → SubmissionRecord → Bool
is_blocking order_key key r =
    r.order_key == order_key && not (r.key == key) && not (r.status == failed)

unfoldable pub find_blocking : (ℕ → SubmissionRecord) → Text → Text → List ℕ → Option ℕ
find_blocking heap order_key key [] = none
find_blocking heap order_key key (i ∷ is) =
    let rest = find_blocking heap order_key key is in
    if is_blocking order_key key (heap i) then some i else rest

-- `x ?? y` of two optional values
abbrev pub or_option {ℓ} : {A : Type ℓ} → Option A → Option A → Option A
or_option none other = other
or_option (some a) other = some a

-- What a store holds after a save, and whether the save threw
abbrev held_after {ℓ} : {A : Type ℓ} → Option A → A → A
held_after none old = old
held_after (some new) old = new

abbrev save_threw {ℓ} : {A : Type ℓ} → Option A → Bool
save_threw none = true
save_threw (some new) = false

abbrev map_option {ℓ κ} : {A : Type ℓ} {B : Type κ} → (A → Option B) → Option A → Option B
map_option f none = none
map_option f (some a) = f a

module _ (cfg : RelayTrackerConfig) where
  abbrev pub order_key_of : RelayAction → Text
  order_key_of action = compute_order_key cfg.digest cfg.quoted action.order_id action.side

  abbrev pub key_of : RelayAction → Text
  key_of action = compute_submission_key cfg.digest cfg.quoted action

  -- `getBlockingRecord`
  abbrev pub get_blocking_record : RelayAction → Tracker → Option ℕ
  get_blocking_record action s =
      find_blocking s.heap (order_key_of action) (key_of action) s.records

  -- `toPersistedSubmission`
  abbrev pub to_persisted_submission : SubmissionRecord → PersistedSubmission
  to_persisted_submission r = record {
    key = r.key;
    order_key = r.order_key;
    order_id = r.action.order_id;
    side = r.action.side;
    action = r.action.action;
    chain = r.action.chain;
    network = or_option r.network r.action.network;
    tx_hash = r.tx_hash;
    status = known r.status;
    attempts = r.attempts;
    max_attempts = r.max_attempts;
    broadcasts = r.broadcasts;
    last_error = r.last_error;
    terminal_reason = r.terminal_reason;
    result = map_option cfg.serializable r.result;
    first_seen_at = r.first_seen_at;
    last_attempt_at = r.last_attempt_at;
    completed_at = r.completed_at;
  }

  abbrev pub snapshot : Tracker → List PersistedSubmission
  snapshot s = map (λ i. to_persisted_submission (s.heap i)) s.records

  -- `persist`
  abbrev pub persist : Tracker → Tracker
  persist s = record s {
    disk = if cfg.has_store then held_after (cfg.save (snapshot s)) s.disk else s.disk;
    store_errors =
        if cfg.has_store && save_threw (cfg.save (snapshot s))
        then s.store_errors + 1
        else s.store_errors;
  }

-- `emit`
abbrev pub event : RelayTrackerEventType → SubmissionRecord → RelayTrackerEvent
event type r = record {
  type = type;
  key = r.key;
  order_key = r.order_key;
  action = r.action;
  attempt = r.attempts;
  max_attempts = r.max_attempts;
  tx_hash = r.tx_hash;
  network = r.network;
  blocking_key = none;
  error = r.last_error;
}

abbrev pub emit : RelayTrackerEventType → SubmissionRecord → Tracker → Tracker
emit type r s = record s { events = event type r ∷ s.events }

-- `emit('order_busy', blocking, { requested: action })`
abbrev pub emit_busy : SubmissionRecord → RelayAction → Tracker → Tracker
emit_busy r requested s = record s {
  events = record (event order_busy r) { action = requested; blocking_key = some r.key } ∷ s.events;
}

abbrev reason_text : RelayTerminalReason → Text
reason_text failed_on_chain = text "failed"
reason_text not_found = text "not_found"
reason_text non_retryable = text "non_retryable"
reason_text staging_failed = text "staging_failed"

-- What `fail` and `settleSuccess` write into a record.
abbrev pub failed_record : SubmissionRecord → RelayTerminalReason → ℕ → SubmissionRecord
failed_record r reason now = record r {
  status = failed;
  completed_at = some now;
  terminal_reason = some reason;
  last_error = or_option r.last_error (some (text "relay submission " ++ reason_text reason));
}

abbrev pub settled_record : SubmissionRecord → Option Text → ℕ → SubmissionRecord
settled_record r result now = record r {
  status = succeeded;
  result = result;
  completed_at = some now;
  last_error = none;
}

module _ (cfg : RelayTrackerConfig) where
  -- `fail` on the record of a number, whose fields are `r` by now, and the end of its operation
  abbrev pub fail : ℕ → SubmissionRecord → RelayTerminalReason → ℕ → Tracker → Tracker
  fail i r reason now s =
      let r' = failed_record r reason now in
      emit terminal_failure r' (persist cfg (put i r' idle s))

  abbrev pub settle_success :
      ℕ
      → SubmissionRecord
      → Option Text
      → (duplicate reconciled : Bool) → ℕ
      → Tracker
      → RelayOutcome × Tracker
  settle_success i r result duplicate reconciled now s =
      let r' = settled_record r result now in
      (
        record {
          already_handled = duplicate;
          result = result;
          duplicate = duplicate;
          tx_hash = r'.tx_hash;
          network = r'.network;
          reconciled = reconciled;
        },
        emit success r' (persist cfg (put i r' idle s)),
      )

  -- `forget`, once the record is found
  abbrev pub forget_found : Text → SubmissionRecord → Bool → Tracker → Bool × Tracker
  forget_found key r force s =
      if not force && (r.status == succeeded || r.status == pending)
      then (false, s)
      else (true, persist cfg (delete key s))

  -- `forget`
  unfoldable pub forget : Text → Bool → Tracker → Bool × Tracker
  forget key force s = elim (get key s) [
    | none ↦ (false, s)
    | some i ↦ forget_found key (s.heap i) force s
  ]
