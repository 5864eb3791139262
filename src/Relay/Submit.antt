-- ===== src/Relay/Submit.antt =====
-- `submit`, `broadcastOnce` and `reconcile` of relayer/src/relay-submission-tracker.ts, from one await
-- to the next. A step takes what the await before it gave and the clock's reading, and returns what
-- the caller has by then, and the state.
use over_sync.Prelude.{
  ℕ, ◌+◌, ◌≡◌, refl, Bool, true, false, Option, none, some, [], ◌∷◌, ◌++◌, select, not, ◌==◌,
  text_eq, Text,
}
use over_sync.Relay.Records.{
  RelayStatus, in_flight, succeeded, failed, RelayTerminalReason, failed_on_chain, staging_failed,
  RelayAction, SubmissionRecord, terminal_failure, duplicate_skipped, in_flight_skipped,
  terminal_error, in_flight_error, order_busy_error, Response, waiting, joined, resolved, rejected,
}
use over_sync.Relay.Tracker.{
  RelayTrackerConfig, idle, reserved, attached, Tracker, update, put, get, delete, order_key_of,
  key_of, get_blocking_record, persist, emit, emit_busy,
}

-- `x ?? fallback`
abbrev pub or_else {ℓ} : {A : Type ℓ} → Option A → A → A
or_else none fallback = fallback
or_else (some a) fallback = a

-- `this.reconciling.delete(key)`
abbrev pub stop_reconciling : Text → Tracker → Tracker
stop_reconciling key s = record s { reconciling = select (λ k. not (k == key)) s.reconciling }

-- The record is left as it is and its operation ends.
abbrev pub end_task : ℕ → Tracker → Tracker
end_task i s = record s { tasks = update s.tasks i idle }

-- `this.inFlightSkipped++; this.emit('in_flight_skipped', record)`
abbrev pub skip_in_flight : SubmissionRecord → Tracker → Tracker
skip_in_flight r s =
    emit in_flight_skipped r (record s { in_flight_skipped = s.in_flight_skipped + 1 })

-- What the second half of `submit` puts into the Map.
abbrev pub new_record : RelayTrackerConfig → RelayAction → ℕ → SubmissionRecord
new_record cfg action now = record {
  key = key_of cfg action;
  order_key = order_key_of cfg action;
  action = action;
  status = in_flight;
  attempts = 0;
  max_attempts = cfg.max_attempts;
  broadcasts = 0;
  tx_hash = none;
  network = none;
  last_error = none;
  terminal_reason = none;
  result = none;
  first_seen_at = now;
  last_attempt_at = none;
  completed_at = none;
  restored = false;
}

-- The end of `submit`, up to the operation that it hands to `track`
abbrev pub reserve : RelayTrackerConfig → RelayAction → ℕ → Tracker → Tracker
reserve cfg action now s = persist cfg (record (put s.next (new_record cfg action now) reserved s) {
  next = s.next + 1;
  records = s.records ++ s.next ∷ [];
})

module _ (cfg : RelayTrackerConfig) where
  -- `assertOrderAvailable`, and the end of `submit` if it does not throw
  unfoldable pub submit_new : RelayAction → ℕ → Tracker → Response × Tracker
  submit_new action now s = elim (get_blocking_record cfg action s) [
    | none ↦ (waiting, reserve cfg action now s)
    | some i ↦ (
      rejected (
          order_busy_error (s.heap i).key (s.heap i).action.action (s.heap i).status action.action),
      emit_busy (s.heap i) action (record s { order_blocked = s.order_blocked + 1 }),
    )
  ]

  -- The branch of a record that failed. The call of `submit` on itself finds no record of the key,
  -- which is deleted by then, and asks again for what `assertOrderAvailable` has just granted.
  unfoldable pub submit_failed :
      RelayAction → SubmissionRecord → Option RelayTerminalReason → ℕ → Tracker → Response × Tracker
  unfolding submit_new
  submit_failed action r (some staging_failed) now s =
      submit_new action now (persist cfg (delete (key_of cfg action) s))
  submit_failed action r reason now s = (
    rejected (
        terminal_error (key_of cfg action) r.attempts r.last_error
          (or_else reason failed_on_chain)),
    emit terminal_failure r s,
  )

  -- The branches of a record that is not settled: `running` tells whether `inflight` has the key.
  unfoldable pub submit_unsettled :
      ℕ → SubmissionRecord → RelayStatus → Bool → Tracker → Response × Tracker
  submit_unsettled i r status true s = (joined, skip_in_flight r s)
  submit_unsettled i r in_flight false s = (rejected (in_flight_error r.key), skip_in_flight r s)
  submit_unsettled i r status false s = (waiting, record s { tasks = update s.tasks i attached })

  unfoldable pub submit_existing :
      RelayAction → ℕ → SubmissionRecord → RelayStatus → Bool → ℕ → Tracker → Response × Tracker
  unfolding submit_failed submit_unsettled
  submit_existing action i r succeeded running now s = (
    resolved (record {
      already_handled = true;
      result = r.result;
      duplicate = true;
      tx_hash = r.tx_hash;
      network = r.network;
      reconciled = false;
    }),
    emit duplicate_skipped r (record s { duplicates_skipped = s.duplicates_skipped + 1 }),
  )
  submit_existing action i r failed running now s = submit_failed action r r.terminal_reason now s
  submit_existing action i r status running now s = submit_unsettled i r status running s

  -- `submit`
  unfoldable pub submit : RelayAction → (running : Bool) → ℕ → Tracker → Response × Tracker
  unfolding submit_new submit_existing
  submit action running now s = elim (get (key_of cfg action) s) [
    | none ↦ submit_new action now s
    | some i ↦ submit_existing action i (s.heap i) (s.heap i).status running now s
  ]

  -- `submit` by what the Map has for the key
  pub submit_absent :
      (action : RelayAction) (running : Bool) (now : ℕ) (s : Tracker)
      → get (key_of cfg action) s ≡ none
      → submit action running now s ≡ submit_new action now s
  unfolding submit
  submit_absent action running now s absent = rw (absent, submit) refl

  pub submit_found :
      (action : RelayAction) (running : Bool) (now : ℕ) (s : Tracker) (i : ℕ)
      → get (key_of cfg action) s ≡ some i
      → submit action running now s
        ≡ submit_existing action i (s.heap i) (s.heap i).status running now s
  unfolding submit
  submit_found action running now s i found = rw (found, submit) refl
