-- ===== src/Relay/Settled/Steps.antt =====
-- Every step keeps the submissions that succeeded.
use over_sync.Prelude.{
  ℕ, ◌≡◌, ◌≢◌, refl, true, false, Bool, Option, some, Text, leb, is_empty, includes, text_eq,
  Bool-cases, Option-cases, arith, inl, inr, ◌⊎◌,
}
use over_sync.Relay.Records.{
  RelayStatus, relay_status_eq, in_flight, pending, succeeded, failed, SubmissionRecord,
  RelayTerminalReason, staging_failed, not_found, failed_on_chain, RelayAction, StagedSubmission,
  retry, confirmation_pending, RelayConfirmationState, is_succeeded, is_failed, is_not_found,
  RelayConfirmation,
}
use over_sync.Relay.Tracker.{
  RelayTrackerConfig, Tracker, broadcasting, sleeping, failed_record, settled_record, or_option,
  get, get_blocking_record, key_of, delete, persist, emit, put,
}
use over_sync.Relay.Submit.{
  submit_new, submit_failed, submit_unsettled, submit_existing, new_record,
}
use over_sync.Relay.Drive.{
  attempted, staged, reconcile, broadcast_failed, exhausted, unsettled, confirmed, unsettled_record,
  reverted_record, hashless_record, staged_record,
}
use over_sync.Relay.Invariant.{Holds}
use over_sync.Relay.Invariant.Writes.{update_here}
use over_sync.Relay.Invariant.Submits.{delete-Holds}
use over_sync.Relay.Settled.{IsSettled, update-IsSettled, add-IsSettled, delete-IsSettled}

-- The statuses of a record that an operation works on
pub unsettled_status : (st : RelayStatus) → (st ≡ in_flight) ⊎ (st ≡ pending) → st ≢ succeeded
unsettled_status st (inl e) q = ground arith
unsettled_status st (inr e) q = ground arith

module _ (cfg : RelayTrackerConfig) (key : Text) (hash : Option Text) where
  abbrev pub Keeps : Tracker → Type 0
  Keeps s = IsSettled key hash s.heap s.records

  pub reconcile-Keeps :
      (s : Tracker) (i : ℕ) (duplicate : Bool) (now : ℕ)
      → (s.heap i).status ≢ succeeded
      → Keeps s
      → Keeps (reconcile cfg i duplicate now s).1
  unfolding reconcile
  reconcile-Keeps s i duplicate now n k = elim (Bool-cases cfg.has_confirm) [
    | inl can ↦ elim (Bool-cases (includes s.reconciling (s.heap i).key)) [
      | inl busy ↦ rw (can, busy) k
      | inr free ↦
          rw (can, free) (update-IsSettled key hash s i (attempted (s.heap i) now) n refl k)
    ]
    | inr cannot ↦ rw cannot k
  ]

  pub broadcast_failed-Keeps :
      (s : Tracker) (i : ℕ) (message : Text) (now : ℕ)
      → (s.heap i).status ≢ succeeded
      → Keeps s
      → Keeps (broadcast_failed cfg i message now s).1
  unfolding broadcast_failed
  broadcast_failed-Keeps s i message now n k =
      let r : SubmissionRecord = record (s.heap i) { last_error = some message } in
      let s' : Tracker = emit retry r (persist cfg (put i r broadcasting s)) in
      reconcile-Keeps s' i false now (rw (update_here s.heap i r) n)
        (update-IsSettled key hash s i r n refl k)

  pub staged-Keeps :
      (s : Tracker) (i : ℕ) (submission : StagedSubmission) (now : ℕ)
      → (s.heap i).status ≢ succeeded
      → Keeps s
      → Keeps (staged cfg i submission now s).1
  unfolding staged
  staged-Keeps s i submission now n k = elim (Bool-cases (is_empty submission.tx_hash)) [
    | inl no_hash ↦ rw no_hash (
        update-IsSettled key hash s i
          (failed_record (hashless_record (s.heap i)) staging_failed now) n refl k)
    | inr set ↦
        rw set (update-IsSettled key hash s i (staged_record (s.heap i) submission) n refl k)
  ]

  exhausted-Keeps :
      (s : Tracker) (i : ℕ) (r : SubmissionRecord) (state : RelayConfirmationState) (now : ℕ)
      → (s.heap i).status ≢ succeeded
      → r.key ≡ (s.heap i).key
      → Keeps s
      → Keeps (exhausted cfg i r state now s).1
  unfolding exhausted
  exhausted-Keeps s i r is_not_found now n e k =
      update-IsSettled key hash s i (failed_record r not_found now) n e k
  exhausted-Keeps s i r state now n e k = k

  pub confirmed-Keeps :
      (s : Tracker) (i polls : ℕ) (duplicate : Bool) (state : RelayConfirmationState)
      (c : RelayConfirmation) (now : ℕ)
      → (s.heap i).status ≢ succeeded
      → Keeps s
      → Keeps (confirmed cfg i polls duplicate state c now s).1
  unfolding confirmed unsettled
  confirmed-Keeps s i polls duplicate is_succeeded c now n k =
      update-IsSettled key hash s i
        (settled_record (s.heap i) (or_option c.result (s.heap i).result) now) n refl k
  confirmed-Keeps s i polls duplicate is_failed c now n k =
      update-IsSettled key hash s i
        (failed_record (reverted_record (s.heap i) c.error) failed_on_chain now) n refl k
  confirmed-Keeps s i polls duplicate state c now n k =
      let r : SubmissionRecord = unsettled_record (s.heap i) state c.error in
      let s' : Tracker =
        emit confirmation_pending r (persist cfg (put i r (sleeping polls duplicate) s)) in
      let k' : Keeps s' = update-IsSettled key hash s i r n refl k in
      elim (Bool-cases (leb cfg.max_attempts polls)) [
        | inl over ↦ rw over (
            exhausted-Keeps s' i r state now (rw (update_here s.heap i r) n)
              (rw (update_here s.heap i r) refl) k')
        | inr more ↦ rw more k'
      ]

  pub submit_new-Keeps :
      (action : RelayAction) (now : ℕ) (s : Tracker)
      → Holds s
      → Keeps s
      → Keeps (submit_new cfg action now s).1
  unfolding submit_new
  submit_new-Keeps action now s inv k = elim (Option-cases (get_blocking_record cfg action s)) [
    | inl free ↦ rw (free, submit_new) (add-IsSettled key hash s (new_record cfg action now) inv k)
    | inr (b, busy) ↦ rw (busy, submit_new) k
  ]

  submit_failed-Keeps :
      (action : RelayAction) (reason : Option RelayTerminalReason) (i now : ℕ) (s : Tracker)
      → Holds s
      → get (key_of cfg action) s ≡ some i
      → (s.heap i).status ≡ failed
      → Keeps s
      → Keeps (submit_failed cfg action (s.heap i) reason now s).1
  unfolding submit_failed
  submit_failed-Keeps action (some staging_failed) i now s inv found e k =
      submit_new-Keeps action now (persist cfg (delete (key_of cfg action) s))
        (delete-Holds cfg (key_of cfg action) i s inv found (rw e refl))
        (delete-IsSettled key hash s (key_of cfg action) i found (λ q. ground arith) k)
  submit_failed-Keeps action _ i now s inv found e k = k

  pub submit_existing-Keeps :
      (action : RelayAction) (i : ℕ) (st : RelayStatus) (running : Bool) (now : ℕ) (s : Tracker)
      → Holds s
      → get (key_of cfg action) s ≡ some i
      → (s.heap i).status ≡ st
      → Keeps s
      → Keeps (submit_existing cfg action i (s.heap i) st running now s).1
  unfolding submit_existing submit_unsettled
  submit_existing-Keeps action i succeeded running now s inv found e k = k
  submit_existing-Keeps action i failed running now s inv found e k =
      submit_failed-Keeps action (s.heap i).terminal_reason i now s inv found e k
  submit_existing-Keeps action i in_flight true now s inv found e k = k
  submit_existing-Keeps action i in_flight false now s inv found e k = k
  submit_existing-Keeps action i pending true now s inv found e k = k
  submit_existing-Keeps action i pending false now s inv found e k = k
