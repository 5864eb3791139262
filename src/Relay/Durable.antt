-- ===== src/Relay/Durable.antt =====
-- What the store holds: with a store that takes every snapshot, it holds at every await what a restart
-- has to find again.
pub mod Submits
pub mod Reach
use mathlib.Core.Path.{subst}
use over_sync.Prelude.{
  ℕ, ◌+◌, ◌<◌, ◌≡◌, ◌≢◌, refl, sym, ap, ◌∙◌, Bool, true, false, Option, none, some, List, [], ◌∷◌,
  map, All, Text, includes, is_empty, leb, Bool-cases, Option-cases, arith, inl, inr, ◌⊎◌, ◌&&◌,
  ◌||◌, nat_eq, text_eq, if◌then◌else◌, ◌==◌,
}
use over_sync.Relay.Records.{
  RelayStatus, relay_status_eq, in_flight, pending, succeeded, failed, RelayAction,
  SubmissionRecord, PersistedSubmission, RelayTerminalReason, staging_failed, not_found,
  failed_on_chain, RelayConfirmationState, is_succeeded, is_failed, is_pending, is_not_found,
  RelayConfirmation, StagedSubmission, retry, rejected, order_busy_error,
}
use over_sync.Relay.Tracker.{
  RelayTrackerConfig, idle, staging, broadcasting, sleeping, Tracker, update, put, persist, emit,
  emit_busy, snapshot, to_persisted_submission, get, get_blocking_record, key_of, delete, forget,
}
use over_sync.Relay.Submit.{
  submit_new, submit_failed, submit_unsettled, submit_existing, submit, submit_absent, submit_found,
}
use over_sync.Relay.Drive.{
  attempted, begin_broadcast, staging_error, staged, broadcast_done, broadcast_failed, reconcile,
  poll, exhausted, unsettled, confirmed, poll_answer, confirmation_of, unsettled_record,
}
use over_sync.Relay.Restore.{restored_record, start}
use over_sync.Relay.Steps.{View, raw, view, Saved, Step}
use over_sync.Relay.Invariant.{Holds}
use over_sync.Relay.Invariant.Writes.{update_elim}
use over_sync.Relay.Invariant.Moves.{after, keep-Inv, staged-Holds}
use over_sync.Relay.Invariant.Restart.{restored-persisted, start-Restored}
use over_sync.Relay.Invariant.Lookups.{find_key-none}
use over_sync.Relay.Invariant.Submits.{delete-Holds, submit_new-Holds, without_key-absent, dead}

views_saved :
    (cfg : RelayTrackerConfig) (heap : ℕ → SubmissionRecord) (next : ℕ) (is : List ℕ)
    → ((i : ℕ)
        → i < next
        → view (restored_record cfg (to_persisted_submission cfg (heap i))) ≡ view (heap i))
    → All (λ i. i < next) is
    → map (λ e. view (restored_record cfg e)) (map (λ i. to_persisted_submission cfg (heap i)) is)
      ≡ map (λ i. view (heap i)) is
views_saved cfg heap next [] f h = refl
views_saved cfg heap next (i ∷ is) f h = rw (f i h.0, views_saved cfg heap next is f h.1) refl

views_kept :
    (heap heap' : ℕ → SubmissionRecord) (is : List ℕ)
    → ((i : ℕ) → view (heap' i) ≡ view (heap i))
    → map (λ i. view (heap' i)) is ≡ map (λ i. view (heap i)) is
views_kept heap heap' [] f = refl
views_kept heap heap' (i ∷ is) f = rw (f i, views_kept heap heap' is f) refl

module _ (cfg : RelayTrackerConfig) (stored : cfg.has_store ≡ true)
    (saves : (l : List PersistedSubmission) → cfg.save l ≡ some l) where
  pub persist-Saved : (s : Tracker) → Holds s → Saved cfg (persist cfg s)
  unfolding restored_record
  persist-Saved s inv =
      rw (stored, saves (snapshot cfg s))
        (views_saved cfg s.heap s.next s.records
          (λ i l. restored-persisted cfg (s.heap i) (inv.sound i l).0) inv.below)

  -- A write of no concern to a restart
  pub put-Saved :
      (s : Tracker) (i : ℕ) (r : SubmissionRecord)
      → view r ≡ view (s.heap i)
      → Saved cfg s
      → map (λ e. view (restored_record cfg e)) s.disk
        ≡ map (λ j. view (update s.heap i r j)) s.records
  put-Saved s i r e saved =
      saved
      ∙ sym (
          views_kept s.heap (update s.heap i r) s.records
            (update_elim (λ j x. view x ≡ view (s.heap j)) s.heap i r e (λ j _. refl)))

  pub poll-Saved :
      (s : Tracker) (i polls : ℕ) (duplicate : Bool) (now : ℕ)
      → Saved cfg s
      → Saved cfg (poll cfg i polls duplicate now s).1
  poll-Saved s i polls duplicate now saved = put-Saved s i (attempted (s.heap i) now) refl saved

  pub reconcile-Saved :
      (s : Tracker) (i : ℕ) (duplicate : Bool) (now : ℕ)
      → Saved cfg s
      → Saved cfg (reconcile cfg i duplicate now s).1
  unfolding reconcile restored_record
  reconcile-Saved s i duplicate now saved = elim (Bool-cases cfg.has_confirm) [
    | inl can ↦ elim (Bool-cases (includes s.reconciling (s.heap i).key)) [
      | inl busy ↦ rw (can, busy) saved
      | inr free ↦
          rw (can, free)
            (poll-Saved (record s { reconciling = (s.heap i).key ∷ s.reconciling }) i 0 duplicate
              now saved)
    ]
    | inr cannot ↦ rw cannot saved
  ]

  pub broadcast_failed-Saved :
      (s : Tracker) (inv : Holds s) (i : ℕ) (message : Text) (now : ℕ)
      → s.tasks i ≡ broadcasting
      → Saved cfg (broadcast_failed cfg i message now s).1
  unfolding broadcast_failed
  broadcast_failed-Saved s inv i message now e =
      let at = after cfg s inv i broadcasting e refl in
      let r : SubmissionRecord = record (s.heap i) { last_error = some message } in
      let put_in : Tracker = put i r broadcasting s in
      let kept : Holds put_in = keep-Inv cfg s inv i r broadcasting at.0 refl (rw at.1 refl) in
      reconcile-Saved (emit retry r (persist cfg put_in)) i false now (persist-Saved put_in kept)

  -- A state that was written to the store as it is
  pub written : (t : Tracker) → Holds t → t.disk ≡ (persist cfg t).disk → Saved cfg t
  written t inv e =
      subst (λ d. map (λ e. view (restored_record cfg e)) d ≡ map (λ i. view (t.heap i)) t.records)
        (sym e) (persist-Saved t inv)

  pub staged-Saved :
      (s : Tracker) (inv : Holds s) (i : ℕ) (submission : StagedSubmission) (now : ℕ)
      → s.tasks i ≡ staging
      → Saved cfg (staged cfg i submission now s).1
  unfolding staged
  staged-Saved s inv i submission now e =
      written (staged cfg i submission now s).1 (staged-Holds cfg s inv i submission now e)
        (elim (Bool-cases (is_empty submission.tx_hash)) [
          | inl no_hash ↦ simp (no_hash, stored, saves)
          | inr hash ↦ simp (hash, stored, saves)
        ])

  -- Every answer of `confirm` is written.
  pub confirmed-disk :
      (s : Tracker) (i polls : ℕ) (duplicate : Bool) (state : RelayConfirmationState)
      (c : RelayConfirmation) (now : ℕ)
      → let t = (confirmed cfg i polls duplicate state c now s).1 in t.disk ≡ (persist cfg t).disk
  unfolding confirmed unsettled exhausted
  confirmed-disk s i polls duplicate is_succeeded c now = simp (stored, saves)
  confirmed-disk s i polls duplicate is_failed c now = simp (stored, saves)
  confirmed-disk s i polls duplicate is_pending c now =
      elim (Bool-cases (leb cfg.max_attempts polls)) [
        | inl over ↦ simp (over, stored, saves)
        | inr more ↦ simp (more, stored, saves)
      ]
  confirmed-disk s i polls duplicate is_not_found c now =
      elim (Bool-cases (leb cfg.max_attempts polls)) [
        | inl over ↦ simp (over, stored, saves)
        | inr more ↦ simp (more, stored, saves)
      ]
