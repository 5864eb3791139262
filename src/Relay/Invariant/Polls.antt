-- ===== src/Relay/Invariant/Polls.antt =====
-- The answers of `confirm`, and a broadcast that fails, keep the invariant.
use over_sync.Prelude.{
  ℕ, ◌<◌, ◌≡◌, refl, ap, ◌∙◌, Bool, false, some, Text, leb, Bool-cases, inl, inr,
}
use over_sync.Relay.Records.{
  pending, SubmissionRecord, not_found, failed_on_chain, retry, confirmation_pending,
  RelayConfirmationState, is_succeeded, is_failed, is_not_found, RelayConfirmation, ConfirmReply,
}
use over_sync.Relay.Tracker.{
  RelayTrackerConfig, idle, broadcasting, polling, sleeping, Tracker, put, persist, emit, or_option,
}
use over_sync.Relay.Drive.{
  broadcast_failed, exhausted, unsettled, confirmed, poll_answer, confirmation_of, reverted_record,
  unsettled_record,
}
use over_sync.Relay.Steps.{raw}
use over_sync.Relay.Invariant.{Holds}
use over_sync.Relay.Invariant.Writes.{update_here}
use over_sync.Relay.Invariant.Moves.{
  keep-Inv, fail-Inv, settle-Inv, place-Inv, after, reconcile-Holds,
}

module _ (cfg : RelayTrackerConfig) where
  pub broadcast_failed-Holds :
      (s : Tracker) (inv : Holds s) (i : ℕ) (message : Text) (now : ℕ)
      → s.tasks i ≡ broadcasting
      → Holds (broadcast_failed cfg i message now s).1
  unfolding broadcast_failed
  broadcast_failed-Holds s inv i message now e =
      let at = after cfg s inv i broadcasting e refl in
      let r : SubmissionRecord = record (s.heap i) { last_error = some message } in
      let s' : Tracker = emit retry r (persist cfg (put i r broadcasting s)) in
      let kept : Holds s' = keep-Inv cfg s inv i r broadcasting at.0 refl (rw at.1 refl) in
      reconcile-Holds cfg s' kept i false now at.0 (rw (update_here s.heap i r) at.1)

  exhausted-Holds :
      (s : Tracker) (inv : Holds s) (i : ℕ) (r : SubmissionRecord) (state : RelayConfirmationState)
      (now : ℕ)
      → i < s.next
      → (s.heap i).status ≡ pending
      → raw r ≡ raw (s.heap i)
      → Holds (exhausted cfg i r state now s).1
  unfolding exhausted
  exhausted-Holds s inv i r is_not_found now lt e same =
      fail-Inv cfg s inv i r not_found now lt same
  exhausted-Holds s inv i r state now lt e same = place-Inv cfg s inv i idle lt e refl

  unsettled-Holds :
      (s : Tracker) (inv : Holds s) (i : ℕ) (r : SubmissionRecord) (polls : ℕ) (duplicate : Bool)
      (state : RelayConfirmationState) (now : ℕ)
      → i < s.next
      → (s.heap i).status ≡ pending
      → raw r ≡ raw (s.heap i)
      → Holds (unsettled cfg i r polls duplicate state now s).1
  unfolding unsettled
  unsettled-Holds s inv i r polls duplicate state now lt e same =
      let s' : Tracker =
        emit confirmation_pending r (persist cfg (put i r (sleeping polls duplicate) s)) in
      let kept : Holds s' = keep-Inv cfg s inv i r (sleeping polls duplicate) lt same (rw e refl) in
      let here = update_here s.heap i r in
      elim (Bool-cases (leb cfg.max_attempts polls)) [
        | inl over ↦ rw over (
            exhausted-Holds s' kept i r state now lt (rw here (ap (λ v. v.status) same ∙ e))
              (rw here refl))
        | inr more ↦ rw more kept
      ]

  confirmed-Holds :
      (s : Tracker) (inv : Holds s) (i polls : ℕ) (duplicate : Bool)
      (state : RelayConfirmationState) (c : RelayConfirmation) (now : ℕ)
      → i < s.next
      → (s.heap i).status ≡ pending
      → Holds (confirmed cfg i polls duplicate state c now s).1
  unfolding confirmed
  confirmed-Holds s inv i polls duplicate is_succeeded c now lt e =
      settle-Inv cfg s inv i (or_option c.result (s.heap i).result) now lt e
  confirmed-Holds s inv i polls duplicate is_failed c now lt e =
      fail-Inv cfg s inv i (reverted_record (s.heap i) c.error) failed_on_chain now lt refl
  confirmed-Holds s inv i polls duplicate state c now lt e =
      unsettled-Holds s inv i (unsettled_record (s.heap i) state c.error) polls duplicate state now
        lt e refl

  pub poll_answer-Holds :
      (s : Tracker) (inv : Holds s) (i polls : ℕ) (duplicate : Bool) (reply : ConfirmReply)
      (now : ℕ)
      → s.tasks i ≡ polling polls duplicate
      → Holds (poll_answer cfg i polls duplicate reply now s).1
  poll_answer-Holds s inv i polls duplicate reply now e =
      let at = after cfg s inv i (polling polls duplicate) e refl in
      confirmed-Holds s inv i polls duplicate (confirmation_of reply).state (confirmation_of reply)
        now at.0 at.1
