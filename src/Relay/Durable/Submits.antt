-- ===== src/Relay/Durable/Submits.antt =====
-- The store after `submit`, `forget` and a restart.
use mathlib.Core.Path.{subst}
use over_sync.Prelude.{
  ℕ, ◌+◌, ◌≡◌, ◌≢◌, refl, sym, ap, ◌∙◌, Bool, true, false, Option, some, List, map, Text,
  Bool-cases, Option-cases, inl, inr, ◌||◌, nat_eq, text_eq, ◌==◌,
}
use over_sync.Relay.Records.{
  RelayStatus, relay_status_eq, in_flight, pending, succeeded, failed, RelayAction,
  PersistedSubmission, RelayTerminalReason, staging_failed, rejected, order_busy_error,
}
use over_sync.Relay.Tracker.{
  RelayTrackerConfig, Tracker, persist, emit_busy, get, get_blocking_record, key_of, delete, forget,
}
use over_sync.Relay.Submit.{
  submit_new, submit_failed, submit_unsettled, submit_existing, submit, submit_absent, submit_found,
}
use over_sync.Relay.Restore.{restored_record, start}
use over_sync.Relay.Steps.{view, Saved}
use over_sync.Relay.Invariant.{Holds}
use over_sync.Relay.Invariant.Restart.{start-Restored}
use over_sync.Relay.Invariant.Lookups.{find_key-none}
use over_sync.Relay.Invariant.Submits.{delete-Holds, submit_new-Holds, without_key-absent, dead}
use over_sync.Relay.Durable.{persist-Saved, written}

module _ (cfg : RelayTrackerConfig) (stored : cfg.has_store ≡ true)
    (saves : (l : List PersistedSubmission) → cfg.save l ≡ some l) where
  submit_new-Saved :
      (action : RelayAction) (now : ℕ) (s : Tracker)
      → Holds (submit_new cfg action now s).1
      → Saved cfg s
      → Saved cfg (submit_new cfg action now s).1
  unfolding submit_new
  submit_new-Saved action now s inv saved = elim (Option-cases (get_blocking_record cfg action s)) [
    | inl free ↦
        written cfg stored saves (submit_new cfg action now s).1 inv
          (rw (free, submit_new) (simp (stored, saves)))
    | inr (b, busy) ↦ subst (λ out. Saved cfg out.1) (sym (refused b busy)) saved
  ]
    where
      refused :
          (b : ℕ)
          → get_blocking_record cfg action s ≡ some b
          → submit_new cfg action now s ≡ (
            rejected (
                order_busy_error
                  (s.heap b).key
                  (s.heap b).action.action
                  (s.heap b).status
                  action.action),
            emit_busy (s.heap b) action (record s { order_blocked = s.order_blocked + 1 }),
          )
      refused b busy = rw (busy, submit_new) refl

  submit_failed-Saved :
      (action : RelayAction) (reason : Option RelayTerminalReason) (i now : ℕ) (s : Tracker)
      → Holds s
      → get (key_of cfg action) s ≡ some i
      → (s.heap i).status ≡ failed
      → Saved cfg s
      → Saved cfg (submit_failed cfg action (s.heap i) reason now s).1
  unfolding submit_failed
  submit_failed-Saved action (some staging_failed) i now s inv found e saved =
      let deleted = delete-Holds cfg (key_of cfg action) i s inv found (rw e refl) in
      let s' : Tracker = persist cfg (delete (key_of cfg action) s) in
      submit_new-Saved action now s'
        (submit_new-Holds cfg action now s' deleted
          (without_key-absent cfg s.heap (key_of cfg action) s.records))
        (persist-Saved cfg stored saves (delete (key_of cfg action) s) deleted)
  submit_failed-Saved action _ i now s inv found e saved = saved

  submit_unsettled-Saved :
      (i : ℕ) (st : RelayStatus) (running : Bool) (s : Tracker)
      → Saved cfg s
      → Saved cfg (submit_unsettled cfg i (s.heap i) st running s).1
  unfolding submit_unsettled
  submit_unsettled-Saved i st true s saved = saved
  submit_unsettled-Saved i in_flight false s saved = saved
  submit_unsettled-Saved i _ false s saved = saved

  submit_existing-Saved :
      (action : RelayAction) (i : ℕ) (st : RelayStatus) (running : Bool) (now : ℕ) (s : Tracker)
      → Holds s
      → get (key_of cfg action) s ≡ some i
      → (s.heap i).status ≡ st
      → Saved cfg s
      → Saved cfg (submit_existing cfg action i (s.heap i) st running now s).1
  unfolding submit_existing
  submit_existing-Saved action i succeeded running now s inv found e saved = saved
  submit_existing-Saved action i failed running now s inv found e saved =
      submit_failed-Saved action (s.heap i).terminal_reason i now s inv found e saved
  submit_existing-Saved action i in_flight running now s inv found e saved =
      submit_unsettled-Saved i in_flight running s saved
  submit_existing-Saved action i pending running now s inv found e saved =
      submit_unsettled-Saved i pending running s saved

  pub submit-Saved :
      (action : RelayAction) (running : Bool) (now : ℕ) (s : Tracker)
      → Holds s
      → Saved cfg s
      → Saved cfg (submit cfg action running now s).1
  submit-Saved action running now s inv saved = elim (Option-cases (get (key_of cfg action) s)) [
    | inl absent ↦
        subst (λ out. Saved cfg out.1) (sym (submit_absent cfg action running now s absent))
          (submit_new-Saved action now s
            (submit_new-Holds cfg action now s inv
              (find_key-none s.heap (key_of cfg action) s.records absent))
            saved)
    | inr (i, found) ↦
        subst (λ out. Saved cfg out.1) (sym (submit_found cfg action running now s i found))
          (submit_existing-Saved action i (s.heap i).status running now s inv found refl saved)
  ]

  pub forget-Saved :
      (key : Text) (s : Tracker)
      → Holds s
      → ((i : ℕ) → get key s ≡ some i → (s.heap i).status ≢ in_flight)
      → Saved cfg s
      → Saved cfg (forget cfg key false s).1
  unfolding forget
  forget-Saved key s inv allowed saved = elim (Option-cases (get key s)) [
    | inl absent ↦ rw (absent, forget) saved
    | inr (i, found) ↦
        rw (found, forget)
          (elim (Bool-cases ((s.heap i).status == succeeded || (s.heap i).status == pending)) [
            | inl held ↦ rw held saved
            | inr free ↦ rw free (
                persist-Saved cfg stored saves (delete key s) (
                  delete-Holds cfg key i s inv found
                    (dead (s.heap i).status (allowed i found) free)))
          ])
  ]

  pub restart-Saved : (s : Tracker) → Holds s → Saved cfg s → Saved cfg (start cfg s.disk)
  restart-Saved s inv saved =
      let back = start-Restored cfg s stored inv saved in
      ap (map (λ e. view (restored_record cfg e))) back.2 ∙ saved ∙ sym back.1
