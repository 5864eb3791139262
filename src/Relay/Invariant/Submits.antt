-- ===== src/Relay/Invariant/Submits.antt =====
-- `submit` and `forget` keep the invariant.
use over_sync.Prelude.{
  ℕ, ◌<◌, ◌≡◌, ◌≢◌, refl, Bool, true, false, Option, some, List, [], ◌∷◌, ◌||◌, ◌==◌, text_eq,
  text_beq_iff, All, All-both, nat_eq, Text, Bool-cases, Option-cases, arith, inl, inr,
}
use over_sync.Relay.Records.{
  RelayStatus, in_flight, pending, succeeded, failed, RelayTerminalReason, staging_failed,
  RelayAction, SubmissionRecord, relay_status_eq,
}
use over_sync.Relay.Keys.{order_key_set, submission_key_set}
use over_sync.Relay.Tracker.{
  RelayTrackerConfig, reserved, without_key, forget_found, attached, Tracker, get,
  get_blocking_record, key_of, order_key_of, persist, delete, forget,
}
use over_sync.Relay.Submit.{
  new_record, submit_new, submit_failed, submit_unsettled, submit_existing, submit,
}
use over_sync.Relay.Numbers.{All-includes}
use over_sync.Relay.Invariant.{is_live, IsSound, Holds}
use over_sync.Relay.Invariant.Writes.{add-Inv, task-Inv}
use over_sync.Relay.Invariant.Lookups.{
  find_key_found, find_key-none, find_blocking-none, Apart-not_found, delete-Inv,
}

-- A record that `forget` may drop has failed.
pub dead :
    (st : RelayStatus)
    → st ≢ in_flight
    → (st == succeeded || st == pending) ≡ false
    → is_live st ≡ false
dead in_flight n free = absurd (n refl)
dead pending n free = absurd (ground arith)
dead succeeded n free = absurd (ground arith)
dead failed n free = refl

module _ (cfg : RelayTrackerConfig) where
  new_record-IsSound :
      (action : RelayAction) (now : ℕ) → IsSound (new_record cfg action now) reserved
  new_record-IsSound action now = (
    (
      refl,
      refl,
      submission_key_set cfg.digest cfg.quoted action,
      order_key_set cfg.digest cfg.quoted action.order_id action.side,
    ),
    refl,
  )

  -- Without a record of the key: refused, or reserved under a new number.
  pub submit_new-Holds :
      (action : RelayAction) (now : ℕ) (s : Tracker)
      → Holds s
      → All (λ i. (s.heap i).key ≢ key_of cfg action) s.records
      → Holds (submit_new cfg action now s).1
  unfolding submit_new
  submit_new-Holds action now s inv absent =
      elim (Option-cases (get_blocking_record cfg action s)) [
        | inl free ↦
            rw (free, submit_new)
              (add-Inv inv (new_record cfg action now) reserved (new_record-IsSound action now) (
                All-both _ _ _ s.records
                  (λ i. Apart-not_found (s.heap i) (new_record cfg action now)) absent
                  (find_blocking-none s.heap (order_key_of cfg action) (key_of cfg action) s.records
                    free)))
        | inr (b, busy) ↦ rw (busy, submit_new) inv
      ]

  pub without_key-absent :
      (heap : ℕ → SubmissionRecord) (key : Text) (is : List ℕ)
      → All (λ i. (heap i).key ≢ key) (without_key heap key is)
  unfolding without_key
  without_key-absent heap key [] = tt
  without_key-absent heap key (j ∷ is) = elim (Bool-cases ((heap j).key == key)) [
    | inl same ↦ rw same (without_key-absent heap key is)
    | inr other ↦
        rw other
          (λ e. ground (arith, (text_beq_iff (heap j).key key).1 e), without_key-absent heap key is)
  ]

  pub delete-Holds :
      (key : Text) (i : ℕ) (s : Tracker)
      → Holds s
      → get key s ≡ some i
      → is_live (s.heap i).status ≡ false
      → Holds (delete key s)
  delete-Holds key i s inv found gone =
      let at = find_key_found s.heap key s.records i found in delete-Inv inv i key at.0 at.1 gone

  pub submit_failed-Holds :
      (action : RelayAction) (reason : Option RelayTerminalReason) (i now : ℕ) (s : Tracker)
      → Holds s
      → get (key_of cfg action) s ≡ some i
      → (s.heap i).status ≡ failed
      → Holds (submit_failed cfg action (s.heap i) reason now s).1
  unfolding submit_failed
  submit_failed-Holds action (some staging_failed) i now s inv found e =
      submit_new-Holds action now (persist cfg (delete (key_of cfg action) s))
        (delete-Holds (key_of cfg action) i s inv found (rw e refl))
        (without_key-absent s.heap (key_of cfg action) s.records)
  submit_failed-Holds action _ i now s inv found e = inv

  submit_unsettled-Holds :
      (i : ℕ) (st : RelayStatus) (running : Bool) (s : Tracker)
      → Holds s
      → i < s.next
      → (s.heap i).status ≡ st
      → is_live st ≡ true
      → st ≢ succeeded
      → Holds (submit_unsettled cfg i (s.heap i) st running s).1
  unfolding submit_unsettled
  submit_unsettled-Holds i st true s inv lt e live unsettled = inv
  submit_unsettled-Holds i in_flight false s inv lt e live unsettled = inv
  submit_unsettled-Holds i pending false s inv lt e live unsettled =
      task-Inv inv i attached lt ((inv.sound i lt).0, rw e refl)
  submit_unsettled-Holds i succeeded false s inv lt e live unsettled = absurd (unsettled refl)
  submit_unsettled-Holds i failed false s inv lt e live unsettled = absurd (ground arith)

  pub found_below : (key : Text) (s : Tracker) (i : ℕ) → Holds s → get key s ≡ some i → i < s.next
  found_below key s i inv found =
      All-includes (λ j. j < s.next) s.records i inv.below
        (find_key_found s.heap key s.records i found).0

  pub submit_existing-Holds :
      (action : RelayAction) (i : ℕ) (st : RelayStatus) (running : Bool) (now : ℕ) (s : Tracker)
      → Holds s
      → get (key_of cfg action) s ≡ some i
      → (s.heap i).status ≡ st
      → Holds (submit_existing cfg action i (s.heap i) st running now s).1
  unfolding submit_existing
  submit_existing-Holds action i succeeded running now s inv found e = inv
  submit_existing-Holds action i failed running now s inv found e =
      submit_failed-Holds action (s.heap i).terminal_reason i now s inv found e
  submit_existing-Holds action i in_flight running now s inv found e =
      submit_unsettled-Holds i in_flight running s inv
        (found_below (key_of cfg action) s i inv found) e refl (λ z. ground arith)
  submit_existing-Holds action i pending running now s inv found e =
      submit_unsettled-Holds i pending running s inv (found_below (key_of cfg action) s i inv found)
        e refl (λ z. ground arith)

  pub submit-Holds :
      (action : RelayAction) (running : Bool) (now : ℕ) (s : Tracker)
      → Holds s
      → Holds (submit cfg action running now s).1
  unfolding submit
  submit-Holds action running now s inv = elim (Option-cases (get (key_of cfg action) s)) [
    | inl absent ↦
        rw (absent, submit)
          (submit_new-Holds action now s inv
            (find_key-none s.heap (key_of cfg action) s.records absent))
    | inr (i, found) ↦
        rw (found, submit)
          (submit_existing-Holds action i (s.heap i).status running now s inv found refl)
  ]

  pub forget_found-Holds :
      (key : Text) (s : Tracker) (i : ℕ)
      → Holds s
      → get key s ≡ some i
      → (s.heap i).status ≢ in_flight
      → Holds (forget_found cfg key (s.heap i) false s).1
  forget_found-Holds key s i inv found settled =
      elim (Bool-cases ((s.heap i).status == succeeded || (s.heap i).status == pending)) [
        | inl held ↦ rw held inv
        | inr free ↦ rw free (delete-Holds key i s inv found (dead (s.heap i).status settled free))
      ]

  pub forget-Holds :
      (key : Text) (s : Tracker)
      → Holds s
      → ((i : ℕ) → get key s ≡ some i → (s.heap i).status ≢ in_flight)
      → Holds (forget cfg key false s).1
  unfolding forget
  forget-Holds key s inv allowed = elim (Option-cases (get key s)) [
    | inl absent ↦ rw (absent, forget) inv
    | inr (i, found) ↦ rw (found, forget) (forget_found-Holds key s i inv found (allowed i found))
  ]
