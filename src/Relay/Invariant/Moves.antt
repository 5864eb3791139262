-- ===== src/Relay/Invariant/Moves.antt =====
-- Every step of an operation that has begun keeps the invariant.
use mathlib.Core.Path.{subst}
use over_sync.Prelude.{
  ℕ, ◌+◌, ◌<◌, ◌≡◌, ◌≢◌, refl, sym, ap, ◌∙◌, Bool, true, false, Option, some, [], ◌∷◌, includes,
  Text, is_empty, ltb, ltb→lt, nat_eq, text_eq, Bool-cases, arith, inl, inr,
}
use over_sync.Relay.Records.{
  RelayStatus, in_flight, pending, SubmissionRecord, RelayTerminalReason, staging_failed,
  StagedSubmission,
}
use over_sync.Relay.Tracker.{
  RelayTrackerConfig, Task, idle, reserved, staging, broadcasting, polling, sleeping, Tracker,
  update, failed_record, settled_record,
}
use over_sync.Relay.Restore.{is_set}
use over_sync.Relay.Drive.{
  attempted, begin_broadcast, staging_error, staged, staged_record, hashless_record, broadcast_done,
  reconcile, poll,
}
use over_sync.Relay.Steps.{View, raw}
use over_sync.Relay.Invariant.{is_live, HashFits, SoundView, sent_with, task_fits, Inv, Holds}
use over_sync.Relay.Invariant.Writes.{update-Inv, task-Inv}

-- A number whose operation runs is in use.
pub running_below : (s : Tracker) (i : ℕ) → Holds s → s.tasks i ≢ idle → i < s.next
running_below s i inv running = elim (Bool-cases (ltb i s.next)) [
  | inl below ↦ ltb→lt i s.next below
  | inr above ↦ absurd (running (inv.fresh i (ground arith)))
]

-- The statuses that an operation goes with.
abbrev stands_before : Task → Bool
stands_before reserved = true
stands_before staging = true
stands_before _ = false

abbrev stands_after : Task → Bool
stands_after reserved = false
stands_after staging = false
stands_after idle = false
stands_after _ = true

status_before :
    (st : RelayStatus) (t : Task) → task_fits st t ≡ true → stands_before t ≡ true → st ≡ in_flight
status_before in_flight t h b = refl
status_before pending reserved h b = absurd (ground arith)
status_before pending staging h b = absurd (ground arith)
status_before _ _ h b = absurd (ground arith)

status_after :
    (st : RelayStatus) (t : Task) → task_fits st t ≡ true → stands_after t ≡ true → st ≡ pending
status_after pending t h b = refl
status_after in_flight _ h b = absurd (ground arith)
status_after _ _ h b = absurd (ground arith)

not_idle_before : (t : Task) → stands_before t ≡ true → t ≢ idle
not_idle_before reserved b e = ground arith
not_idle_before _ b e = ground arith

not_idle_after : (t : Task) → stands_after t ≡ true → t ≢ idle
not_idle_after broadcasting b e = ground arith
not_idle_after _ b e = ground arith

module _ (cfg : RelayTrackerConfig) (s : Tracker) (inv : Holds s) (i : ℕ) where
  -- The record's view is as it was.
  pub keep-Inv :
      (r : SubmissionRecord) (t : Task)
      → i < s.next
      → raw r ≡ raw (s.heap i)
      → task_fits (s.heap i).status t ≡ true
      → Inv (update s.heap i r) s.next s.records (update s.tasks i t)
  keep-Inv r t lt e fits =
      update-Inv inv i r t lt
        (
          ap (λ (v : View). v.key) e,
          ap (λ (v : View). v.order_key) e,
          subst (λ st. is_live r.status ≡ true → is_live st ≡ true) (ap (λ (v : View). v.status) e)
              (λ h. h),
        )
        (
          subst SoundView (sym e) (inv.sound i lt).0,
          subst (λ st. task_fits st t ≡ true) (ap (λ (v : View). v.status) (sym e)) fits,
        )

  -- The record fails, in whatever state it is.
  pub fail-Inv :
      (r : SubmissionRecord) (reason : RelayTerminalReason) (now : ℕ)
      → i < s.next
      → raw r ≡ raw (s.heap i)
      → Inv (update s.heap i (failed_record r reason now)) s.next s.records (update s.tasks i idle)
  fail-Inv r reason now lt e =
      let sound : SoundView (raw r) = subst SoundView (sym e) (inv.sound i lt).0 in
      update-Inv inv i (failed_record r reason now) idle lt
        (
          ap (λ (v : View). v.key) e,
          ap (λ (v : View). v.order_key) e,
          λ dead. absurd (ground arith),
        )
        ((sound.0, tt, sound.2, sound.3), refl)

  -- A pending record is settled.
  pub settle-Inv :
      (result : Option Text) (now : ℕ)
      → i < s.next
      → (s.heap i).status ≡ pending
      → Inv
          (update s.heap i (settled_record (s.heap i) result now))
          s.next
          s.records
          (update s.tasks i idle)
  settle-Inv result now lt e =
      let sound = (inv.sound i lt).0 in
      update-Inv inv i (settled_record (s.heap i) result now) idle lt (refl, refl, λ _. rw e refl)
        (
          (
            sound.0,
            subst (λ st. HashFits st (is_set (s.heap i).tx_hash)) e sound.1,
            sound.2,
            sound.3,
          ),
          refl,
        )

  -- What the operation's place says of the record.
  pub before :
      (t : Task)
      → s.tasks i ≡ t
      → stands_before t ≡ true
      → (i < s.next) × ((s.heap i).status ≡ in_flight)
  before t e b =
      let lt = running_below s i inv (λ z. not_idle_before t b (sym e ∙ z)) in
      (
        lt,
        status_before (s.heap i).status t
            (subst (λ t'. task_fits (s.heap i).status t' ≡ true) e (inv.sound i lt).1) b,
      )

  pub after :
      (t : Task)
      → s.tasks i ≡ t
      → stands_after t ≡ true
      → (i < s.next) × ((s.heap i).status ≡ pending)
  after t e b =
      let lt = running_below s i inv (λ z. not_idle_after t b (sym e ∙ z)) in
      (
        lt,
        status_after (s.heap i).status t
            (subst (λ t'. task_fits (s.heap i).status t' ≡ true) e (inv.sound i lt).1) b,
      )

  pub begin_broadcast-Holds : (now : ℕ) → s.tasks i ≡ reserved → Holds (begin_broadcast i now s)
  begin_broadcast-Holds now e =
      let at = before reserved e refl in
      keep-Inv (attempted (s.heap i) now) staging at.0 refl (rw at.1 refl)

  pub staging_error-Holds :
      (message : Text) (retryable : Bool) (now : ℕ)
      → s.tasks i ≡ staging
      → Holds (staging_error cfg i message retryable now s).1
  staging_error-Holds message retryable now e =
      fail-Inv (record (s.heap i) { last_error = some message }) _ now (before staging e refl).0
        refl

  sent_once : (b : ℕ) (h : Bool) → b ≡ sent_with h → h ≡ false → b + 1 ≡ 1
  sent_once b h e f = ground arith

  is_set_of : (t : Text) → is_empty t ≡ false → is_set (some t) ≡ true
  is_set_of [] h = absurd (ground arith)
  is_set_of (c ∷ t) h = refl

  -- The one step that broadcasts: the record had no hash, and has one before the broadcast.
  staged_with_hash-Inv :
      (staged : StagedSubmission)
      → s.tasks i ≡ staging
      → is_empty staged.tx_hash ≡ false
      → Inv
          (update s.heap i (staged_record (s.heap i) staged))
          s.next
          s.records
          (update s.tasks i broadcasting)
  staged_with_hash-Inv staged e set =
      let at = before staging e refl in
      let sound = (inv.sound i at.0).0 in
      let hashless = subst (λ st. HashFits st (is_set (s.heap i).tx_hash)) at.1 sound.1 in
      let hash = is_set_of staged.tx_hash set in
      update-Inv inv i (staged_record (s.heap i) staged) broadcasting at.0
        (refl, refl, λ _. rw at.1 refl)
        (
          (
            rw hash (sent_once (s.heap i).broadcasts (is_set (s.heap i).tx_hash) sound.0 hashless),
            hash,
            sound.2,
            sound.3,
          ),
          refl,
        )

  pub staged-Holds :
      (submission : StagedSubmission) (now : ℕ)
      → s.tasks i ≡ staging
      → Holds (staged cfg i submission now s).1
  unfolding staged
  staged-Holds submission now e = elim (Bool-cases (is_empty submission.tx_hash)) [
    | inl no_hash ↦
        rw no_hash
          (fail-Inv (hashless_record (s.heap i)) staging_failed now (before staging e refl).0 refl)
    | inr hash ↦ rw hash (staged_with_hash-Inv submission e hash)
  ]

  pub broadcast_done-Holds :
      (result : Option Text) (now : ℕ)
      → s.tasks i ≡ broadcasting
      → Holds (broadcast_done cfg i result now s).1
  broadcast_done-Holds result now e =
      let at = after broadcasting e refl in settle-Inv result now at.0 at.1

  -- A task changes and the record stays.
  pub place-Inv :
      (t : Task)
      → i < s.next
      → (s.heap i).status ≡ pending
      → task_fits pending t ≡ true
      → Inv s.heap s.next s.records (update s.tasks i t)
  place-Inv t lt e fits = task-Inv inv i t lt ((inv.sound i lt).0, rw e fits)

  pub reconcile-Holds :
      (duplicate : Bool) (now : ℕ)
      → i < s.next
      → (s.heap i).status ≡ pending
      → Holds (reconcile cfg i duplicate now s).1
  unfolding reconcile
  reconcile-Holds duplicate now lt e = elim (Bool-cases cfg.has_confirm) [
    | inl can ↦ elim (Bool-cases (includes s.reconciling (s.heap i).key)) [
      | inl busy ↦ rw (can, busy) (place-Inv idle lt e refl)
      | inr free ↦
          rw (can, free)
            (keep-Inv (attempted (s.heap i) now) (polling 1 duplicate) lt refl (rw e refl))
    ]
    | inr cannot ↦ rw cannot (place-Inv idle lt e refl)
  ]

  pub poll-Holds :
      (polls : ℕ) (duplicate : Bool) (now : ℕ)
      → s.tasks i ≡ sleeping polls duplicate
      → Holds (poll cfg i polls duplicate now s).1
  poll-Holds polls duplicate now e =
      let at = after (sleeping polls duplicate) e refl in
      keep-Inv (attempted (s.heap i) now) (polling (polls + 1) duplicate) at.0 refl (rw at.1 refl)
