-- ===== src/Relay/Drive.antt =====
-- `broadcastOnce` and `reconcile` of relayer/src/relay-submission-tracker.ts, from one await to the
-- next. A step takes what the await before it gave and the clock's reading, and returns what the
-- caller has by then, and the state.
use over_sync.Prelude.{
  ℕ, ◌+◌, Bool, true, false, Option, none, some, ◌∷◌, ◌++◌, includes, leb, text_eq, if◌then◌else◌,
  Text, text, is_empty,
}
use over_sync.Relay.Records.{
  pending, RelayTerminalReason, failed_on_chain, not_found, non_retryable, staging_failed,
  StagedSubmission, SubmissionRecord, RelayConfirmationState, is_succeeded, is_failed, is_pending,
  is_not_found, RelayConfirmation, ConfirmReply, answered, threw, attempt, broadcast, retry,
  confirmation_pending, confirmation_timeout, terminal_error, confirmation_timeout_error,
  in_flight_error, Response, waiting, resolved, rejected,
}
use over_sync.Relay.Tracker.{
  RelayTrackerConfig, staging, broadcasting, polling, sleeping, Tracker, put, or_option, persist,
  emit, fail, settle_success,
}
use over_sync.Relay.Submit.{or_else, stop_reconciling, end_task, skip_in_flight}

-- `record.attempts++; record.lastAttemptAt = this.cfg.now()`
abbrev pub attempted : SubmissionRecord → ℕ → SubmissionRecord
attempted r now = record r { attempts = r.attempts + 1; last_attempt_at = some now }

-- `broadcastOnce`, up to the call of the stager
abbrev pub begin_broadcast : ℕ → ℕ → Tracker → Tracker
begin_broadcast i now s =
    emit attempt (attempted (s.heap i) now) (put i (attempted (s.heap i) now) staging s)

-- The record once its hash is known.
abbrev pub staged_record : SubmissionRecord → StagedSubmission → SubmissionRecord
staged_record r staged = record r {
  tx_hash = some staged.tx_hash;
  network = or_option staged.network r.action.network;
  status = pending;
  broadcasts = r.broadcasts + 1;
}

-- The record of a stager that gives no hash
abbrev pub hashless_record : SubmissionRecord → SubmissionRecord
hashless_record r = record r {
  last_error = some (text "stager did not provide a transaction hash before broadcast");
}

abbrev pub staging_reason : Bool → RelayTerminalReason
staging_reason true = staging_failed
staging_reason false = non_retryable

-- A message about the hash that is polled.
abbrev about_hash : SubmissionRecord → Text → Text
about_hash r rest = text "tx " ++ or_else r.tx_hash (text "undefined") ++ rest

-- The error that a poll without a settlement leaves in the record.
abbrev unsettled_error : SubmissionRecord → RelayConfirmationState → Option Text → Text
unsettled_error r is_not_found error =
    about_hash r (text " was never observed on " ++ or_else r.network r.action.chain)
unsettled_error r state error = or_else error (about_hash r (text " still pending"))

abbrev pub unsettled_record :
    SubmissionRecord → RelayConfirmationState → Option Text → SubmissionRecord
unsettled_record r state error = record r { last_error = some (unsettled_error r state error) }

-- The record of a transaction that failed on its chain.
abbrev pub reverted_record : SubmissionRecord → Option Text → SubmissionRecord
reverted_record r error = record r {
  last_error = some (or_else error (text "transaction failed on chain"));
}

-- What the `catch` around `confirm` makes of an answer.
abbrev pub confirmation_of : ConfirmReply → RelayConfirmation
confirmation_of (answered c) = c
confirmation_of (threw message) = record { state = is_pending; error = some message; result = none }

module _ (cfg : RelayTrackerConfig) where
  -- A failure that `broadcastOnce` or `reconcile` throws on.
  abbrev fail_with : ℕ → SubmissionRecord → RelayTerminalReason → ℕ → Tracker → Response × Tracker
  fail_with i r reason now s =
      (rejected (terminal_error r.key r.attempts r.last_error reason), fail cfg i r reason now s)

  -- The stager throws, or its time is over; `retryable` is `isRetryable` of the error.
  abbrev pub staging_error : ℕ → Text → (retryable : Bool) → ℕ → Tracker → Response × Tracker
  staging_error i message retryable now s =
      fail_with i (record (s.heap i) { last_error = some message }) (staging_reason retryable) now s

  -- The stager returns: no hash is refused, and otherwise the hash is stored before the broadcast.
  abbrev staged_with_hash : ℕ → StagedSubmission → Tracker → Response × Tracker
  staged_with_hash i staged s =
      let r = staged_record (s.heap i) staged in
      (waiting, emit broadcast r (persist cfg (put i r broadcasting s)))

  abbrev staged_without_hash : ℕ → ℕ → Tracker → Response × Tracker
  staged_without_hash i now s = fail_with i (hashless_record (s.heap i)) staging_failed now s

  unfoldable pub staged : ℕ → StagedSubmission → ℕ → Tracker → Response × Tracker
  staged i submission now s =
      if is_empty submission.tx_hash
      then staged_without_hash i now s
      else staged_with_hash i submission s

  -- The broadcast resolves with a result.
  abbrev pub broadcast_done : ℕ → Option Text → ℕ → Tracker → Response × Tracker
  broadcast_done i result now s =
      let out = settle_success cfg i (s.heap i) result false false now s in (resolved out.0, out.1)

  -- `reconcile`: the start of a turn of its loop, up to the call of `confirm`
  abbrev pub poll : ℕ → (polls : ℕ) → (duplicate : Bool) → ℕ → Tracker → Response × Tracker
  poll i polls duplicate now s =
      (waiting, put i (attempted (s.heap i) now) (polling (polls + 1) duplicate) s)

  abbrev time_out : SubmissionRecord → Response
  time_out r = rejected (confirmation_timeout_error r.key r.tx_hash r.network r.attempts)

  -- `reconcile`, up to its first call of `confirm`
  unfoldable pub reconcile : ℕ → Bool → ℕ → Tracker → Response × Tracker
  reconcile i duplicate now s =
      let r = s.heap i in
      if cfg.has_confirm
      then if includes s.reconciling r.key
        then (rejected (in_flight_error r.key), end_task i (skip_in_flight r s))
        else poll i 0 duplicate now (record s { reconciling = r.key ∷ s.reconciling })
      else (time_out r, end_task i (emit confirmation_timeout r s))

  -- The broadcast throws, or its time is over.
  unfoldable pub broadcast_failed : ℕ → Text → ℕ → Tracker → Response × Tracker
  unfolding reconcile
  broadcast_failed i message now s =
      let r = record (s.heap i) { last_error = some message } in
      reconcile i false now (emit retry r (persist cfg (put i r broadcasting s)))

  -- The budget is exhausted: what the last answer was decides.
  unfoldable pub exhausted :
      ℕ → SubmissionRecord → RelayConfirmationState → ℕ → Tracker → Response × Tracker
  exhausted i r is_not_found now s = fail_with i r not_found now (stop_reconciling r.key s)
  exhausted i r state now s = (
    time_out r,
    end_task i (stop_reconciling r.key (persist cfg (emit confirmation_timeout r s))),
  )

  -- An answer that settles nothing: another turn after a delay, if the budget has one.
  unfoldable pub unsettled :
      ℕ → SubmissionRecord → ℕ → Bool → RelayConfirmationState → ℕ → Tracker → Response × Tracker
  unfolding exhausted
  unsettled i r polls duplicate state now s =
      let s' = emit confirmation_pending r (persist cfg (put i r (sleeping polls duplicate) s)) in
      if leb cfg.max_attempts polls then exhausted i r state now s' else (waiting, s')

  unfoldable pub confirmed :
      ℕ → ℕ → Bool → RelayConfirmationState → RelayConfirmation → ℕ → Tracker → Response × Tracker
  unfolding unsettled
  confirmed i polls duplicate is_succeeded c now s =
      let r = s.heap i in
      let out =
        settle_success cfg i r (or_option c.result r.result) duplicate true now
          (stop_reconciling r.key s) in
      (resolved out.0, out.1)
  confirmed i polls duplicate is_failed c now s =
      let r = reverted_record (s.heap i) c.error in
      fail_with i r failed_on_chain now (stop_reconciling r.key s)
  confirmed i polls duplicate state c now s =
      unsettled i (unsettled_record (s.heap i) state c.error) polls duplicate state now s

  -- `confirm` answers the poll of number `polls`.
  abbrev pub poll_answer : ℕ → ℕ → Bool → ConfirmReply → ℕ → Tracker → Response × Tracker
  poll_answer i polls duplicate reply now s =
      confirmed i polls duplicate (confirmation_of reply).state (confirmation_of reply) now s
