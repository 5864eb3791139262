-- ===== src/Relay/Polling.antt =====
-- The loop of `reconcile` as a whole: it ends within its budget, and what it decides.
pub mod Budget
use mathlib.Core.Path.{subst}
use over_sync.Prelude.{
  ℕ, zero, suc, ◌+◌, ◌*◌, ◌≤◌, ◌<◌, ◌≡◌, refl, sym, ap, ◌∙◌, Bool, true, false, Option, none, some,
  leb, ltb, arith, if◌then◌else◌, Bool-cases, inl, inr, ◌⊎◌, ==_refl, nat_eq,
}
use over_sync.Relay.Records.{
  RelayStatus, pending, succeeded, failed, SubmissionRecord, failed_on_chain, not_found,
  RelayConfirmationState, is_succeeded, is_failed, is_pending, is_not_found, RelayConfirmation,
  ConfirmReply, terminal_error, confirmation_timeout_error, confirmation_pending, Response, waiting,
  resolved, rejected,
}
use over_sync.Relay.Tracker.{
  RelayTrackerConfig, Task, idle, polling, sleeping, Tracker, update, put, persist, emit,
  failed_record, settled_record, or_option,
}
use over_sync.Relay.Drive.{
  poll, poll_answer, confirmed, unsettled, exhausted, confirmation_of, unsettled_record,
  reverted_record, attempted,
}
use over_sync.Relay.Invariant.Writes.{update_here}

abbrev is_waiting : Response → Bool
is_waiting waiting = true
is_waiting _ = false

module _ (cfg : RelayTrackerConfig) (replies : ℕ → ConfirmReply) (clock : ℕ → ℕ) where
  -- The next step of a record's operation that polls, where `confirm` answers poll `p` with `replies p`
  abbrev turn : ℕ → Task → Tracker → Response × Tracker
  turn i (polling polls duplicate) s =
      poll_answer cfg i polls duplicate (replies polls) (clock polls) s
  turn i (sleeping polls duplicate) s = poll cfg i polls duplicate (clock polls) s
  turn i _ s = (waiting, s)

  -- The steps of one operation, until its caller has an answer or the fuel is used up
  unfoldable pub drive : (fuel : ℕ) → ℕ → Tracker → Response × Tracker
  drive zero i s = (waiting, s)
  drive (suc fuel) i s =
      let out = turn i (s.tasks i) s in
      let rest = drive fuel i out.1 in if is_waiting out.0 then rest else out

-- What a sequence of answers comes to.
pub data Verdict : Type 0 where
  settled reverted lost unresolved : Verdict

abbrev pub last_verdict : RelayConfirmationState → Verdict
last_verdict is_succeeded = settled
last_verdict is_failed = reverted
last_verdict is_not_found = lost
last_verdict is_pending = unresolved

abbrev pub is_final : RelayConfirmationState → Bool
is_final is_succeeded = true
is_final is_failed = true
is_final _ = false

-- The first answer that is final decides among the answers `p`, …, `p + more`, and otherwise the last.
unfoldable pub verdict : (ℕ → RelayConfirmationState) → (p more : ℕ) → Verdict
verdict states p zero = last_verdict (states p)
verdict states p (suc more) =
    let rest = verdict states (p + 1) more in
    if is_final (states p) then last_verdict (states p) else rest

abbrev pub verdict_status : Verdict → RelayStatus
verdict_status settled = succeeded
verdict_status reverted = failed
verdict_status lost = failed
verdict_status unresolved = pending

abbrev pub answer_of : Response → Option Verdict
answer_of (resolved _) = some settled
answer_of (rejected (terminal_error _ _ _ failed_on_chain)) = some reverted
answer_of (rejected (terminal_error _ _ _ not_found)) = some lost
answer_of (rejected (confirmation_timeout_error _ _ _ _)) = some unresolved
answer_of _ = none

module _ (i : ℕ) where
  -- An operation has ended with a verdict, and its record has at most `attempts` attempts.
  abbrev pub EndsWith : Verdict → (attempts : ℕ) → Response × Tracker → Type 0
  EndsWith v attempts out =
      (answer_of out.0 ≡ some v)
      × ((out.1.heap i).status ≡ verdict_status v)
      × (out.1.tasks i ≡ idle)
      × ((out.1.heap i).attempts ≤ attempts)

module _ (cfg : RelayTrackerConfig) (i : ℕ) where
  -- A final answer
  final_answer :
      (s : Tracker) (polls : ℕ) (duplicate : Bool) (state : RelayConfirmationState)
      (c : RelayConfirmation) (now : ℕ)
      → is_final state ≡ true
      → EndsWith i
          (last_verdict state)
          (s.heap i).attempts
          (confirmed cfg i polls duplicate state c now s)
  unfolding confirmed
  final_answer s polls duplicate is_succeeded c now f = ground (arith, ==_refl i)
  final_answer s polls duplicate is_failed c now f = ground (arith, ==_refl i)
  final_answer s polls duplicate is_pending c now f = absurd (ground arith)
  final_answer s polls duplicate is_not_found c now f = absurd (ground arith)

  -- The last poll of the budget
  last_poll :
      (s : Tracker) (polls : ℕ) (duplicate : Bool) (state : RelayConfirmationState)
      (c : RelayConfirmation) (now : ℕ)
      → leb cfg.max_attempts polls ≡ true
      → (s.heap i).status ≡ pending
      → EndsWith i
          (last_verdict state)
          (s.heap i).attempts
          (confirmed cfg i polls duplicate state c now s)
  unfolding confirmed unsettled exhausted
  last_poll s polls duplicate is_succeeded c now h e =
      final_answer s polls duplicate is_succeeded c now refl
  last_poll s polls duplicate is_failed c now h e =
      final_answer s polls duplicate is_failed c now refl
  last_poll s polls duplicate is_pending c now h e = rw h (ground (arith, e, ==_refl i))
  last_poll s polls duplicate is_not_found c now h e = rw h (ground (arith, e, ==_refl i))

  -- A poll with budget left, whose answer is not final
  poll_again :
      (s : Tracker) (polls : ℕ) (duplicate : Bool) (state : RelayConfirmationState)
      (c : RelayConfirmation) (now : ℕ)
      → leb cfg.max_attempts polls ≡ false
      → is_final state ≡ false
      → (s.heap i).status ≡ pending
      → let out = confirmed cfg i polls duplicate state c now s in
        (out.0 ≡ waiting)
        × (out.1.tasks i ≡ sleeping polls duplicate)
        × ((out.1.heap i).status ≡ pending)
        × ((out.1.heap i).attempts ≡ (s.heap i).attempts)
  unfolding confirmed unsettled
  poll_again s polls duplicate is_succeeded c now h f e = absurd (ground arith)
  poll_again s polls duplicate is_failed c now h f e = absurd (ground arith)
  poll_again s polls duplicate is_pending c now h f e = rw h (ground (arith, e, ==_refl i))
  poll_again s polls duplicate is_not_found c now h f e = rw h (ground (arith, e, ==_refl i))

-- The steps that a poll with `more` polls after it may need: an answer each, and a delay between two.
abbrev pub turns : ℕ → ℕ
turns zero = 1
turns (suc more) = suc (suc (turns more))

module _ (cfg : RelayTrackerConfig) (replies : ℕ → ConfirmReply) (clock : ℕ → ℕ) (i : ℕ) where
  abbrev states : ℕ → RelayConfirmationState
  states p = (confirmation_of (replies p)).state

  drive_done :
      (fuel : ℕ) (s : Tracker) (t : Task) (v : Verdict) (n : ℕ)
      → s.tasks i ≡ t
      → EndsWith i v n (turn cfg replies clock i t s)
      → EndsWith i v n (drive cfg replies clock (suc fuel) i s)
  unfolding drive
  drive_done fuel s t v n e ends = rw (e, not_waiting (turn cfg replies clock i t s).0 ends.0) ends
    where
      not_waiting : (r : Response) → answer_of r ≡ some v → is_waiting r ≡ false
      not_waiting waiting h = absurd (ground arith)
      not_waiting _ h = refl

  drive_more :
      (fuel : ℕ) (s : Tracker) (t : Task)
      → s.tasks i ≡ t
      → (turn cfg replies clock i t s).0 ≡ waiting
      → drive cfg replies clock (suc fuel) i s
        ≡ drive cfg replies clock fuel i (turn cfg replies clock i t s).1
  unfolding drive
  drive_more fuel s t e w = rw (e, w) refl

  weaken :
      (v : Verdict) (n m : ℕ) (out : Response × Tracker)
      → n ≤ m
      → EndsWith i v n out
      → EndsWith i v m out
  weaken v n m out le h = (h.0, h.1, h.2, omega (arith, h.3))

  pub drive_ends :
      (more : ℕ) (s : Tracker) (p : ℕ) (duplicate : Bool)
      → p + more ≡ cfg.max_attempts
      → s.tasks i ≡ polling p duplicate
      → (s.heap i).status ≡ pending
      → EndsWith i
          (verdict states p more)
          ((s.heap i).attempts + more)
          (drive cfg replies clock (turns more) i s)
  unfolding verdict
  drive_ends zero s p duplicate h e st =
      drive_done zero s (polling p duplicate) (last_verdict (states p)) ((s.heap i).attempts + 0) e
        (weaken (last_verdict (states p)) (s.heap i).attempts ((s.heap i).attempts + 0)
          (turn cfg replies clock i (polling p duplicate) s) (omega arith)
          (last_poll cfg i s p duplicate (states p) (confirmation_of (replies p)) (clock p)
            (ground arith) st))
  drive_ends (suc more) s p duplicate h e st = elim (Bool-cases (is_final (states p))) [
    | inl final ↦ rw final (
        drive_done (suc (turns more)) s (polling p duplicate) (last_verdict (states p))
          ((s.heap i).attempts + suc more) e
          (weaken (last_verdict (states p)) (s.heap i).attempts ((s.heap i).attempts + suc more)
            (turn cfg replies clock i (polling p duplicate) s) (omega arith)
            (final_answer cfg i s p duplicate (states p) (confirmation_of (replies p)) (clock p)
              final)))
    | inr undecided ↦
        let s' : Tracker = (poll_answer cfg i p duplicate (replies p) (clock p) s).1 in
        let again =
          poll_again cfg i s p duplicate (states p) (confirmation_of (replies p)) (clock p)
            (ground arith) undecided st in
        let s'' : Tracker = (poll cfg i p duplicate (clock p) s').1 in
        let rest =
          drive_ends more s'' (p + 1) duplicate (omega arith)
            (update_here s'.tasks i (polling (p + 1) duplicate))
            (rw (update_here s'.heap i (attempted (s'.heap i) (clock p))) again.2) in
        rw
          (
            undecided,
            drive_more (suc (turns more)) s (polling p duplicate) e again.0,
            drive_more (turns more) s' (sleeping p duplicate) again.1 refl,
          )
          (weaken (verdict states (p + 1) more) ((s''.heap i).attempts + more)
            ((s.heap i).attempts + suc more) (drive cfg replies clock (turns more) i s'')
            (rw (update_here s'.heap i (attempted (s'.heap i) (clock p)), again.3) (omega arith))
            rest)
  ]
