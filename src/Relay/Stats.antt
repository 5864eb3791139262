-- ===== src/Relay/Stats.antt =====
-- `getStats`, `isHandled`, `reset` and the delays between polls, of
-- relayer/src/relay-submission-tracker.ts. The delays are in milliseconds.
use native.Mathlib.Numerals.{unary_clauses}
use over_sync.Prelude.{
  ℕ, zero, suc, ◌+◌, ◌-◌, ◌*◌, ◌^◌, ◌≤◌, ◌<◌, ◌≡◌, refl, Bool, true, false, none, some, Option,
  List, [], ◌∷◌, length, All, All-mono, ltb, ◌==◌, if◌then◌else◌, max, arith,
}
use over_sync.Relay.Records.{
  RelayStatus, in_flight, pending, succeeded, failed, relay_status_eq, SubmissionRecord,
  RelayAction,
}
use over_sync.Relay.Tracker.{RelayTrackerConfig, Tracker, get, key_of, persist}
use over_sync.Relay.Steps.{Reach, Saved, IsOrderly}
use over_sync.Relay.Safety.{broadcast_at_most_once}
use over_sync.Relay.Invariant.Reach.{Reach-Holds}

-- `RelayTrackerStats`, without the counters that are fields of the tracker
pub record RelayTrackerStats : Type 0 where
  pub tracked : ℕ
  pub in_flight_count : ℕ
  pub pending_confirmations : ℕ
  pub succeeded_count : ℕ
  pub failed_count : ℕ
  pub total_attempts : ℕ
  pub retries : ℕ
  pub broadcasts : ℕ

abbrev count_of : RelayStatus → RelayStatus → ℕ
count_of status other = if status == other then 1 else 0

-- A turn of the loop of `getStats`
abbrev add_record : SubmissionRecord → RelayTrackerStats → RelayTrackerStats
add_record r stats = record {
  tracked = stats.tracked + 1;
  in_flight_count = stats.in_flight_count + count_of r.status in_flight;
  pending_confirmations = stats.pending_confirmations + count_of r.status pending;
  succeeded_count = stats.succeeded_count + count_of r.status succeeded;
  failed_count = stats.failed_count + count_of r.status failed;
  total_attempts = stats.total_attempts + r.attempts;
  retries = stats.retries + (if ltb 1 r.attempts then r.attempts - 1 else 0);
  broadcasts = stats.broadcasts + r.broadcasts;
}

unfoldable stats_of : (ℕ → SubmissionRecord) → List ℕ → RelayTrackerStats
stats_of heap [] = record {
  tracked = 0;
  in_flight_count = 0;
  pending_confirmations = 0;
  succeeded_count = 0;
  failed_count = 0;
  total_attempts = 0;
  retries = 0;
  broadcasts = 0;
}
stats_of heap (i ∷ is) = let rest = stats_of heap is in add_record (heap i) rest

-- `getStats`
unfoldable pub get_stats : Tracker → RelayTrackerStats
unfolding stats_of
get_stats s = stats_of s.heap s.records

abbrev succeeded_at : Tracker → Option ℕ → Bool
succeeded_at s none = false
succeeded_at s (some i) = (s.heap i).status == succeeded

-- `isHandled`
abbrev pub is_handled : RelayTrackerConfig → RelayAction → Tracker → Bool
is_handled cfg action s = succeeded_at s (get (key_of cfg action) s)

-- `reset`, which leaves the operations that run
abbrev pub reset : RelayTrackerConfig → Tracker → Tracker
reset cfg s = persist cfg (record s {
  records = [];
  reconciling = [];
  duplicates_skipped = 0;
  in_flight_skipped = 0;
  order_blocked = 0;
  restored_count = 0;
  store_errors = 0;
})

counted_once :
    (st : RelayStatus)
    → count_of st in_flight + count_of st pending + count_of st succeeded + count_of st failed ≡ 1
counted_once in_flight = refl
counted_once pending = refl
counted_once succeeded = refl
counted_once failed = refl

abbrev pub Balanced : ℕ → RelayTrackerStats → Type 0
Balanced tracked stats =
    (stats.tracked ≡ tracked)
    × (stats.in_flight_count + stats.pending_confirmations + stats.succeeded_count
          + stats.failed_count
        ≡ tracked)
    × (stats.broadcasts ≤ tracked)
    × (stats.retries ≤ stats.total_attempts)

stats_of-Balanced :
    (heap : ℕ → SubmissionRecord) (is : List ℕ)
    → All (λ i. (heap i).broadcasts ≤ 1) is
    → Balanced (length is) (stats_of heap is)
unfolding stats_of
stats_of-Balanced heap [] h = (refl, refl, omega arith, omega arith)
stats_of-Balanced heap (i ∷ is) h =
    let rest = stats_of-Balanced heap is h.1 in
    ground (arith, rest, counted_once (heap i).status, h.0)

-- The statistics of a tracker in a state that it reaches without a `forget` of a record in flight, and
-- with all that a restart has to find in the store at each restart: every record is counted in exactly one
-- of the four statuses, there are at most as many broadcasts as records, and at most as many retries
-- as attempts.
pub get_stats-Balanced :
    {cfg : RelayTrackerConfig} {s : Tracker} (r : Reach cfg s)
    → IsOrderly cfg (Saved cfg) r
    → Balanced (length s.records) (get_stats s)
unfolding get_stats
get_stats-Balanced {s = s} r orderly = stats_of-Balanced s.heap s.records (
    All-mono (λ i. i < s.next) (λ i. (s.heap i).broadcasts ≤ 1) s.records
      (λ i lt. (broadcast_at_most_once r orderly i lt).0) (Reach-Holds r orderly).below)

-- `pollDelayFor`, with the settings `backoff` and `pollIntervalMs`
abbrev pub poll_delay_for : (backoff : Bool) (poll_interval_ms attempt : ℕ) → ℕ
poll_delay_for backoff poll_interval_ms attempt =
    if backoff then poll_interval_ms * 2 ^ max 0 (attempt - 1) else poll_interval_ms

-- The delays of one call of `reconcile` with `n + 1` polls: after the polls 1 to `n`
unfoldable pub total_delay : (backoff : Bool) (poll_interval_ms n : ℕ) → ℕ
total_delay backoff ms zero = 0
total_delay backoff ms (suc n) = total_delay backoff ms n + poll_delay_for backoff ms (suc n)

before_doubling : (n : ℕ) → max 0 (suc n - 1) ≡ n
before_doubling n = omega arith

doubled : (ms n : ℕ) → total_delay true ms n + ms ≡ ms * 2 ^ n
unfolding total_delay
doubled ms zero = simp unary_clauses (omega arith)
doubled ms (suc n) = rw (before_doubling n) (simp unary_clauses (omega (arith, doubled ms n)))

linear : (ms n : ℕ) → total_delay false ms n ≡ ms * n
unfolding total_delay
linear ms zero = simp unary_clauses refl
linear ms (suc n) = simp unary_clauses (omega (arith, linear ms n))

-- The time that one call of `reconcile` waits between `n + 1` polls: with `backoff` it is less than
-- `2 ^ n` intervals, by exactly one, and without it it is `n` intervals.
pub total_delay_lem :
    (ms n : ℕ) → (total_delay true ms n + ms ≡ ms * 2 ^ n) × (total_delay false ms n ≡ ms * n)
total_delay_lem ms n = (doubled ms n, linear ms n)
