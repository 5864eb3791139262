-- ===== src/Relay/Prune.antt =====
-- `prune` of relayer/src/relay-submission-store.ts: what the file store leaves out of a snapshot.
pub mod Newest
use over_sync.Prelude.{
  ℕ, zero, suc, Bool, true, false, not, Option, none, some, List, [], ◌∷◌, ◌++◌, select, take, ltb,
  if◌then◌else◌,
}
use over_sync.Relay.Records.{in_flight, pending, StoredStatus, known, PersistedSubmission}
use over_sync.Relay.Tracker.{or_option}

abbrev or_value : Option ℕ → ℕ → ℕ
or_value none other = other
or_value (some n) other = n

-- `completedAt ?? lastAttemptAt ?? firstSeenAt`
abbrev pub last_seen_at : PersistedSubmission → ℕ
last_seen_at e = or_value (or_option e.completed_at e.last_attempt_at) e.first_seen_at

abbrev is_live_status : StoredStatus → Bool
is_live_status (known in_flight) = true
is_live_status (known pending) = true
is_live_status _ = false

abbrev pub is_live : PersistedSubmission → Bool
is_live e = is_live_status e.status

abbrev pub is_terminal : PersistedSubmission → Bool
is_terminal e = not (is_live e)

-- The stable sort of JavaScript by the comparison of `prune`: an entry goes before those that are not
-- newer.
unfoldable pub insert_newest :
    PersistedSubmission → List PersistedSubmission → List PersistedSubmission
insert_newest e [] = e ∷ []
insert_newest e (f ∷ fs) =
    let rest = insert_newest e fs in
    if ltb (last_seen_at e) (last_seen_at f) then f ∷ rest else e ∷ f ∷ fs

unfoldable pub sort_newest : List PersistedSubmission → List PersistedSubmission
unfolding insert_newest
sort_newest [] = []
sort_newest (e ∷ es) = insert_newest e (sort_newest es)

-- `prune`
unfoldable pub prune : ℕ → List PersistedSubmission → List PersistedSubmission
unfolding sort_newest
prune max_records entries =
    select is_live entries ++ take max_records (sort_newest (select is_terminal entries))

-- The entries that `prune` leaves out
abbrev pub drop {ℓ} : {A : Type ℓ} → ℕ → List A → List A
drop zero xs = xs
drop (suc n) [] = []
drop (suc n) (x ∷ xs) = drop n xs

unfoldable pub pruned_away : ℕ → List PersistedSubmission → List PersistedSubmission
unfolding sort_newest
pruned_away max_records entries = drop max_records (sort_newest (select is_terminal entries))
