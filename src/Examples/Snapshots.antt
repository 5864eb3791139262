-- ===== src/Examples/Snapshots.antt =====
-- A snapshot of a pending entry and two settled ones, of which the store keeps one.
use over_sync.Prelude.{
  ℕ, ◌+◌, ◌≤◌, ◌≡◌, Bool, Option, none, some, List, [], ◌∷◌, All, select, Text, text,
}
use over_sync.Relay.Records.{pending, succeeded, known, StoredStatus, PersistedSubmission}
use over_sync.Relay.Prune.{last_seen_at, is_live, is_terminal, prune, pruned_away}
use over_sync.Relay.Prune.Newest.{count, prune-newest}

abbrev entry_of : Text → StoredStatus → Option ℕ → PersistedSubmission
entry_of key status completed_at = record {
  key = key;
  order_key = key;
  order_id = key;
  side = text "eth";
  action = text "claim";
  chain = text "stellar";
  network = none;
  tx_hash = some (text "aa");
  status = status;
  attempts = 1;
  max_attempts = 2;
  broadcasts = 1;
  last_error = none;
  terminal_reason = none;
  result = none;
  first_seen_at = 1;
  last_attempt_at = some 2;
  completed_at = completed_at;
}

abbrev entries : List PersistedSubmission
entries =
    entry_of (text "a") (known succeeded) (some 5)
    ∷ entry_of (text "b") (known pending) none
    ∷ entry_of (text "c") (known succeeded) (some 9)
    ∷ []

prune-newest_example :
    ((p : PersistedSubmission → Bool)
      → count p entries ≡ count p (prune 1 entries) + count p (pruned_away 1 entries))
    × (count is_live (pruned_away 1 entries) ≡ 0)
    × (count is_terminal (prune 1 entries) ≤ 1)
    × All
        (λ d. All (λ k. last_seen_at d ≤ last_seen_at k) (select is_terminal (prune 1 entries)))
        (pruned_away 1 entries)
prune-newest_example = prune-newest 1 entries
