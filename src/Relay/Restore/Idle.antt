-- ===== src/Relay/Restore/Idle.antt =====
-- No operation runs in a tracker that has just started.
use over_sync.Prelude.{ℕ, ◌≡◌, refl, List, [], ◌∷◌, is_empty, Bool-cases, inl, inr, nat_eq, arith}
use over_sync.Relay.Records.{PersistedSubmission}
use over_sync.Relay.Tracker.{RelayTrackerConfig, idle, Tracker}
use over_sync.Relay.Restore.{restore_entry, restore_entries, restore, start, empty}

abbrev AllIdle : Tracker → Type 0
AllIdle s = (i : ℕ) → s.tasks i ≡ idle

module _ (cfg : RelayTrackerConfig) where
  restore_entry-AllIdle :
      (entry : PersistedSubmission) (s : Tracker) → AllIdle s → AllIdle (restore_entry cfg entry s)
  unfolding restore_entry
  restore_entry-AllIdle entry s h i = elim (Bool-cases (is_empty entry.key)) [
    | inl without ↦ rw without (h i)
    | inr keyed ↦ rw keyed (ground (arith, h i))
  ]

  restore_entries-AllIdle :
      (entries : List PersistedSubmission) (s : Tracker)
      → AllIdle s
      → AllIdle (restore_entries cfg entries s)
  unfolding restore_entries
  restore_entries-AllIdle [] s h = h
  restore_entries-AllIdle (entry ∷ entries) s h =
      restore_entries-AllIdle entries (restore_entry cfg entry s) (restore_entry-AllIdle entry s h)

  pub start-AllIdle : (disk : List PersistedSubmission) (i : ℕ) → (start cfg disk).tasks i ≡ idle
  unfolding start restore
  start-AllIdle disk i = elim (Bool-cases cfg.has_store) [
    | inl stored ↦ rw stored (restore_entries-AllIdle disk (empty disk) (λ j. refl) i)
    | inr without ↦ rw without refl
  ]
