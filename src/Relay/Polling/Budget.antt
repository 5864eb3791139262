-- ===== src/Relay/Polling/Budget.antt =====
-- `reconcile` from its start to its end.
use over_sync.Prelude.{
  ℕ, suc, ◌+◌, ◌≡◌, Bool, true, false, includes, text_eq, arith, ==_refl, nat_eq,
}
use over_sync.Relay.Records.{pending, ConfirmReply, Response, RelayConfirmationState}
use over_sync.Relay.Tracker.{RelayTrackerConfig, polling, Tracker}
use over_sync.Relay.Drive.{reconcile, confirmation_of}
use over_sync.Relay.Polling.{drive, verdict, EndsWith, turns, drive_ends}

module _ (cfg : RelayTrackerConfig) (replies : ℕ → ConfirmReply) (clock : ℕ → ℕ) (i : ℕ) where
  abbrev states : ℕ → RelayConfirmationState
  states p = (confirmation_of (replies p)).state

  -- The state in which a pending record's `reconcile` awaits its first answer, run to the end
  abbrev pub reconciled : (duplicate : Bool) (now more : ℕ) → Tracker → Response × Tracker
  reconciled duplicate now more s =
      drive cfg replies clock (turns more) i (reconcile cfg i duplicate now s).1

  -- With a confirmer and a budget of at least one attempt, `reconcile` of a pending record that nobody
  -- polls yet ends, whatever the answers are, after at most as many attempts as the budget has.
  -- The first answer that is a success or a failure decides, and if there is none the last one: a hash
  -- that is not found fails the record, and any other leaves it pending, with a time-out.
  pub reconcile_ends :
      (more : ℕ) (duplicate : Bool) (now : ℕ) (s : Tracker)
      → cfg.has_confirm ≡ true
      → cfg.max_attempts ≡ suc more
      → (s.heap i).status ≡ pending
      → includes s.reconciling (s.heap i).key ≡ false
      → EndsWith i
          (verdict states 1 more)
          ((s.heap i).attempts + cfg.max_attempts)
          (reconciled duplicate now more s)
  unfolding reconcile
  reconcile_ends more duplicate now s can budget st free =
      let s' : Tracker = (reconcile cfg i duplicate now s).1 in
      let here : (s'.tasks i ≡ polling 1 duplicate)
          × ((s'.heap i).status ≡ pending)
          × ((s'.heap i).attempts ≡ (s.heap i).attempts + 1) =
        rw (can, free) (ground (arith, st, ==_refl i)) in
      let rest =
        drive_ends cfg replies clock i more s' 1 duplicate (omega (arith, budget)) here.0 here.1 in
      (rest.0, rest.1, rest.2, omega (arith, rest.3, here.2, budget))
