-- ===== src/Relay/Settled/Forever.antt =====
-- A submission that succeeded is never submitted again, not even after restarts.
use over_sync.Prelude.{ℕ, ◌≡◌, refl, true, false, Bool, Option, Text, text_eq, nat_eq, arith}
use over_sync.Relay.Records.{
  RelayStatus, relay_status_eq, succeeded, RelayAction, Response, resolved,
}
use over_sync.Relay.Tracker.{RelayTrackerConfig, Tracker}
use over_sync.Relay.Submit.{submit_existing}
use over_sync.Relay.Steps.{Step, Reach, next}

-- `Later cfg s t`: steps lead from `s` to `t`.
pub data Later (cfg : RelayTrackerConfig) (s : Tracker) : Tracker → Type 0 where
  now : Later cfg s s
  after_step : {t u : Tracker} → Later cfg s t → Step cfg t u → Later cfg s u

abbrev pub Later-Reach :
    {cfg : RelayTrackerConfig} {s t : Tracker} → Reach cfg s → Later cfg s t → Reach cfg t
Later-Reach r now = r
Later-Reach r (after_step l st) = next (Later-Reach r l) st

-- What `submit` gives for an action that is settled: its hash at once, and nothing of it is run.
abbrev pub AlreadyHandled : Option Text → Tracker → Response × Tracker → Type 0
AlreadyHandled hash t out =
    (out.1.heap ≡ t.heap)
    × (out.1.records ≡ t.records)
    × (out.1.tasks ≡ t.tasks)
    × (result : Option Text) × (network : Option Text) × (out.0
        ≡ resolved (record {
          already_handled = true;
          result = result;
          duplicate = true;
          tx_hash = hash;
          network = network;
          reconciled = false;
        }))

already_handled :
    (cfg : RelayTrackerConfig) (hash : Option Text) (action : RelayAction) (i : ℕ)
    (st : RelayStatus) (running : Bool) (clock : ℕ) (t : Tracker)
    → st ≡ succeeded
    → (t.heap i).tx_hash ≡ hash
    → AlreadyHandled hash t (submit_existing cfg action i (t.heap i) st running clock t)
unfolding submit_existing
already_handled cfg hash action i succeeded running clock t e same =
    (refl, refl, refl, (t.heap i).result, (t.heap i).network, rw same refl)
already_handled cfg hash action i _ running clock t e same = absurd (ground arith)
