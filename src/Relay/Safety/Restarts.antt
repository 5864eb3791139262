-- ===== src/Relay/Safety/Restarts.antt =====
-- What a tracker finds again after a restart.
use over_sync.Prelude.{
  ℕ, ◌<◌, ◌≡◌, refl, sym, ap, ◌∙◌, true, some, List, [], ◌∷◌, map, Text, includes, nat_eq, text_eq,
  ◌==◌, Bool-cases, arith, inl, inr,
}
use over_sync.Relay.Records.{RelayStatus, in_flight, relay_status_eq, SubmissionRecord}
use over_sync.Relay.Tracker.{RelayTrackerConfig, Tracker, Task, idle, find_key, get}
use over_sync.Relay.Restore.{start}
use over_sync.Relay.Restore.Idle.{start-AllIdle}
use over_sync.Relay.Steps.{View, view, Reach, IsCareful, WholeStore, restart_status}
use over_sync.Relay.Numbers.{All-includes}
use over_sync.Relay.Invariant.{task_fits}
use over_sync.Relay.Invariant.Lookups.{find_key_found}
use over_sync.Relay.Invariant.Restart.{start-Restored}
use over_sync.Relay.Invariant.Reach.{Reach-Holds}
use over_sync.Relay.Durable.Reach.{Reach-Saved, IsCareful-Saved}
use over_sync.Relay.Safety.{get_held}

-- Two Maps of the same views find records of the same view.
pub find_key-views :
    (heap heap' : ℕ → SubmissionRecord) (key : Text) (is is' : List ℕ) (i : ℕ)
    → map (λ j. view (heap' j)) is' ≡ map (λ j. view (heap j)) is
    → find_key heap key is ≡ some i
    → (j : ℕ) × (find_key heap' key is' ≡ some j) × (view (heap' j) ≡ view (heap i))
unfolding find_key
find_key-views heap heap' key [] is' i e f = absurd (ground arith)
find_key-views heap heap' key (k ∷ is) [] i e f = absurd (ground arith)
find_key-views heap heap' key (k ∷ is) (k' ∷ is') i e f =
    let top : view (heap' k') ≡ view (heap k) = cc in
    let rest : map (λ j. view (heap' j)) is' ≡ map (λ j. view (heap j)) is = cc in
    let keys : (heap' k').key ≡ (heap k).key = ap (λ (v : View). v.key) top in
    elim (Bool-cases ((heap k).key == key)) [
      | inl here ↦ (k', rw (keys, here) refl, top ∙ ap (λ n. view (heap n)) (ground arith))
      | inr there ↦
          let found = find_key-views heap heap' key is is' i rest (ground arith) in
          (found.0, rw (keys, there) found.1, found.2)
    ]

-- A restart in any state that a tracker with a store that holds each snapshot whole reaches, without a
-- `forget` of a record in flight, and whatever is running then: each record that the Map holds is found
-- again under its key, with the same order, hash and number of broadcasts; its status is as it was, but
-- a record that was in flight has failed.
pub restart_finds :
    {cfg : RelayTrackerConfig} {s : Tracker}
    → WholeStore cfg
    → (r : Reach cfg s) → IsCareful cfg r
    → (i : ℕ) → includes s.records i ≡ true
    → let t = start cfg s.disk in
      (j : ℕ) × (get (s.heap i).key t ≡ some j)
      × ((t.heap j).order_key ≡ (s.heap i).order_key)
      × ((t.heap j).tx_hash ≡ (s.heap i).tx_hash)
      × ((t.heap j).broadcasts ≡ (s.heap i).broadcasts)
      × ((t.heap j).status ≡ restart_status (s.heap i).status)
restart_finds {cfg} {s} (stored, saves) r careful i m =
    let orderly = IsCareful-Saved r careful in
    let inv = Reach-Holds r orderly in
    let t : Tracker = start cfg s.disk in
    let (back, _, _) = start-Restored cfg s stored inv (Reach-Saved cfg stored saves r orderly) in
    let (j, found, same) =
      find_key-views s.heap t.heap (s.heap i).key s.records t.records i
        (start-Restored cfg s stored inv (Reach-Saved cfg stored saves r orderly)).1
        (get_held s i inv m) in
    let lt =
      All-includes (λ k. k < t.next) t.records j back.below
        (find_key_found t.heap (s.heap i).key t.records j found).0 in
    (
      j,
      found,
      ap (λ (v : View). v.order_key) same,
      ap (λ (v : View). v.tx_hash) same,
      ap (λ (v : View). v.broadcasts) same,
      sym (
            not_in_flight (t.heap j).status (t.tasks j) (back.sound j lt).1
              (start-AllIdle cfg s.disk j))
          ∙ ap (λ (v : View). v.status) same,
    )
  where
    not_in_flight :
        (st : RelayStatus) (task : Task)
        → task_fits st task ≡ true
        → task ≡ idle
        → restart_status st ≡ st
    not_in_flight in_flight task fits e =
        absurd (ground (arith, ap (task_fits in_flight) (sym e) ∙ fits))
    not_in_flight _ task fits e = refl
