-- ===== src/Relay/Safety/Forgets.antt =====
-- What a `forget` of a record in flight leaves.
use mathlib.Core.Path.{subst}
use over_sync.Prelude.{
  ℕ, ◌<◌, ◌≡◌, ◌≢◌, refl, sym, ap, ◌∙◌, true, false, none, some, Text, nat_eq, text_eq, ◌==◌,
  Option-cases, ◌||◌, arith, inl, inr,
}
use over_sync.Relay.Records.{in_flight, pending, succeeded, failed, relay_status_eq, RelayAction}
use over_sync.Relay.Tracker.{
  RelayTrackerConfig, Tracker, find_blocking, without_key, get, get_blocking_record, key_of,
  order_key_of, forget,
}
use over_sync.Relay.Steps.{Reach, IsCareful}
use over_sync.Relay.Numbers.{All-includes}
use over_sync.Relay.Invariant.{task_fits, Holds}
use over_sync.Relay.Invariant.Lookups.{
  find_key_found, find_key_absent, find_blocking_found, All-without_key, same_order,
}
use over_sync.Relay.Invariant.Submits.{without_key-absent}
use over_sync.Relay.Safety.{blocking_is_live, careful-Holds, live_status}

-- Once the record that holds the lock of an order is taken out of the Map, no record blocks the order.
lock_freed :
    (cfg : RelayTrackerConfig) (s : Tracker)
    → Holds s
    → (i : ℕ) (key : Text) (action : RelayAction) → i < s.next
    → (s.heap i).status ≢ failed
    → order_key_of cfg action ≡ (s.heap i).order_key
    → (s.heap i).key ≡ key
    → find_blocking s.heap
        (order_key_of cfg action)
        (key_of cfg action)
        (without_key s.heap key s.records)
      ≡ none
lock_freed cfg s inv i key action lt alive same own =
    let left = without_key s.heap key s.records in
    elim (Option-cases (find_blocking s.heap (order_key_of cfg action) (key_of cfg action) left)) [
      | inl free ↦ free
      | inr (j, busy) ↦
          let at =
            find_blocking_found s.heap (order_key_of cfg action) (key_of cfg action) left j busy in
          let blocks =
            blocking_is_live (s.heap j) (order_key_of cfg action) (key_of cfg action) at.1 in
          let below = All-without_key s.heap key (λ k. k < s.next) s.records inv.below in
          let here : j ≡ i =
            same_order inv j i (All-includes (λ k. k < s.next) left j below at.0) lt blocks.1
              (live_status (s.heap i).status alive) (blocks.0 ∙ same) in
          absurd (
            All-includes _ left j (without_key-absent cfg s.heap key s.records) at.0
              (ap (λ k. (s.heap k).key) here ∙ own))
    ]

-- A `forget` without `force` of a record in flight, in a state that a tracker reaches without another
-- such `forget`, and with a store that holds each snapshot whole if it was restarted, is granted,
-- although the record's operation runs. The Map has no record of the key any more, no record holds the
-- lock of the order against any action of it, and the record and its operation are as they were.
pub forget-in_flight :
    {cfg : RelayTrackerConfig} {s : Tracker} (r : Reach cfg s)
    → IsCareful cfg r
    → (key : Text) (i : ℕ) → get key s ≡ some i
    → (s.heap i).status ≡ in_flight
    → let out = forget cfg key false s in
      (out.0 ≡ true)
      × (get key out.1 ≡ none)
      × ((action : RelayAction)
          → order_key_of cfg action ≡ (s.heap i).order_key
          → get_blocking_record cfg action out.1 ≡ none)
      × (out.1.heap i ≡ s.heap i)
      × (out.1.tasks i ≡ s.tasks i)
      × (task_fits in_flight (s.tasks i) ≡ true)
unfolding forget
forget-in_flight {cfg} {s} r careful key i found e =
    let inv = careful-Holds r careful in
    let at = find_key_found s.heap key s.records i found in
    let lt = All-includes (λ j. j < s.next) s.records i inv.below at.0 in
    let fits : task_fits in_flight (s.tasks i) ≡ true =
      subst (λ st. task_fits st (s.tasks i) ≡ true) e (inv.sound i lt).1 in
    let free : ((s.heap i).status == succeeded || (s.heap i).status == pending) ≡ false =
      rw e refl in
    let alive : (s.heap i).status ≢ failed = λ dead. ground (arith, sym e ∙ dead) in
    rw (found, forget, free)
      (
        refl,
        find_key_absent s.heap key _ (without_key-absent cfg s.heap key s.records),
        λ action same. lock_freed cfg s inv i key action lt alive same at.1,
        refl,
        refl,
        fits,
      )
