-- ===== src/Examples/Relays.antt =====
-- A run of the relayer's submission tracker: a claim whose broadcast times out and is confirmed later.
use over_sync.Prelude.{
  ℕ, ◌+◌, ◌≤◌, ◌≡◌, refl, ◌↔◌, true, false, none, some, [], Text, text, text_beq, nat_eq, arith,
}
use over_sync.Relay.Records.{in_flight, pending, RelayAction, ConfirmReply, answered, is_succeeded}
use over_sync.Relay.Keys.{compute_order_key, compute_submission_key, humanize_order_id}
use over_sync.Relay.Tracker.{
  RelayTrackerConfig, Tracker, without_key, find_key, find_blocking, get, get_blocking_record,
  order_key_of, key_of, forget, idle,
}
use over_sync.Relay.Submit.{submit, submit_new, submit_existing}
use over_sync.Relay.Drive.{begin_broadcast, staged, broadcast_failed, reconcile, poll_answer}
use over_sync.Relay.Restore.{is_set, restore, restore_entries, start}
use over_sync.Relay.Steps.{
  restart_status, Saved, IsOrderly, IsCareful, submitted, begun, is_staged, not_done, polled, Reach,
  new, next,
}
use over_sync.Relay.Invariant.{task_fits}
use over_sync.Relay.Safety.{broadcast_at_most_once}
use over_sync.Relay.Safety.Restarts.{restart_finds}
use over_sync.Relay.Safety.Forgets.{forget-in_flight}
use over_sync.Relay.Polling.{EndsWith, verdict}
use over_sync.Relay.Polling.Budget.{reconciled, reconcile_ends}

abbrev cfg : RelayTrackerConfig
cfg = record {
  max_attempts = 2;
  has_confirm = true;
  has_store = true;
  save = λ l. some l;
  serializable = λ t. some t;
  digest = λ t. t;
  quoted = λ t. t;
}

abbrev action_named : Text → RelayAction
action_named name = record {
  order_id = text "7";
  side = text "eth";
  action = name;
  chain = text "stellar";
  network = none;
}

abbrev claim : RelayAction
claim = action_named (text "claim")

abbrev refund : RelayAction
refund = action_named (text "refund")

abbrev s0 : Tracker
s0 = start cfg []

abbrev s1 : Tracker
s1 = (submit cfg claim true 1 s0).1

abbrev s2 : Tracker
s2 = begin_broadcast 0 2 s1

abbrev s3 : Tracker
s3 = (staged cfg 0 (record { tx_hash = text "aa"; network = none }) 3 s2).1

abbrev s4 : Tracker
s4 = (broadcast_failed cfg 0 (text "timeout") 4 s3).1

abbrev yes_reply : ConfirmReply
yes_reply = answered (record { state = is_succeeded; error = none; result = none })

abbrev s5 : Tracker
s5 = (poll_answer cfg 0 1 false yes_reply 5 s4).1

reach1 : Reach cfg s1
reach1 = next new (submitted claim true 1 (λ i e n. refl))

reach2 : Reach cfg s2
unfolding start restore restore_entries submit submit_new find_key find_blocking
reach2 = next reach1 (begun 0 2 refl)

reach3 : Reach cfg s3
unfolding start restore restore_entries submit submit_new find_key find_blocking
reach3 = next reach2 (is_staged 0 (record { tx_hash = text "aa"; network = none }) 3 refl)

reach4 : Reach cfg s4
unfolding start restore restore_entries submit submit_new find_key find_blocking staged
reach4 = next reach3 (not_done 0 (text "timeout") 4 refl)

reach5 : Reach cfg s5
unfolding start restore restore_entries submit submit_new find_key find_blocking staged
    broadcast_failed reconcile
reach5 = next reach4 (polled 0 1 false yes_reply 5 refl)

careful2 : IsCareful cfg reach2
unfolding reach1 reach2
careful2 = ((tt, tt), tt)

careful4 : IsCareful cfg reach4
unfolding reach1 reach2 reach3 reach4
careful4 = ((((tt, tt), tt), tt), tt)

orderly3 : IsOrderly cfg (Saved cfg) reach3
unfolding reach1 reach2 reach3
orderly3 = (((tt, tt), tt), tt)

broadcast_at_most_once_example :
    ((s3.heap 0).broadcasts ≤ 1)
    × (((s3.heap 0).broadcasts ≡ 1) ↔ (is_set (s3.heap 0).tx_hash ≡ true))
unfolding start restore restore_entries submit submit_new find_key find_blocking staged
broadcast_at_most_once_example = broadcast_at_most_once reach3 orderly3 0 (ground arith)

restart_finds_example :
    let t = start cfg s4.disk in
    (j : ℕ) × (get (s4.heap 0).key t ≡ some j)
    × ((t.heap j).order_key ≡ (s4.heap 0).order_key)
    × ((t.heap j).tx_hash ≡ (s4.heap 0).tx_hash)
    × ((t.heap j).broadcasts ≡ (s4.heap 0).broadcasts)
    × ((t.heap j).status ≡ restart_status (s4.heap 0).status)
unfolding start restore restore_entries submit submit_new find_key find_blocking staged
    broadcast_failed reconcile
restart_finds_example = restart_finds (refl, λ l. refl) reach4 careful4 0 refl

forget-in_flight_example :
    let out = forget cfg (key_of cfg claim) false s2 in
    (out.0 ≡ true)
    × (get (key_of cfg claim) out.1 ≡ none)
    × ((action : RelayAction)
        → order_key_of cfg action ≡ (s2.heap 0).order_key
        → get_blocking_record cfg action out.1 ≡ none)
    × (out.1.heap 0 ≡ s2.heap 0)
    × (out.1.tasks 0 ≡ s2.tasks 0)
    × (task_fits in_flight (s2.tasks 0) ≡ true)
unfolding start restore restore_entries submit submit_new find_key find_blocking compute_order_key
    compute_submission_key humanize_order_id text_beq
forget-in_flight_example = forget-in_flight reach2 careful2 (key_of cfg claim) 0 refl refl

abbrev replies : ℕ → ConfirmReply
replies p = yes_reply

abbrev pending_state : Tracker
pending_state = record s3 { tasks = λ _. idle }

reconcile_ends_example :
    EndsWith 0
      (verdict (λ p. is_succeeded) 1 1)
      (1 + 2)
      (reconciled cfg replies (λ p. p) 0 true 5 1 pending_state)
unfolding start restore restore_entries submit submit_new find_key find_blocking staged
reconcile_ends_example =
    reconcile_ends cfg replies (λ p. p) 0 1 true 5 pending_state refl refl refl refl

-- The run of the finding: the record in flight is forgotten, a refund of the same order is submitted
-- and broadcast, and then the claim is broadcast too.
abbrev forgotten : Tracker
forgotten = (forget cfg (key_of cfg claim) false s2).1

abbrev refunded : Tracker
refunded =
    (staged cfg 1 (record { tx_hash = text "bb"; network = none }) 8
      (begin_broadcast 1 7 (submit cfg refund false 6 forgotten).1)).1

abbrev both : Tracker
both = (staged cfg 0 (record { tx_hash = text "aa"; network = none }) 9 refunded).1

two_broadcasts :
    ((both.heap 0).status ≡ pending)
    × ((both.heap 1).status ≡ pending)
    × ((both.heap 0).broadcasts ≡ 1)
    × ((both.heap 1).broadcasts ≡ 1)
    × ((both.heap 0).order_key ≡ (both.heap 1).order_key)
unfolding start restore restore_entries submit submit_new submit_existing find_key find_blocking
    staged forget without_key compute_order_key compute_submission_key humanize_order_id text_beq
two_broadcasts = (refl, refl, refl, refl, refl)
