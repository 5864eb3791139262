-- ===== src/ChainEvents/Once.antt =====
-- A settlement event is applied once, whatever the services do between its deliveries.
use over_sync.Prelude.{
  ℕ, ◌≡◌, refl, inl, inr, true, List, [], ◌∷◌, arith, Bool-cases, ◌==◌, any, Option, Text, text_eq,
  text_beq_iff,
}
use over_sync.Errors.{Result, ok, err, bind_ok, bind_err}
use over_sync.Store.{Store, ChainName}
use over_sync.Service.Commands.{Command, execute}
use over_sync.Secrets.{reveal}
use over_sync.ChainEvents.{
  SettlementEvent, ProcessOutcome, duplicate, has_processed_event, mark_event_processed, event_key,
  apply, process, process_unseen, advance,
}
use over_sync.ChainEvents.Frame.{execute-Keeps, reveal-Keeps}
use over_sync.ChainEvents.Frame.Events.{apply-Keeps, advance-Keeps}

-- The key is among the processed events.
abbrev Seen : Text → Store → Type 0
Seen key s = any (λ k. k == key) s.processed_events ≡ true

mark-Seen : (key : Text) (s : Store) → Seen key (mark_event_processed key s).1
unfolding mark_event_processed
mark-Seen key s = elim (Bool-cases (any (λ k. k == key) s.processed_events)) [
  | inl seen ↦ rw (seen, seen) refl
  | inr fresh ↦ rw fresh (ground (arith, text_beq_iff key key))
]

-- It stays there under what keeps the processed events, and under the mark of another one.
Seen-after :
    (key : Text) (s s' : Store)
    → Seen key s
    → s'.processed_events ≡ s.processed_events
    → Seen key s'
Seen-after key s s' seen same = rw same seen

mark-keeps_Seen :
    (key other : Text) (s : Store) → Seen key s → Seen key (mark_event_processed other s).1
unfolding mark_event_processed
mark-keeps_Seen key other s seen = elim (Bool-cases (any (λ k. k == other) s.processed_events)) [
  | inl old ↦ rw old seen
  | inr fresh ↦ rw (fresh, seen) (ground arith)
]

module _ (sha256 : List ℕ → Text) (now : ℕ) where
  process-Seen_later :
      (later : ℕ) (network_id : Text) (ev : SettlementEvent) (s : Store)
      → Seen (event_key network_id ev) s
      → process sha256 later network_id ev s ≡ (ok duplicate, s)
  unfolding process has_processed_event
  process-Seen_later later network_id ev s seen = rw seen refl

  process_unseen-Seen :
      (key : Text) (ev : SettlementEvent) (o : ProcessOutcome) (s : Store)
      → (process_unseen sha256 now key ev s).0 ≡ ok o
      → Seen key (process_unseen sha256 now key ev s).1
  unfolding mark_event_processed
  process_unseen-Seen key ev o s h = split (apply sha256 now ev s) refl
    where
      split :
          (out : Result ProcessOutcome × Store)
          → apply sha256 now ev s ≡ out
          → Seen key (process_unseen sha256 now key ev s).1
      split (ok x, s') e = rw (bind_ok (apply sha256 now ev) _ s s' x e) (mark-Seen key s')
      split (err x, s') e = absurd (ground (arith, bind_err (apply sha256 now ev) _ s s' x e))

  process-Seen :
      (key network_id : Text) (ev : SettlementEvent) (o : ProcessOutcome) (s : Store)
      → event_key network_id ev ≡ key
      → (process sha256 now network_id ev s).0 ≡ ok o
      → Seen (event_key network_id ev) (process sha256 now network_id ev s).1
  unfolding process has_processed_event
  process-Seen key network_id ev o s same h =
      elim (Bool-cases (any (λ k. k == event_key network_id ev) s.processed_events)) [
        | inl seen ↦ rw (seen, seen) refl
        | inr fresh ↦
            rw fresh (process_unseen-Seen (event_key network_id ev) ev o s (rw fresh at h))
      ]

  process_unseen-keeps_Seen :
      (key other : Text) (ev : SettlementEvent) (s : Store)
      → Seen key s
      → Seen key (process_unseen sha256 now other ev s).1
  unfolding mark_event_processed
  process_unseen-keeps_Seen key other ev s seen = split (apply sha256 now ev s) refl
    where
      split :
          (out : Result ProcessOutcome × Store)
          → apply sha256 now ev s ≡ out
          → Seen key (process_unseen sha256 now other ev s).1
      split (ok x, s') e = rw (bind_ok (apply sha256 now ev) _ s s' x e) (
          mark-keeps_Seen key other s'
            (Seen-after key s s' seen (rw e at (apply-Keeps sha256 now ev s))))
      split (err x, s') e =
          rw (bind_err (apply sha256 now ev) _ s s' x e)
            (Seen-after key s s' seen (rw e at (apply-Keeps sha256 now ev s)))

  process-keeps_Seen :
      (key network_id : Text) (ev : SettlementEvent) (s : Store)
      → Seen key s
      → Seen key (process sha256 now network_id ev s).1
  unfolding process has_processed_event
  process-keeps_Seen key network_id ev s seen =
      elim (Bool-cases (any (λ k. k == event_key network_id ev) s.processed_events)) [
        | inl old ↦ rw old seen
        | inr fresh ↦ rw fresh (process_unseen-keeps_Seen key (event_key network_id ev) ev s seen)
      ]

-- What may happen between two deliveries of an event: other deliveries, saves of a cursor, commands
-- to the order service, reveals of a secret; and the clock of the database moves.
pub data Call : Type 0 where
  delivers : Text → SettlementEvent → Call
  saves : ChainName → Text → ℕ → Option Text → Call
  commands : ℕ → Command → Call
  reveals : Text → Text → Text → Call
  ticks : ℕ → Call

module _ (sha256 : List ℕ → Text) where
  -- A call at a time of the secret service's clock; one that fails does not stop the next.
  unfoldable pub run_call : ℕ → Call → Store → Store
  run_call now (delivers network_id ev) s = (process sha256 now network_id ev s).1
  run_call now (saves chain network_id position cursor) s =
      (advance chain network_id position cursor s).1
  run_call now (commands min_gap c) s = (execute min_gap c s).1
  run_call now (reveals id preimage tx_hash) s = (reveal sha256 now id preimage tx_hash s).1
  run_call now (ticks clock) s = record s { clock = clock }

  unfoldable pub run_calls : List (ℕ × Call) → Store → Store
  run_calls [] s = s
  run_calls ((now, c) ∷ rest) s = run_calls rest (run_call now c s)

  run_call-Seen :
      (key : Text) (now : ℕ) (c : Call) (s : Store) → Seen key s → Seen key (run_call now c s)
  unfolding run_call
  run_call-Seen key now (delivers network_id ev) s seen =
      process-keeps_Seen sha256 now key network_id ev s seen
  run_call-Seen key now (saves chain network_id position cursor) s seen =
      Seen-after key s (advance chain network_id position cursor s).1 seen
        (advance-Keeps chain network_id position cursor s)
  run_call-Seen key now (commands min_gap c) s seen =
      Seen-after key s (execute min_gap c s).1 seen (execute-Keeps min_gap c s)
  run_call-Seen key now (reveals id preimage tx_hash) s seen =
      Seen-after key s (reveal sha256 now id preimage tx_hash s).1 seen
        (reveal-Keeps sha256 now id preimage tx_hash s)
  run_call-Seen key now (ticks clock) s seen = seen

  run_calls-Seen :
      (key : Text) (cs : List (ℕ × Call)) (s : Store) → Seen key s → Seen key (run_calls cs s)
  unfolding run_calls
  run_calls-Seen key [] s seen = seen
  run_calls-Seen key ((now, c) ∷ rest) s seen =
      run_calls-Seen key rest (run_call now c s) (run_call-Seen key now c s seen)

  -- An event that was processed without an error, in whatever way, is a duplicate from then on:
  -- whatever calls come in between (deliveries of events, saves of a cursor, commands to the order
  -- service, reveals), to process it again, at any time, changes nothing.
  pub process_again :
      (now later : ℕ) (network_id : Text) (ev : SettlementEvent) (o : ProcessOutcome)
      (between : List (ℕ × Call)) (s : Store)
      → (process sha256 now network_id ev s).0 ≡ ok o
      → let s' = run_calls between (process sha256 now network_id ev s).1 in
        process sha256 later network_id ev s' ≡ (ok duplicate, s')
  process_again now later network_id ev o between s h =
      process-Seen_later sha256 now later network_id ev _ (
        run_calls-Seen (event_key network_id ev) between _
          (process-Seen sha256 now (event_key network_id ev) network_id ev o s refl h))
