-- ===== src/Relay/Invariant/Restart.antt =====
-- A restart: what `restore` rebuilds from a store that holds what the memory held.
use mathlib.Core.Path.{subst}
use over_sync.Prelude.{
  ℕ, ◌+◌, ◌<◌, ◌≡◌, ◌≢◌, refl, sym, ap, ◌∙◌, Bool, true, false, Option, List, [], ◌∷◌, ◌++◌, map,
  All, Pairwise, All-map, All-unmap, Pairwise-map, Pairwise-unmap, All-mono, All-both, All-append,
  Pairwise-mono, append_nil, append_snoc, Text, is_empty, ◌==◌, nat_eq, text_eq, text_beq_iff,
  Bool-cases, arith, inl, inr,
}
use over_sync.Relay.Records.{
  RelayStatus, in_flight, pending, succeeded, failed, SubmissionRecord, PersistedSubmission, known,
  StoredStatus,
}
use over_sync.Relay.Keys.{compute_order_key}
use over_sync.Relay.Tracker.{
  RelayTrackerConfig, idle, Tracker, update, put, to_persisted_submission,
}
use over_sync.Relay.Restore.{
  is_set, key_or, normalize_persisted_status, restored_record, set_key, restore_entry,
  restore_entries, restore, start, empty,
}
use over_sync.Relay.Steps.{View, raw, view, restart_status, Saved}
use over_sync.Relay.Invariant.{is_live, Apart, HashFits, SoundView, task_fits, Holds}
use over_sync.Relay.Invariant.Writes.{add-Inv, update_here, update_below}

normalize_again :
    (st : RelayStatus) (h : Bool) (e : Option Text)
    → (st ≡ pending → h ≡ true)
    → restart_status (normalize_persisted_status (known st) h e).0 ≡ restart_status st
unfolding normalize_persisted_status
normalize_again pending false e p = absurd (ground (arith, p refl))
normalize_again in_flight h e p = refl
normalize_again st h e p = refl

normalized :
    (st : StoredStatus) (h : Bool) (e : Option Text)
    → (normalize_persisted_status st h e).0 ≢ in_flight
unfolding normalize_persisted_status
normalized (known pending) true e q = ground arith
normalized (known pending) false e q = ground arith
normalized (known succeeded) h e q = ground arith
normalized _ h e q = ground arith

pending_hash : (st : RelayStatus) (h : Bool) → HashFits st h → st ≡ pending → h ≡ true
pending_hash pending h f e = f
pending_hash _ h f e = absurd (ground arith)

key_or_set : (k c : Text) → is_empty k ≡ false → key_or k c ≡ k
key_or_set [] c h = absurd (ground arith)
key_or_set (x ∷ k) c h = refl

-- A record that is stored and read back has the view that a restart leaves of it.
pub restored-persisted :
    (cfg : RelayTrackerConfig) (r : SubmissionRecord)
    → SoundView (raw r)
    → view (restored_record cfg (to_persisted_submission cfg r)) ≡ view r
unfolding restored_record
restored-persisted cfg r sound =
    rw
      (
        normalize_again r.status (is_set r.tx_hash) r.last_error
            (pending_hash r.status (is_set r.tx_hash) sound.1),
        key_or_set r.order_key
            (compute_order_key cfg.digest cfg.quoted r.action.order_id r.action.side) sound.3,
      )
      refl

HashFits-restart_status :
    (st : RelayStatus) (h : Bool) → HashFits st h → HashFits (restart_status st) h
HashFits-restart_status in_flight h f = tt
HashFits-restart_status _ h f = f

SoundView-view : (r : SubmissionRecord) → SoundView (raw r) → SoundView (view r)
SoundView-view r h = (h.0, HashFits-restart_status r.status (is_set r.tx_hash) h.1, h.2, h.3)

restart_live : (st : RelayStatus) → is_live (restart_status st) ≡ true → is_live st ≡ true
restart_live failed h = h
restart_live _ h = refl

Apart-view : (r q : SubmissionRecord) → Apart (raw r) (raw q) → Apart (view r) (view q)
Apart-view r q a = (a.0, λ lr lq. a.1 (restart_live r.status lr) (restart_live q.status lq))

restart_status_same : (st : RelayStatus) → st ≢ in_flight → restart_status st ≡ st
restart_status_same in_flight n = absurd (n refl)
restart_status_same _ n = refl

-- What is read back is not in flight, so that its view is its own.
raw-restored_record :
    (cfg : RelayTrackerConfig) (e : PersistedSubmission)
    → view (restored_record cfg e) ≡ raw (restored_record cfg e)
unfolding restored_record
raw-restored_record cfg e =
    rw (restart_status_same _ (normalized e.status (is_set e.tx_hash) e.last_error)) refl

restored_not_in_flight :
    (cfg : RelayTrackerConfig) (e : PersistedSubmission)
    → (restored_record cfg e).status ≢ in_flight
unfolding restored_record
restored_not_in_flight cfg e = normalized e.status (is_set e.tx_hash) e.last_error

task_fits_idle : (st : RelayStatus) → st ≢ in_flight → task_fits st idle ≡ true
task_fits_idle in_flight n = absurd (n refl)
task_fits_idle _ n = refl

-- A number after the others, under a key that none of them has
set_key_new :
    (heap : ℕ → SubmissionRecord) (key : Text) (n : ℕ) (is : List ℕ)
    → All (λ i. (heap i).key ≢ key) is
    → set_key heap key n is ≡ is ++ n ∷ []
unfolding set_key
set_key_new heap key n [] h = refl
set_key_new heap key n (i ∷ is) h = elim (Bool-cases ((heap i).key == key)) [
  | inl same ↦ absurd (h.0 ((text_beq_iff (heap i).key key).0 same))
  | inr other ↦ rw (other, set_key_new heap key n is h.1) refl
]

-- A record added under a number that no other has
map-update {ℓ} :
    {B : Type ℓ} (g : SubmissionRecord → B) (heap : ℕ → SubmissionRecord) (n : ℕ)
    (r : SubmissionRecord) (is : List ℕ)
    → All (λ i. i < n) is
    → map (λ i. g (update heap n r i)) (is ++ n ∷ []) ≡ map (λ i. g (heap i)) is ++ g r ∷ []
map-update g heap n r [] h = rw (update_here heap n r) refl
map-update g heap n r (i ∷ is) h =
    rw (update_below heap n r i h.0, map-update g heap n r is h.1) refl

abbrev added : SubmissionRecord → Tracker → Tracker
added r s = record (put s.next r idle s) {
  next = s.next + 1;
  records = s.records ++ s.next ∷ [];
  restored_count = s.restored_count + 1;
}

module _ (cfg : RelayTrackerConfig) where
  abbrev entry_view : PersistedSubmission → View
  entry_view e = raw (restored_record cfg e)

  -- What `restore` may be given while the tracker already holds records.
  abbrev Ready : List PersistedSubmission → Tracker → Type 0
  Ready entries s =
      Holds s
      × All (λ i. All (λ e. Apart (raw (s.heap i)) (entry_view e)) entries) s.records
      × Pairwise (λ e e'. Apart (entry_view e) (entry_view e')) entries
      × All (λ e. SoundView (entry_view e)) entries

  abbrev Restored : List PersistedSubmission → Tracker → Tracker → Type 0
  Restored entries s t =
      Holds t
      × (map (λ i. view (t.heap i)) t.records
          ≡ map (λ i. view (s.heap i)) s.records ++ map (λ e. view (restored_record cfg e)) entries)
      × (t.disk ≡ s.disk)

  restore_entry_lem :
      (e : PersistedSubmission) (entries : List PersistedSubmission) (s : Tracker)
      → Ready (e ∷ entries) s
      → restore_entry cfg e s ≡ added (restored_record cfg e) s
  unfolding restore_entry restored_record
  restore_entry_lem e entries s ready =
      rw
        (
          ready.3.0.2,
          set_key_new s.heap e.key s.next s.records (All-mono _ _ s.records (λ i h. h.0.0) ready.1),
        )
        refl

  added-Ready :
      (e : PersistedSubmission) (entries : List PersistedSubmission) (s : Tracker)
      → Ready (e ∷ entries) s
      → Ready entries (added (restored_record cfg e) s)
        × Restored (e ∷ []) s (added (restored_record cfg e) s)
  added-Ready e entries s ready =
      let inv =
        add-Inv ready.0 (restored_record cfg e) idle
          (ready.3.0, task_fits_idle _ (restored_not_in_flight cfg e))
          (All-mono _ _ s.records (λ i h. h.0) ready.1) in
      (
        (
          inv,
          All-append Clear s.records (s.next ∷ [])
              (All-both (λ i. All (λ e'. Apart (raw (s.heap i)) (entry_view e')) (e ∷ entries))
                (λ i. i < s.next) Clear s.records
                (λ i h l. rw (update_below s.heap s.next (restored_record cfg e) i l) h.1) ready.1
                ready.0.below)
              (rw (update_here s.heap s.next (restored_record cfg e)) ready.2.0, tt),
          ready.2.1,
          ready.3.1,
        ),
        (inv, map-update view s.heap s.next (restored_record cfg e) s.records ready.0.below, refl),
      )
    where
      Clear : ℕ → Type 0
      Clear i =
          All (λ e'. Apart (raw (update s.heap s.next (restored_record cfg e) i)) (entry_view e'))
            entries

  restore_entries-Restored :
      (entries : List PersistedSubmission) (s : Tracker)
      → Ready entries s
      → Restored entries s (restore_entries cfg entries s)
  unfolding restore_entries
  restore_entries-Restored [] s ready = (ready.0, sym (append_nil _), refl)
  restore_entries-Restored (e ∷ entries) s ready =
      let step = added-Ready e entries s ready in
      let rest = restore_entries-Restored entries (added (restored_record cfg e) s) step.0 in
      subst (λ t. Restored (e ∷ entries) s (restore_entries cfg entries t))
        (sym (restore_entry_lem e entries s ready))
        (
          rest.0,
          rest.1
              ∙ ap (λ l. l ++ map (λ e. view (restored_record cfg e)) entries) step.1.1
              ∙ append_snoc _ _ _,
          rest.2,
        )

  empty-Holds : (disk : List PersistedSubmission) → Holds (empty disk)
  empty-Holds disk = record {
    fresh = λ i l. refl;
    below = tt;
    kept = λ i l. absurd (omega arith);
    apart = tt;
    sound = λ i l. absurd (omega arith);
  }

  -- A restart on a store that holds the memory keeps the invariant, and every record's view.
  pub start-Restored :
      (s : Tracker)
      → cfg.has_store ≡ true
      → Holds s
      → Saved cfg s
      → Holds (start cfg s.disk)
        × (map (λ i. view ((start cfg s.disk).heap i)) (start cfg s.disk).records
            ≡ map (λ i. view (s.heap i)) s.records)
        × ((start cfg s.disk).disk ≡ s.disk)
  unfolding start restore
  start-Restored s store inv saved =
      let done =
        restore_entries-Restored s.disk (empty s.disk) (empty-Holds s.disk, tt, apart, sound) in
      rw store (done.0, done.1 ∙ saved, done.2)
    where
      apart : Pairwise (λ e e'. Apart (entry_view e) (entry_view e')) s.disk
      apart =
          Pairwise-mono _ _ s.disk
            (λ e e'.
              subst
                (λ v.
                  Apart v (view (restored_record cfg e')) → Apart (entry_view e) (entry_view e'))
                (sym (raw-restored_record cfg e))
                (subst (λ v. Apart (entry_view e) v → Apart (entry_view e) (entry_view e'))
                  (sym (raw-restored_record cfg e')) (λ h. h)))
            (Pairwise-unmap (λ e. view (restored_record cfg e)) Apart s.disk
              (subst (Pairwise Apart) (sym saved) (
                Pairwise-map (λ i. view (s.heap i)) Apart s.records
                  (Pairwise-mono _ _ s.records (λ i j. Apart-view (s.heap i) (s.heap j))
                    inv.apart))))

      sound : All (λ e. SoundView (entry_view e)) s.disk
      sound =
          All-mono _ _ s.disk
            (λ e.
              subst (λ v. SoundView v → SoundView (entry_view e)) (sym (raw-restored_record cfg e))
                (λ h. h))
            (All-unmap (λ e. view (restored_record cfg e)) SoundView s.disk
              (subst (All SoundView) (sym saved) (
                All-map (λ i. view (s.heap i)) SoundView s.records
                  (All-mono _ _ s.records (λ i l. SoundView-view (s.heap i) (inv.sound i l).0)
                    inv.below))))

  -- A tracker without a store starts empty.
  pub start-Holds_no_store :
      (disk : List PersistedSubmission) → cfg.has_store ≡ false → Holds (start cfg disk)
  unfolding start restore
  start-Holds_no_store disk without = rw without (empty-Holds [])

  pub start-Holds_empty : Holds (start cfg [])
  unfolding start restore restore_entries
  start-Holds_empty = elim (Bool-cases cfg.has_store) [
    | inl stored ↦ rw stored (empty-Holds [])
    | inr without ↦ rw without (empty-Holds [])
  ]
