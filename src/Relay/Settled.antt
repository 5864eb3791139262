-- ===== src/Relay/Settled.antt =====
-- A submission that succeeded keeps its key, in the Map and in the store.
pub mod Steps
pub mod Forever
use mathlib.Core.Path.{subst}
use over_sync.Prelude.{
  ℕ, ◌+◌, ◌<◌, ◌≡◌, ◌≢◌, refl, sym, ap, ◌∙◌, true, false, Bool, Option, none, some, List, [], ◌∷◌,
  ◌++◌, Text, includes, nat_eq, text_eq, text_beq_iff, ◌==◌, Bool-cases, Option-cases, arith, inl,
  inr, ◌⊎◌, =ℕ_iff, All, All-of, All-mono,
}
use over_sync.Relay.Records.{RelayStatus, in_flight, pending, succeeded, failed, SubmissionRecord}
use over_sync.Relay.Tracker.{Tracker, Task, idle, update, find_key, without_key, get}
use over_sync.Relay.Numbers.{All-includes}
use over_sync.Relay.Invariant.{task_fits, Holds}
use over_sync.Relay.Invariant.Lookups.{find_key_found}
use over_sync.Relay.Invariant.Writes.{update_elim, update_below}

-- The record of a key has succeeded, with a hash.
abbrev pub IsSettled : Text → Option Text → (ℕ → SubmissionRecord) → List ℕ → Type 0
IsSettled key hash heap records =
    (i : ℕ) × (find_key heap key records ≡ some i)
    × ((heap i).status ≡ succeeded)
    × ((heap i).tx_hash ≡ hash)

some_injective : {i k : ℕ} → some i ≡ some k → i ≡ k
some_injective e = ground arith

find_key-keys :
    (heap heap' : ℕ → SubmissionRecord) (key : Text) (is : List ℕ)
    → All (λ j. (heap' j).key ≡ (heap j).key) is
    → find_key heap' key is ≡ find_key heap key is
unfolding find_key
find_key-keys heap heap' key [] f = refl
find_key-keys heap heap' key (k ∷ is) f = rw (f.0, find_key-keys heap heap' key is f.1) refl

find_key-append :
    (heap : ℕ → SubmissionRecord) (key : Text) (is js : List ℕ) (i : ℕ)
    → find_key heap key is ≡ some i
    → find_key heap key (is ++ js) ≡ some i
unfolding find_key
find_key-append heap key [] js i e = absurd (ground arith)
find_key-append heap key (k ∷ is) js i e = elim (Bool-cases ((heap k).key == key)) [
  | inl here ↦ ground arith
  | inr there ↦ ground (arith, find_key-append heap key is js i)
]

find_key-without_key :
    (heap : ℕ → SubmissionRecord) (key gone : Text) (is : List ℕ)
    → key ≢ gone
    → find_key heap key (without_key heap gone is) ≡ find_key heap key is
unfolding find_key without_key
find_key-without_key heap key gone [] d = refl
find_key-without_key heap key gone (k ∷ is) d = elim (Bool-cases ((heap k).key == gone)) [
  | inl drop ↦
      let other : ((heap k).key == key) ≡ false =
        other_key (heap k).key key gone ((text_beq_iff (heap k).key gone).0 drop) d in
      rw (drop, other) (find_key-without_key heap key gone is d)
  | inr stay ↦ rw (stay, find_key-without_key heap key gone is d) refl
]
  where
    other_key : (a key gone : Text) → a ≡ gone → key ≢ gone → (a == key) ≡ false
    other_key a key gone e d = elim (Bool-cases (a == key)) [
      | inl same ↦ absurd (d (sym ((text_beq_iff a key).0 same) ∙ e))
      | inr other ↦ other
    ]

module _ (key : Text) (hash : Option Text) where
  -- A write to another record
  pub update-IsSettled :
      (s : Tracker) (k : ℕ) (r : SubmissionRecord)
      → (s.heap k).status ≢ succeeded
      → r.key ≡ (s.heap k).key
      → IsSettled key hash s.heap s.records
      → IsSettled key hash (update s.heap k r) s.records
  update-IsSettled s k r n e (i, found, status, same) =
      let other : update s.heap k r i ≡ s.heap i = elsewhere in
      (
        i,
        find_key-keys s.heap (update s.heap k r) key s.records (
              All-of _ s.records
                (update_elim (λ j x. x.key ≡ (s.heap j).key) s.heap k r e (λ j _. refl)))
            ∙ found,
        rw other status,
        rw other same,
      )
    where
      elsewhere : update s.heap k r i ≡ s.heap i
      elsewhere = elim (Bool-cases (k == i)) [
        | inl here ↦
            absurd
              (n (subst (λ j. (s.heap j).status ≡ succeeded) (sym ((=ℕ_iff k i).0 here)) status))
        | inr there ↦ rw there refl
      ]

  pub add-IsSettled :
      (s : Tracker) (r : SubmissionRecord)
      → Holds s
      → IsSettled key hash s.heap s.records
      → IsSettled key hash (update s.heap s.next r) (s.records ++ s.next ∷ [])
  add-IsSettled s r inv (i, found, status, same) =
      let old : update s.heap s.next r i ≡ s.heap i = update_below s.heap s.next r i (
        All-includes (λ j. j < s.next) s.records i inv.below
          (find_key_found s.heap key s.records i found).0) in
      (
        i,
        find_key-append (update s.heap s.next r) key s.records (s.next ∷ []) i (
            find_key-keys s.heap (update s.heap s.next r) key s.records (
              All-mono _ _ s.records
                (λ j l. ap (λ (q : SubmissionRecord). q.key) (update_below s.heap s.next r j l))
                inv.below)
            ∙ found),
        rw old status,
        rw old same,
      )

  pub delete-IsSettled :
      (s : Tracker) (gone : Text) (k : ℕ)
      → get gone s ≡ some k
      → (s.heap k).status ≢ succeeded
      → IsSettled key hash s.heap s.records
      → IsSettled key hash s.heap (without_key s.heap gone s.records)
  delete-IsSettled s gone k there n (i, found, status, same) =
      (i, find_key-without_key s.heap key gone s.records different ∙ found, status, same)
    where
      different : key ≢ gone
      different e =
          let e' : i ≡ k =
            some_injective (sym found ∙ ap (λ t. find_key s.heap t s.records) e ∙ there) in
          n (subst (λ j. (s.heap j).status ≡ succeeded) e' status)
