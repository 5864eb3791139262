-- ===== src/Relay/Invariant/Writes.antt =====
-- Writing one record, adding one, and deleting one that failed keep the invariant.
use mathlib.Core.Path.{subst}
use over_sync.Prelude.{
  ℕ, ◌+◌, ◌≤◌, ◌<◌, ◌≡◌, refl, sym, ◌∙◌, true, false, List, [], ◌∷◌, ◌++◌, includes, All,
  Pairwise-mono, Pairwise-mono_on, All-mono, All-both, All-append, Pairwise-append_one, ◌==◌,
  nat_eq, text_eq, =ℕ_iff, Bool-cases, arith, inl, inr, ==_refl,
}
use over_sync.Relay.Records.{SubmissionRecord}
use over_sync.Relay.Tracker.{Task, idle, update}
use over_sync.Relay.Numbers.{includes-append_one}
use over_sync.Relay.Steps.{raw}
use over_sync.Relay.Invariant.{is_live, Apart, IsSound, Inv}

-- What holds of the new value and of the old values holds of a value after an update.
pub update_elim {ℓ κ} :
    {A : Type ℓ} (P : ℕ → A → Type κ) (f : ℕ → A) (i : ℕ) (a : A)
    → P i a
    → ((j : ℕ) → (i == j) ≡ false → P j (f j))
    → (j : ℕ) → P j (update f i a j)
update_elim P f i a h k j = elim (Bool-cases (i == j)) [
  | inl same ↦ rw same (subst (λ n. P n a) ((=ℕ_iff i j).0 same) h)
  | inr other ↦ rw other (k j other)
]

pub update_here {ℓ} : {A : Type ℓ} (f : ℕ → A) (i : ℕ) (a : A) → update f i a i ≡ a
update_here f i a = rw (==_refl i) refl

pub update_below {ℓ} :
    {A : Type ℓ} (f : ℕ → A) (n : ℕ) (a : A) (i : ℕ) → i < n → update f n a i ≡ f i
update_below f n a i l = ground (arith, =ℕ_iff n i)

-- A record that takes no more room than another: of the same keys, and live only if the other is.
abbrev pub Narrower : SubmissionRecord → SubmissionRecord → Type 0
Narrower r' r =
    (r'.key ≡ r.key)
    × (r'.order_key ≡ r.order_key)
    × (is_live r'.status ≡ true → is_live r.status ≡ true)

Apart-Narrower :
    (r r' q q' : SubmissionRecord)
    → Narrower r' r
    → Narrower q' q
    → Apart (raw r) (raw q)
    → Apart (raw r') (raw q')
Apart-Narrower r r' q q' n m a =
    (λ e. a.0 (sym n.0 ∙ e ∙ m.0), λ lr lq e. a.1 (n.2 lr) (m.2 lq) (sym n.1 ∙ e ∙ m.1))

module _ {heap : ℕ → SubmissionRecord} {next : ℕ} {records : List ℕ} {tasks : ℕ → Task}
    (inv : Inv heap next records tasks) where
  pub update-Inv :
      (i : ℕ) (r : SubmissionRecord) (t : Task)
      → i < next
      → Narrower r (heap i)
      → IsSound r t
      → Inv (update heap i r) next records (update tasks i t)
  update-Inv i r t lt n sound = record {
    fresh = λ j le.
        update_elim (λ j x. next ≤ j → x ≡ idle) tasks i t (λ le'. absurd (omega arith))
          (λ j _. inv.fresh j) j le;
    below = inv.below;
    kept = λ j lj.
        update_elim (λ j x. j < next → is_live x.status ≡ true → includes records j ≡ true) heap i r
          (λ _ live. inv.kept i lt (n.2 live)) (λ j _. inv.kept j) j lj;
    apart =
        Pairwise-mono _ _ records
          (λ a b.
            Apart-Narrower (heap a) (update heap i r a) (heap b) (update heap i r b) (narrower a)
              (narrower b))
          inv.apart;
    sound = λ j lj. elim (Bool-cases (i == j)) [
      | inl same ↦ rw same sound
      | inr other ↦ rw other (inv.sound j lj)
    ];
  }
    where
      narrower : (j : ℕ) → Narrower (update heap i r j) (heap j)
      narrower j =
          update_elim (λ j x. Narrower x (heap j)) heap i r n (λ j _. (refl, refl, λ h. h)) j

  pub task-Inv :
      (i : ℕ) (t : Task) → i < next → IsSound (heap i) t → Inv heap next records (update tasks i t)
  task-Inv i t lt sound = record {
    fresh = λ j le.
        update_elim (λ j x. next ≤ j → x ≡ idle) tasks i t (λ le'. absurd (omega arith))
          (λ j _. inv.fresh j) j le;
    below = inv.below;
    kept = inv.kept;
    apart = inv.apart;
    sound = λ j lj.
        update_elim (λ j x. j < next → IsSound (heap j) x) tasks i t (λ _. sound)
          (λ j _. inv.sound j) j lj;
  }

  pub add-Inv :
      (r : SubmissionRecord) (t : Task)
      → IsSound r t
      → All (λ j. Apart (raw (heap j)) (raw r)) records
      → Inv (update heap next r) (next + 1) (records ++ next ∷ []) (update tasks next t)
  add-Inv r t sound apart = record {
    fresh = λ j le.
        update_elim (λ j x. next + 1 ≤ j → x ≡ idle) tasks next t (λ le'. absurd (omega arith))
          (λ j _ l. inv.fresh j (omega arith)) j le;
    below =
        All-append _ records (next ∷ [])
          (All-mono (λ j. j < next) (λ j. j < next + 1) records (λ j l. omega arith) inv.below)
          (omega arith, tt);
    kept = λ j lj.
        update_elim
          (λ j x. j < next + 1 → is_live x.status ≡ true → includes (records ++ next ∷ []) j ≡ true)
          heap next r (λ _ _. ground (arith, includes-append_one records next next, ==_refl next))
          (λ j other l live.
            ground
              (arith, includes-append_one records j next, inv.kept j (below_next j other l) live))
          j lj;
    apart =
        Pairwise-append_one _ records next
          (Pairwise-mono_on (λ j. j < next) _ _ records (λ a b la lb h. rw (old a la, old b lb) h)
            inv.below inv.apart)
          (All-both _ _ _ records (λ j a l. rw (old j l, update_here heap next r) a) apart
            inv.below);
    sound = λ j lj. elim (Bool-cases (next == j)) [
      | inl same ↦ rw same sound
      | inr other ↦ rw other (inv.sound j (below_next j other lj))
    ];
  }
    where
      below_next : (j : ℕ) → (next == j) ≡ false → j < next + 1 → j < next
      below_next j other l = ground (arith, =ℕ_iff next j)

      old : (j : ℕ) → j < next → update heap next r j ≡ heap j
      old = update_below heap next r
