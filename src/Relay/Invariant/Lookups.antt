-- ===== src/Relay/Invariant/Lookups.antt =====
-- What the look-ups in the Map find, and the deletion of a record that failed.
use mathlib.Core.Path.{subst}
use over_sync.Prelude.{
  ℕ, ◌<◌, ◌≡◌, ◌≢◌, refl, sym, ◌∙◌, true, false, none, some, List, [], ◌∷◌, includes, All, Pairwise,
  Text, ◌==◌, nat_eq, text_eq, =ℕ_iff, text_beq_iff, Bool-cases, arith, inl, inr,
}
use over_sync.Relay.Records.{failed, SubmissionRecord, relay_status_eq, relay_status_beq_iff}
use over_sync.Relay.Tracker.{Task, find_key, without_key, find_blocking, is_blocking}
use over_sync.Relay.Numbers.{Pairwise-includes}
use over_sync.Relay.Steps.{View, raw}
use over_sync.Relay.Invariant.{is_live, Apart, Inv}

pub find_key_found :
    (heap : ℕ → SubmissionRecord) (key : Text) (is : List ℕ) (i : ℕ)
    → find_key heap key is ≡ some i
    → (includes is i ≡ true) × ((heap i).key ≡ key)
unfolding find_key
find_key_found heap key [] i h = absurd (ground arith)
find_key_found heap key (j ∷ is) i h = elim (Bool-cases ((heap j).key == key)) [
  | inl same ↦
      let e : j ≡ i = ground arith in
      (
        subst (λ n. includes (j ∷ is) n ≡ true) e (ground (arith, =ℕ_iff j j)),
        subst (λ n. (heap n).key ≡ key) e ((text_beq_iff (heap j).key key).0 same),
      )
  | inr other ↦ ground (arith, find_key_found heap key is i)
]

pub find_key-none :
    (heap : ℕ → SubmissionRecord) (key : Text) (is : List ℕ)
    → find_key heap key is ≡ none
    → All (λ i. (heap i).key ≢ key) is
unfolding find_key
find_key-none heap key [] h = tt
find_key-none heap key (j ∷ is) h = elim (Bool-cases ((heap j).key == key)) [
  | inl same ↦ absurd (ground arith)
  | inr other ↦ (
    λ e. ground (arith, (text_beq_iff (heap j).key key).1 e),
    find_key-none heap key is (ground arith),
  )
]

pub find_key_absent :
    (heap : ℕ → SubmissionRecord) (key : Text) (is : List ℕ)
    → All (λ i. (heap i).key ≢ key) is
    → find_key heap key is ≡ none
unfolding find_key
find_key_absent heap key [] h = refl
find_key_absent heap key (j ∷ is) h = elim (Bool-cases ((heap j).key == key)) [
  | inl same ↦ absurd (h.0 ((text_beq_iff (heap j).key key).0 same))
  | inr other ↦ rw other (find_key_absent heap key is h.1)
]

-- No record that holds the lock of the order: the candidates are of the same key or another order.
pub find_blocking-none :
    (heap : ℕ → SubmissionRecord) (order_key key : Text) (is : List ℕ)
    → find_blocking heap order_key key is ≡ none
    → All (λ i. is_blocking order_key key (heap i) ≡ false) is
unfolding find_blocking
find_blocking-none heap order_key key [] h = tt
find_blocking-none heap order_key key (j ∷ is) h =
    elim (Bool-cases (is_blocking order_key key (heap j))) [
      | inl busy ↦ absurd (ground arith)
      | inr free ↦ (free, find_blocking-none heap order_key key is (ground arith))
    ]

pub find_blocking_found :
    (heap : ℕ → SubmissionRecord) (order_key key : Text) (is : List ℕ) (i : ℕ)
    → find_blocking heap order_key key is ≡ some i
    → (includes is i ≡ true) × (is_blocking order_key key (heap i) ≡ true)
unfolding find_blocking
find_blocking_found heap order_key key [] i h = absurd (ground arith)
find_blocking_found heap order_key key (j ∷ is) i h =
    elim (Bool-cases (is_blocking order_key key (heap j))) [
      | inl busy ↦
          let e : j ≡ i = ground arith in
          (
            subst (λ n. includes (j ∷ is) n ≡ true) e (ground (arith, =ℕ_iff j j)),
            subst (λ n. is_blocking order_key key (heap n) ≡ true) e busy,
          )
      | inr free ↦ ground (arith, find_blocking_found heap order_key key is i)
    ]

-- What was not found stands apart from a new record of the key.
pub Apart-not_found :
    (r q : SubmissionRecord)
    → r.key ≢ q.key
    → is_blocking q.order_key q.key r ≡ false
    → Apart (raw r) (raw q)
Apart-not_found r q d free = (
  d,
  λ live _ e. absurd (
      ground (
        arith,
        live,
        (text_beq_iff r.order_key q.order_key).1 e,
        (text_beq_iff r.key q.key).0,
        d,
        (relay_status_beq_iff r.status failed).0,
      )),
)

module _ (heap : ℕ → SubmissionRecord) (key : Text) where
  pub All-without_key {κ} :
      (P : ℕ → Type κ) (is : List ℕ) → All P is → All P (without_key heap key is)
  unfolding without_key
  All-without_key P [] h = tt
  All-without_key P (j ∷ is) h = elim (Bool-cases ((heap j).key == key)) [
    | inl same ↦ rw same (All-without_key P is h.1)
    | inr other ↦ rw other (h.0, All-without_key P is h.1)
  ]

  pub Pairwise-without_key {κ} :
      (R : ℕ → ℕ → Type κ) (is : List ℕ) → Pairwise R is → Pairwise R (without_key heap key is)
  unfolding without_key
  Pairwise-without_key R [] h = tt
  Pairwise-without_key R (j ∷ is) h = elim (Bool-cases ((heap j).key == key)) [
    | inl same ↦ rw same (Pairwise-without_key R is h.1)
    | inr other ↦ rw other (All-without_key (R j) is h.0, Pairwise-without_key R is h.1)
  ]

  pub includes-without_key :
      (is : List ℕ) (i : ℕ)
      → includes is i ≡ true
      → (heap i).key ≢ key
      → includes (without_key heap key is) i ≡ true
  unfolding without_key
  includes-without_key [] i h d = ground arith
  includes-without_key (j ∷ is) i h d = elim (Bool-cases ((heap j).key == key)) [
    | inl same ↦ elim (Bool-cases (j == i)) [
      | inl here ↦ absurd (
          d (
            subst (λ n. (heap n).key ≡ key) ((=ℕ_iff j i).0 here)
              ((text_beq_iff (heap j).key key).0 same)))
      | inr there ↦ rw same (includes-without_key is i (ground arith) d)
    ]
    | inr other ↦ elim (Bool-cases (j == i)) [
      | inl here ↦ rw (other, here) refl
      | inr there ↦ rw (other, there) (includes-without_key is i (ground arith) d)
    ]
  ]

Apart-sym : (v w : View) → Apart v w → Apart w v
Apart-sym v w a = (λ e. a.0 (sym e), λ lw lv e. a.1 lv lw (sym e))

module _ {heap : ℕ → SubmissionRecord} {next : ℕ} {records : List ℕ} {tasks : ℕ → Task}
    (inv : Inv heap next records tasks) where
  -- The Map's keys are different.
  pub same_key :
      (i j : ℕ)
      → includes records i ≡ true
      → includes records j ≡ true
      → (heap i).key ≡ (heap j).key
      → i ≡ j
  same_key i j mi mj e = elim (Bool-cases (i == j)) [
    | inl same ↦ (=ℕ_iff i j).0 same
    | inr other ↦ absurd (
        (Pairwise-includes _ records i j (λ a b. Apart-sym (raw (heap a)) (raw (heap b))) inv.apart
            mi mj (λ e'. ground (arith, (=ℕ_iff i j).1 e', other))).0
          e)
  ]

  -- So are the orders of the submissions that have not failed.
  pub same_order :
      (i j : ℕ)
      → i < next
      → j < next
      → is_live (heap i).status ≡ true
      → is_live (heap j).status ≡ true
      → (heap i).order_key ≡ (heap j).order_key
      → i ≡ j
  same_order i j li lj vi vj e = elim (Bool-cases (i == j)) [
    | inl same ↦ (=ℕ_iff i j).0 same
    | inr other ↦ absurd (
        (Pairwise-includes _ records i j (λ a b. Apart-sym (raw (heap a)) (raw (heap b))) inv.apart
            (inv.kept i li vi) (inv.kept j lj vj)
            (λ e'. ground (arith, (=ℕ_iff i j).1 e', other))).1
          vi vj e)
  ]

  pub delete-Inv :
      (i : ℕ) (key : Text)
      → includes records i ≡ true
      → (heap i).key ≡ key
      → is_live (heap i).status ≡ false
      → Inv heap next (without_key heap key records) tasks
  delete-Inv i key m e dead = record {
    fresh = inv.fresh;
    below = All-without_key heap key _ records inv.below;
    kept = λ j lj live. includes-without_key heap key records j (inv.kept j lj live) (λ e'. absurd (
        ground (
          arith,
          live,
          subst (λ n. is_live (heap n).status ≡ false)
              (same_key i j m (inv.kept j lj live) (e ∙ sym e')) dead,
        )));
    apart = Pairwise-without_key heap key _ records inv.apart;
    sound = inv.sound;
  }
