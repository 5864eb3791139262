-- ===== src/Fills/Manager/Pending.antt =====
-- No call of the manager marks a fill as executed, and what follows from it.
use mathlib.Core.Path.{subst}
use native.Mathlib.Nat.{zero-div}
use over_sync.Prelude.{
  ℕ, ◌≡◌, refl, sym, ap, ◌∙◌, false, Option, none, some, List, [], ◌∷◌, ◌++◌, All, All-append, ◌=ℕ◌,
  ◌==◌, text_eq, Text, ==_refl, Bool-cases, inl, inr, arith,
}
use over_sync.Fills.Merkle.{MerkleLeaf}
use over_sync.Fills.Manager.{
  active, PartialFillOrder, FillExecution, pending, lookup, store, Manager, executed_amount,
  is_filled, FillRequest, FillValidation, valid, validate_order, validate_found, validate_fill,
  new_execution, finish_fill, finish_found, execute_validated, execute_partial_fill, percentage_of,
  initialize, Call, initialized, executed_fill, run_call, run_calls, new_manager, executions_of,
  list_of, with_execution,
}

module _ {ℓ κ} {A : Type ℓ} (P : A → Type κ) (key : Text) where
  lookup-All :
      (l : List (Text × A)) (a : A) → All (λ entry. P entry.1) l → lookup key l ≡ some a → P a
  unfolding lookup
  lookup-All [] a h e = absurd (ground arith)
  lookup-All ((k, b) ∷ rest) a h e = elim (Bool-cases (k == key)) [
    | inl same ↦ let same_value : b ≡ a = ground arith in subst P same_value h.0
    | inr other ↦ lookup-All rest a h.1 (ground arith)
  ]

  store-All :
      (a : A) (l : List (Text × A))
      → P a
      → All (λ entry. P entry.1) l
      → All (λ entry. P entry.1) (store key a l)
  unfolding store
  store-All a [] p h = (p, tt)
  store-All a ((k, b) ∷ rest) p h = elim (Bool-cases (k == key)) [
    | inl same ↦ rw same (p, h.1)
    | inr other ↦ rw other (h.0, store-All a rest p h.1)
  ]

lookup-store {ℓ} :
    {A : Type ℓ} (key : Text) (a : A) (l : List (Text × A)) → lookup key (store key a l) ≡ some a
unfolding lookup store
lookup-store key a [] = rw (==_refl key) refl
lookup-store key a ((k, b) ∷ rest) = elim (Bool-cases (k == key)) [
  | inl same ↦ rw (same, ==_refl key) refl
  | inr other ↦ rw other (rw other (lookup-store key a rest))
]

abbrev IsPending : List FillExecution → Type 0
IsPending es = All (λ (e : FillExecution). e.status ≡ pending) es

executed_amount-IsPending : (es : List FillExecution) → IsPending es → executed_amount es ≡ 0
unfolding executed_amount
executed_amount-IsPending [] h = refl
executed_amount-IsPending (e ∷ es) h = rw h.0 (executed_amount-IsPending es h.1)

is_filled-IsPending : (i : ℕ) (es : List FillExecution) → IsPending es → is_filled i es ≡ false
is_filled-IsPending i [] h = refl
is_filled-IsPending i (e ∷ es) h = ground (arith, h.0, is_filled-IsPending i es h.1)

-- Every order is active and no fill is executed.
pub record Idle (m : Manager) : Type 0 where
  pub orders : All (λ (entry : Text × PartialFillOrder). entry.1.status ≡ active) m.orders
  pub fills : All (λ (entry : Text × List FillExecution). IsPending entry.1) m.fill_executions

module _ (keccak256 : List ℕ → Text) where
  executions-IsPending : (key : Text) (m : Manager) → Idle m → IsPending (executions_of key m)
  unfolding executions_of lookup
  executions-IsPending key m idle = by_lookup (lookup key m.fill_executions) refl
    where
      by_lookup :
          (found : Option (List FillExecution))
          → lookup key m.fill_executions ≡ found
          → IsPending (list_of found)
      by_lookup none e = tt
      by_lookup (some es) e = lookup-All IsPending key m.fill_executions es idle.fills e

  extended-IsPending :
      (request : FillRequest) (now : ℕ) (m : Manager)
      → Idle m
      → IsPending (executions_of request.order_id m ++ new_execution request now ∷ [])
  extended-IsPending request now m idle =
      All-append _ (executions_of request.order_id m) (new_execution request now ∷ [])
        (executions-IsPending request.order_id m idle) (refl, tt)

  finish_fill-same :
      (order : PartialFillOrder) (now : ℕ) (es : List FillExecution) (m : Manager)
      → IsPending es
      → (finish_fill order now es m).1 ≡ m
  unfolding finish_fill
  finish_fill-same order now es m h = elim (Bool-cases (order.making_amount.value =ℕ 0)) [
    | inl without ↦ rw without refl
    | inr some_amount ↦
        rw (some_amount, executed_amount-IsPending es h, zero-div order.making_amount.value) refl
  ]

  finish_found-same :
      (order : Option PartialFillOrder) (now : ℕ) (es : List FillExecution) (m : Manager)
      → IsPending es
      → (finish_found order now es m).1 ≡ m
  unfolding finish_found
  finish_found-same none now es m h = refl
  finish_found-same (some order) now es m h = finish_fill-same order now es m h

  executions_of-with_execution :
      (request : FillRequest) (now : ℕ) (m : Manager)
      → executions_of request.order_id (with_execution request now m)
        ≡ executions_of request.order_id m ++ new_execution request now ∷ []
  unfolding executions_of lookup with_execution store
  executions_of-with_execution request now m =
      ap list_of (lookup-store request.order_id _ m.fill_executions)

  -- What a validation that accepts makes of the manager
  execute_validated-valid :
      (request : FillRequest) (now : ℕ) (m : Manager)
      → Idle m
      → (execute_validated keccak256 valid request now m).1 ≡ with_execution request now m
  unfolding execute_validated
  execute_validated-valid request now m idle =
      finish_found-same (lookup request.order_id m.orders) now _ (with_execution request now m) (
        subst IsPending (sym (executions_of-with_execution request now m))
          (extended-IsPending request now m idle))

  with_execution-Idle :
      (request : FillRequest) (now : ℕ) (m : Manager) → Idle m → Idle (with_execution request now m)
  unfolding with_execution
  with_execution-Idle request now m idle = record {
    orders = idle.orders;
    fills =
        store-All IsPending request.order_id _ m.fill_executions
          (extended-IsPending request now m idle) idle.fills;
  }

  execute_validated-Idle :
      (v : FillValidation) (request : FillRequest) (now : ℕ) (m : Manager)
      → Idle m
      → Idle (execute_validated keccak256 v request now m).1
  unfolding execute_validated
  execute_validated-Idle valid request now m idle =
      subst Idle (sym (execute_validated-valid request now m idle))
        (with_execution-Idle request now m idle)
  execute_validated-Idle v request now m idle = idle

  initialize-Idle :
      (order : PartialFillOrder) (hashes : List Text) (now : ℕ) (m : Manager)
      → Idle m
      → Idle (initialize keccak256 order hashes now m)
  unfolding initialize
  initialize-Idle order hashes now m idle = by_share (percentage_of hashes) refl
    where
      by_share :
          (share : Option ℕ)
          → percentage_of hashes ≡ share
          → Idle (initialize keccak256 order hashes now m)
      by_share none e = rw (e, initialize) idle
      by_share (some percentage) e =
          rw (e, initialize)
            (record {
              orders =
                  store-All (λ (o : PartialFillOrder). o.status ≡ active) order.order_id _ m.orders
                    refl idle.orders;
              fills = store-All IsPending order.order_id [] m.fill_executions tt idle.fills;
            })

  run_call-Idle : (call : Call) (m : Manager) → Idle m → Idle (run_call keccak256 call m)
  unfolding run_call execute_partial_fill
  run_call-Idle (initialized order hashes now) m idle = initialize-Idle order hashes now m idle
  run_call-Idle (executed_fill request now) m idle =
      execute_validated-Idle (validate_fill keccak256 request now m) request now m idle

  run_calls-Idle : (calls : List Call) (m : Manager) → Idle m → Idle (run_calls keccak256 calls m)
  unfolding run_calls
  run_calls-Idle [] m idle = idle
  run_calls-Idle (call ∷ calls) m idle =
      run_calls-Idle calls (run_call keccak256 call m) (run_call-Idle call m idle)

  new-Idle : Idle new_manager
  new-Idle = record { orders = tt; fills = tt }

  -- Whatever orders are set up and fills are executed: every order of the manager is still active, so
  -- that none is ever completed, and none of its fills counts as executed.
  pub fills_never_complete :
      (calls : List Call) (key : Text) (order : PartialFillOrder)
      → let m = run_calls keccak256 calls new_manager in
        lookup key m.orders ≡ some order
        → (order.status ≡ active) × (executed_amount (executions_of key m) ≡ 0)
  fills_never_complete calls key order found =
      let m : Manager = run_calls keccak256 calls new_manager in
      let idle = run_calls-Idle calls new_manager new-Idle in
      (
        lookup-All (λ (o : PartialFillOrder). o.status ≡ active) key m.orders order idle.orders
            found,
        executed_amount-IsPending (executions_of key m) (executions-IsPending key m idle),
      )

  validate_order-pending :
      (order : PartialFillOrder) (leaves : List MerkleLeaf) (es es' : List FillExecution)
      (request : FillRequest) (now : ℕ)
      → IsPending es
      → IsPending es'
      → validate_order keccak256 order leaves es' request now
        ≡ validate_order keccak256 order leaves es request now
  unfolding validate_order
  validate_order-pending order leaves es es' request now h h' =
      rw
        (
          executed_amount-IsPending es h,
          executed_amount-IsPending es' h',
          is_filled-IsPending request.fragment_index es h,
          is_filled-IsPending request.fragment_index es' h',
        )
        refl

  validate_found-pending :
      (order : Option PartialFillOrder) (leaves : Option (List MerkleLeaf))
      (es es' : List FillExecution) (request : FillRequest) (now : ℕ)
      → IsPending es
      → IsPending es'
      → validate_found keccak256 order leaves es' request now
        ≡ validate_found keccak256 order leaves es request now
  unfolding validate_found
  validate_found-pending (some order) (some leaves) es es' request now h h' =
      validate_order-pending order leaves es es' request now h h'
  validate_found-pending (some order) none es es' request now h h' = refl
  validate_found-pending none _ es es' request now h h' = refl

  validate_again :
      (request : FillRequest) (now : ℕ) (m : Manager)
      → Idle m
      → validate_fill keccak256 request now (with_execution request now m)
        ≡ validate_fill keccak256 request now m
  unfolding validate_fill with_execution
  validate_again request now m idle =
      validate_found-pending (lookup request.order_id m.orders)
        (lookup request.order_id m.merkle_managers) (executions_of request.order_id m)
        (executions_of request.order_id (with_execution request now m)) request now
        (executions-IsPending request.order_id m idle)
        (executions-IsPending request.order_id (with_execution request now m)
          (with_execution-Idle request now m idle))

  -- A fill that is accepted after any sequence of calls is accepted again once it has been executed,
  -- with the same fragment, secret and amount, however often.
  pub fill_accepted_again :
      (calls : List Call) (request : FillRequest) (now : ℕ)
      → let m = run_calls keccak256 calls new_manager in
        validate_fill keccak256 request now m ≡ valid
        → validate_fill keccak256 request now (execute_partial_fill keccak256 request now m).1
          ≡ valid
  unfolding execute_partial_fill
  fill_accepted_again calls request now ok =
      let m : Manager = run_calls keccak256 calls new_manager in
      let idle = run_calls-Idle calls new_manager new-Idle in
      let done : (execute_partial_fill keccak256 request now m).1 ≡ with_execution request now m =
        ap (λ v. (execute_validated keccak256 v request now m).1) ok
        ∙ execute_validated-valid request now m idle in
      ap (validate_fill keccak256 request now) done ∙ validate_again request now m idle ∙ ok
