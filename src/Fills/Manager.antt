-- ===== src/Fills/Manager.antt =====
-- `ProgressiveFillManager` of relayer/src/partial-fills.ts: the orders, their trees and their fills.
-- What only reports (events, prices, gas, recommendations) is left out.
pub mod Pending
use over_sync.Prelude.{
  ℕ, zero, suc, ◌+◌, ◌-◌, ◌*◌, ◌/◌, Bool, true, false, ◌&&◌, not, Option, none, some, List, [], ◌∷◌,
  ◌++◌, length, any, ltb, leb, ◌=ℕ◌, ◌==◌, text_eq, if◌then◌else◌, Text,
}
use over_sync.Fills.Merkle.{
  MerkleLeaf, MerkleNode, node_hash, fragment_size, leaves_from, build_tree, verify_proof,
}

-- An amount as the source passes it, a numeral: its text, and what `BigInt` makes of it.
pub record Amount : Type 0 where
  pub digits : Text
  pub value : ℕ

pub data OrderStatus : Type 0 where
  active completed cancelled expired : OrderStatus

-- `PartialFillOrder`, with the fields that the code reads
pub record PartialFillOrder : Type 0 where
  pub order_id : Text
  pub making_amount : Amount
  pub merkle_root : Text
  pub allow_partial_fills : Bool
  pub auction_start_time : ℕ
  pub auction_end_time : ℕ
  pub status : OrderStatus
  pub created_at : ℕ
  pub updated_at : ℕ

pub data FillStatus : Type 0 where
  pending executed failed cancelled_fill : FillStatus

pub record FillExecution : Type 0 where
  pub order_id : Text
  pub fragment_index : ℕ
  pub resolver : Text
  pub fill_amount : Amount
  pub secret_hash : Text
  pub merkle_proof : List Text
  pub status : FillStatus
  pub executed_at : ℕ

-- A Map with keys of text
unfoldable pub lookup {ℓ} : {A : Type ℓ} → Text → List (Text × A) → Option A
lookup key [] = none
lookup key ((k, a) ∷ rest) = let found = lookup key rest in if k == key then some a else found

unfoldable pub store {ℓ} : {A : Type ℓ} → Text → A → List (Text × A) → List (Text × A)
store key a [] = (key, a) ∷ []
store key a ((k, b) ∷ rest) =
    let later = store key a rest in if k == key then (key, a) ∷ rest else (k, b) ∷ later

pub record Manager : Type 0 where
  pub orders : List (Text × PartialFillOrder)
  pub fill_executions : List (Text × List FillExecution)
  -- the leaves of each order's `MerkleTreeSecrets`
  pub merkle_managers : List (Text × List MerkleLeaf)

abbrev is_executed : FillStatus → Bool
is_executed executed = true
is_executed _ = false

abbrev is_active : OrderStatus → Bool
is_active active = true
is_active _ = false

-- `this.fillExecutions.get(orderId) || []`
abbrev pub list_of {ℓ} : {A : Type ℓ} → Option (List A) → List A
list_of none = []
list_of (some l) = l

abbrev pub executions_of : Text → Manager → List FillExecution
unfolding lookup
executions_of order_id m = list_of (lookup order_id m.fill_executions)

-- The sum of the amounts that are executed
unfoldable pub executed_amount : List FillExecution → ℕ
executed_amount [] = 0
executed_amount (e ∷ es) =
    let rest = executed_amount es in
    if is_executed e.status then e.fill_amount.value + rest else rest

-- `executions.find(exec => exec.fragmentIndex === fragmentIndex && exec.status === 'executed')`
abbrev pub is_filled : ℕ → List FillExecution → Bool
is_filled fragment_index es =
    any (λ e. e.fragment_index =ℕ fragment_index && is_executed e.status) es

-- The arguments of `executePartialFill` and `validateFill`
pub record FillRequest : Type 0 where
  pub order_id : Text
  pub fragment_index : ℕ
  pub fill_amount : Amount
  pub resolver : Text
  pub secret_hash : Text
  pub merkle_proof : List Text

-- `FillValidation` by its error
pub data FillValidation : Type 0 where
  valid order_not_found order_not_active auction_not_started auction_expired : FillValidation
  partial_fills_not_allowed invalid_merkle_proof fragment_already_filled : FillValidation
  amount_exceeds_remaining : FillValidation

module _ (keccak256 : List ℕ → Text) where
  -- `validateFill`, once the order and its tree are found
  unfoldable pub validate_order :
      PartialFillOrder → List MerkleLeaf → List FillExecution → FillRequest → ℕ → FillValidation
  unfolding verify_proof executed_amount
  validate_order order leaves executions request now =
      if not (is_active order.status)
      then order_not_active
      else if ltb now order.auction_start_time
      then auction_not_started
      else if ltb order.auction_end_time now
      then auction_expired
      else if not order.allow_partial_fills
          && not (request.fill_amount.digits == order.making_amount.digits)
      then partial_fills_not_allowed
      else if not (
          verify_proof keccak256 leaves request.fragment_index request.secret_hash
            request.merkle_proof order.merkle_root)
      then invalid_merkle_proof
      else if is_filled request.fragment_index executions
      then fragment_already_filled
      else if ltb order.making_amount.value (request.fill_amount.value + executed_amount executions)
      then amount_exceeds_remaining
      else valid

  abbrev pub validate_found :
      Option PartialFillOrder
      → Option (List MerkleLeaf)
      → List FillExecution
      → FillRequest
      → ℕ
      → FillValidation
  unfolding validate_order
  validate_found (some order) (some leaves) executions request now =
      validate_order order leaves executions request now
  validate_found _ _ executions request now = order_not_found

  -- `validateFill`
  unfoldable pub validate_fill : FillRequest → ℕ → Manager → FillValidation
  unfolding lookup validate_order
  validate_fill request now m =
      validate_found (lookup request.order_id m.orders) (lookup request.order_id m.merkle_managers)
        (executions_of request.order_id m) request now

-- What `executePartialFill` adds.
abbrev pub new_execution : FillRequest → ℕ → FillExecution
new_execution request now = record {
  order_id = request.order_id;
  fragment_index = request.fragment_index;
  resolver = request.resolver;
  fill_amount = request.fill_amount;
  secret_hash = request.secret_hash;
  merkle_proof = request.merkle_proof;
  status = pending;
  executed_at = now;
}

abbrev pub with_execution : FillRequest → ℕ → Manager → Manager
unfolding lookup store
with_execution request now m = record m {
  fill_executions =
      store request.order_id (executions_of request.order_id m ++ new_execution request now ∷ [])
        m.fill_executions;
}

-- `completeOrder`
abbrev complete_order : PartialFillOrder → ℕ → Manager → Manager
unfolding store
complete_order order now m = record m {
  orders = store order.order_id (record order { status = completed; updated_at = now }) m.orders;
}

-- The outcome; the recommendation that goes with a progress is left out.
pub data FillResult : Type 0 where
  filled : (percentage : ℕ) → FillResult
  not_filled : FillValidation → FillResult
  -- `calculateFillProgress` divides by the order's amount
  division_by_zero : FillResult

-- `executePartialFill` from the progress on
unfoldable pub finish_fill :
    PartialFillOrder → ℕ → List FillExecution → Manager → FillResult × Manager
unfolding executed_amount store
finish_fill order now executions m =
    let percentage = executed_amount executions * 100 / order.making_amount.value in
    if order.making_amount.value =ℕ 0
    then (division_by_zero, m)
    else if leb 100 percentage
    then (filled percentage, complete_order order now m)
    else (filled percentage, m)

abbrev pub finish_found :
    Option PartialFillOrder → ℕ → List FillExecution → Manager → FillResult × Manager
unfolding finish_fill
finish_found none now executions m = (not_filled order_not_found, m)
finish_found (some order) now executions m = finish_fill order now executions m

abbrev root_hash : Option MerkleNode → Text
root_hash none = []
root_hash (some node) = node_hash node

-- `secret.fillPercentage`, of which `createMerkleTree` takes `BigInt` for each secret
abbrev pub percentage_of : List Text → Option ℕ
percentage_of [] = some 0
percentage_of (hash ∷ hashes) = fragment_size (length (hash ∷ hashes))

module _ (keccak256 : List ℕ → Text) where
  unfoldable pub execute_validated :
      FillValidation → FillRequest → ℕ → Manager → FillResult × Manager
  unfolding lookup store finish_fill
  execute_validated valid request now m =
      let m' = with_execution request now m in
      finish_found (lookup request.order_id m.orders) now (executions_of request.order_id m') m'
  execute_validated refusal request now m = (not_filled refusal, m)

  -- `executePartialFill`
  unfoldable pub execute_partial_fill : FillRequest → ℕ → Manager → FillResult × Manager
  unfolding validate_fill execute_validated
  execute_partial_fill request now m =
      execute_validated (validate_fill keccak256 request now m) request now m

  -- `initializePartialFillOrder`, where the secrets drawn have the given hashes. It throws, and
  -- leaves the manager as it is, if the share of a secret is not an integer of percents.
  unfoldable pub initialize : PartialFillOrder → List Text → ℕ → Manager → Manager
  unfolding store leaves_from build_tree
  initialize data_of hashes now m = elim (percentage_of hashes) [
    | none ↦ m
    | some percentage ↦ record {
      orders =
          store data_of.order_id
            (record data_of {
              merkle_root = root_hash (build_tree keccak256 hashes);
              status = active;
              created_at = now;
              updated_at = now;
            })
            m.orders;
      merkle_managers =
          store data_of.order_id (leaves_from data_of.making_amount.value percentage 0 0 hashes)
            m.merkle_managers;
      fill_executions = store data_of.order_id [] m.fill_executions;
    }
  ]

-- The calls that change a manager
pub data Call : Type 0 where
  initialized : PartialFillOrder → List Text → ℕ → Call
  executed_fill : FillRequest → ℕ → Call

unfoldable pub run_call : (List ℕ → Text) → Call → Manager → Manager
unfolding initialize execute_partial_fill
run_call keccak256 (initialized order hashes now) m = initialize keccak256 order hashes now m
run_call keccak256 (executed_fill request now) m = (execute_partial_fill keccak256 request now m).1

unfoldable pub run_calls : (List ℕ → Text) → List Call → Manager → Manager
unfolding run_call
run_calls keccak256 [] m = m
run_calls keccak256 (call ∷ calls) m = run_calls keccak256 calls (run_call keccak256 call m)

abbrev pub new_manager : Manager
new_manager = record { orders = []; fill_executions = []; merkle_managers = [] }
