-- ===== src/Machine.antt =====
-- The order state machine, coordinator/src/state-machine/order-machine.ts, declaration by
-- declaration: the list of edges, the tables that the module builds from it when it is loaded, and
-- the tests and messages that every writer of an order goes through.
pub mod Table
pub mod Classify
pub mod Reach
use over_sync.Prelude.{
  ℕ, Bool, true, false, not, ◌&&◌, Option, none, some, List, [], ◌∷◌, ◌++◌, ltb, JsEqual, ◌==◌,
  option_eq, if◌then◌else◌, includes, is_empty, Text, text,
}
use over_sync.Status.{
  OrderStatus, announced, src_locked, dst_locked, secret_revealed, completed, refunded, failed,
  expired, status_eq, OrderTransitionAction, escrow, secret_relay, secret, claim, refund, fail,
  expire, action_eq, OrderFailureCode, secret_before_escrow, secret_relay_before_escrow,
  claim_before_secret, refund_after_claim, late_step, repeated_step, conflicting_step,
  already_settled, not_allowed,
}

pub record OrderEdge : Type 0 where
  pub action : OrderTransitionAction
  pub to : OrderStatus
  pub from : List OrderStatus

-- `ORDER_EDGES`
abbrev pub order_edges : List OrderEdge
order_edges =
    record { action = escrow; to = src_locked; from = announced ∷ [] }
    ∷ record { action = secret_relay; to = dst_locked; from = src_locked ∷ [] }
    ∷ record { action = secret; to = secret_revealed; from = src_locked ∷ dst_locked ∷ [] }
    ∷ record { action = claim; to = completed; from = secret_revealed ∷ [] }
    ∷ record {
      action = refund;
      to = refunded;
      from = src_locked ∷ dst_locked ∷ secret_revealed ∷ expired ∷ [];
    }
    ∷ record {
      action = fail;
      to = failed;
      from = announced ∷ src_locked ∷ dst_locked ∷ secret_revealed ∷ expired ∷ [];
    }
    ∷ record { action = expire; to = expired; from = announced ∷ src_locked ∷ dst_locked ∷ [] }
    ∷ []

-- `table[key] = value` on a JavaScript record.
abbrev pub put {ℓ κ} : {K : Type ℓ} {V : Type κ} ⦃e : JsEqual K⦄ → K → V → (K → V) → K → V
put k v table j = if k == j then v else table j

-- `buildActionTargets`: the loop over the edges, on a table where a missing key is `none`.
build_action_targets :
    List OrderEdge
    → (OrderTransitionAction → Option OrderStatus)
    → OrderTransitionAction
    → Option OrderStatus
build_action_targets [] targets = targets
build_action_targets (edge ∷ edges) targets =
    build_action_targets edges (put edge.action (some edge.to) targets)

-- `ACTION_TARGET_STATUS`
unfoldable pub action_target_status : OrderTransitionAction → Option OrderStatus
unfolding build_action_targets
action_target_status = build_action_targets order_edges (λ _. none)

-- A look-up in that table. Every action has an edge (`action_target_status_lem` of Machine/Table), so
-- the second case is never taken.
unfoldable pub target_status : OrderTransitionAction → OrderStatus
unfolding action_target_status
target_status action = elim (action_target_status action) [
  | some status ↦ status
  | none ↦ announced
]

-- `buildActionIndex`
build_action_index :
    List OrderEdge
    → (OrderTransitionAction → List OrderStatus)
    → OrderTransitionAction
    → List OrderStatus
build_action_index [] index = index
build_action_index (edge ∷ edges) index = build_action_index edges (put edge.action edge.from index)

-- `LEGAL_SOURCES`, which `legalSourcesFor` copies.
pub legal_sources_for : OrderTransitionAction → List OrderStatus
unfolding build_action_index
legal_sources_for = build_action_index order_edges (λ _. [])

-- `buildStatusIndex`
build_status_index :
    List OrderEdge
    → (OrderStatus → Option OrderTransitionAction)
    → OrderStatus
    → Option OrderTransitionAction
build_status_index [] index = index
build_status_index (edge ∷ edges) index =
    build_status_index edges (put edge.to (some edge.action) index)

-- `ACTION_BY_TARGET`, which `actionForStatus` reads.
unfoldable pub action_for_status : OrderStatus → Option OrderTransitionAction
unfolding build_status_index
action_for_status = build_status_index order_edges (λ _. none)

-- The inner loop of `buildTransitions`: `table[from].push(edge.to)` for each source.
push_targets :
    OrderStatus
    → List OrderStatus
    → (OrderStatus → List OrderStatus)
    → OrderStatus
    → List OrderStatus
push_targets to [] table = table
push_targets to (from ∷ sources) table =
    push_targets to sources (put from (table from ++ to ∷ []) table)

build_transitions :
    List OrderEdge → (OrderStatus → List OrderStatus) → OrderStatus → List OrderStatus
unfolding push_targets
build_transitions [] table = table
build_transitions (edge ∷ edges) table =
    build_transitions edges (push_targets edge.to edge.from table)

-- `TRANSITIONS`
unfoldable pub transitions : OrderStatus → List OrderStatus
unfolding build_transitions
transitions = build_transitions order_edges (λ _. [])

-- `STATUS_RANK`
abbrev pub status_rank : OrderStatus → ℕ
status_rank announced = 0
status_rank src_locked = 1
status_rank dst_locked = 2
status_rank secret_revealed = 3
status_rank completed = 4
status_rank refunded = 4
status_rank failed = 4
status_rank expired = 4

unfoldable pub can_transition : OrderStatus → OrderStatus → Bool
unfolding transitions
can_transition from to = includes (transitions from) to

pub is_stale_transition : OrderStatus → OrderStatus → Bool
is_stale_transition from to = ltb (status_rank to) (status_rank from)

-- The result type `-1 | 0 | 1` of `compareStatus`.
pub data Comparison : Type 0 where
  before same after : Comparison

pub compare_status : OrderStatus → OrderStatus → Comparison
compare_status a b =
    let left = status_rank a in
    let right = status_rank b in
    if ltb left right then before else if ltb right left then after else same

unfoldable pub is_terminal : OrderStatus → Bool
unfolding transitions
is_terminal status = is_empty (transitions status)

unfoldable pub classify_illegal_transition :
    OrderStatus → OrderStatus → Option OrderTransitionAction → OrderFailureCode
unfolding is_stale_transition is_terminal
classify_illegal_transition from to action =
    if action == some refund && from == completed
    then refund_after_claim
    else if action == some claim && not (from == secret_revealed)
    then claim_before_secret
    else if action == some secret && from == announced
    then secret_before_escrow
    else if action == some secret_relay && from == announced
    then secret_relay_before_escrow
    else if is_stale_transition from to
    then late_step
    else if is_terminal from
    then already_settled
    else if from == to && not (action == none)
    then repeated_step
    else not_allowed

-- The spelling of a status in the messages.
status_name : OrderStatus → Text
status_name announced = text "announced"
status_name src_locked = text "src_locked"
status_name dst_locked = text "dst_locked"
status_name secret_revealed = text "secret_revealed"
status_name completed = text "completed"
status_name refunded = text "refunded"
status_name failed = text "failed"
status_name expired = text "expired"

-- `(${from} -> ${to})`, which closes five of the messages.
edge_name : OrderStatus → OrderStatus → Text
unfolding status_name
edge_name from to = text "(" ++ (status_name from ++ (text " -> " ++ (status_name to ++ text ")")))

pub describe_transition_failure : OrderFailureCode → OrderStatus → OrderStatus → Text
unfolding status_name edge_name
describe_transition_failure secret_before_escrow from to =
    text "Refused to reveal a preimage for an order that is not escrowed yet " ++ edge_name from to
describe_transition_failure secret_relay_before_escrow from to =
    text "Refused a destination lock for an order that is not escrowed yet " ++ edge_name from to
describe_transition_failure claim_before_secret from to =
    text "Refused a claim for an order whose preimage has not been recorded " ++ edge_name from to
describe_transition_failure refund_after_claim from to =
    text "Refused a refund for an order that has already been claimed " ++ edge_name from to
describe_transition_failure late_step from to =
    text "Refused a chain event that is older than the stored order status " ++ edge_name from to
describe_transition_failure repeated_step from to =
    text "Step already applied to this order, keeping the stored status ("
    ++ (status_name from ++ text ")")
describe_transition_failure conflicting_step from to =
    text "Step already applied to this order with a different payload ("
    ++ (status_name from ++ text ")")
describe_transition_failure already_settled from to =
    text "Order is already settled as "
    ++ (status_name from ++ (text " and cannot be advanced to " ++ status_name to))
describe_transition_failure not_allowed from to =
    text "Illegal order transition: " ++ (status_name from ++ (text " -> " ++ status_name to))

pub record TransitionAssessment : Type 0 where
  pub allowed : Bool
  pub from : OrderStatus
  pub to : OrderStatus
  pub action : Option OrderTransitionAction
  pub code : Option OrderFailureCode
  pub reason : Option Text

unfoldable pub evaluate_transition :
    OrderStatus → OrderStatus → Option OrderTransitionAction → TransitionAssessment
evaluate_transition from to action =
    let code = classify_illegal_transition from to action in
    if can_transition from to
    then record {
      allowed = true;
      from = from;
      to = to;
      action = action;
      code = none;
      reason = none;
    }
    else record {
      allowed = false;
      from = from;
      to = to;
      action = action;
      code = some code;
      reason = some (describe_transition_failure code from to);
    }

-- `InvalidTransitionError`: its fields and its message.
pub record InvalidTransitionError : Type 0 where
  pub from : OrderStatus
  pub to : OrderStatus
  pub code : OrderFailureCode
  pub message : Text

-- `requireTransition`: `none` where it returns, and the error that it throws.
unfoldable pub require_transition :
    OrderStatus → OrderStatus → Option OrderTransitionAction → Option InvalidTransitionError
require_transition from to action =
    let code = classify_illegal_transition from to action in
    if can_transition from to
    then none
    else some (record {
      from = from;
      to = to;
      code = code;
      message = describe_transition_failure code from to;
    })

pub transition_category : Option OrderStatus → OrderStatus → Text
unfolding status_name
transition_category from to =
    if from == none && to == announced then text "created" else status_name to
