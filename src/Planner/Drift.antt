-- ===== src/Planner/Drift.antt =====
-- Plans against the canonical order: resolver/src/planner/validate.ts and `buildOrderPlan` of
-- resolver/src/planner/index.ts. Times are unix seconds.
pub mod Agreement
use over_sync.Prelude.{
  ℕ, Bool, true, false, Option, none, some, List, [], ◌∷◌, ◌++◌, ltb, leb, min, ◌==◌, nat_eq,
  if◌then◌else◌, Text, text, text_eq, to_lower_case,
}
use over_sync.Decimal.{to_string}
use over_sync.Order.{Chain, ethereum, stellar, chain_beq, Direction}

pub record PlanLeg : Type 0 where
  pub chain : Chain
  pub asset : Text
  pub amount : Text
  pub timelock : ℕ

pub record ResolverOrder : Type 0 where
  pub public_id : Text
  pub direction : Direction
  pub hashlock : Text
  pub src : PlanLeg
  pub dst : PlanLeg

pub data PlanAction : Type 0 where
  fill claim : PlanAction

pub record ResolverPlan : Type 0 where
  pub public_id : Text
  pub action : PlanAction
  pub hashlock : Text
  pub src : PlanLeg
  pub dst : PlanLeg
  pub expires_at : ℕ
  pub built_at : ℕ

-- `PlanErrorCode`, but for `Ok`, which is the code of a plan without issues.
pub data PlanErrorCode : Type 0 where
  order_mismatch hashlock_mismatch timelock_mismatch amount_mismatch asset_mismatch : PlanErrorCode
  plan_expired : PlanErrorCode

abbrev pub code_name : PlanErrorCode → Text
code_name order_mismatch = text "ORDER_MISMATCH"
code_name hashlock_mismatch = text "HASHLOCK_MISMATCH"
code_name timelock_mismatch = text "TIMELOCK_MISMATCH"
code_name amount_mismatch = text "AMOUNT_MISMATCH"
code_name asset_mismatch = text "ASSET_MISMATCH"
code_name plan_expired = text "PLAN_EXPIRED"

pub record PlanIssue : Type 0 where
  pub code : PlanErrorCode
  pub field : Text
  pub expected : Text
  pub actual : Text

pub data PlanValidationResult : Type 0 where
  valid : PlanValidationResult
  -- the code of the first issue, all issues, and the reason
  invalid : PlanErrorCode → List PlanIssue → Text → PlanValidationResult

pub data LegKind : Type 0 where
  src_leg dst_leg : LegKind

-- `${kind}.name`
abbrev pub leg_field : LegKind → Text → Text
leg_field src_leg name = text "src." ++ name
leg_field dst_leg name = text "dst." ++ name

abbrev pub chain_text : Chain → Text
chain_text ethereum = text "ethereum"
chain_text stellar = text "stellar"

-- `if (differs) issues.push(issue(…))`, before what is pushed after it.
abbrev pub push_unless : Bool → PlanErrorCode → Text → Text → Text → List PlanIssue → List PlanIssue
push_unless same code field expected actual later =
    if same
    then later
    else record { code = code; field = field; expected = expected; actual = actual } ∷ later

-- `compareLegs`; `later` are the issues that are pushed after it.
unfoldable pub compare_legs : LegKind → PlanLeg → PlanLeg → List PlanIssue → List PlanIssue
compare_legs kind plan_leg order_leg later =
    push_unless (chain_beq plan_leg.chain order_leg.chain) asset_mismatch
      (leg_field kind (text "chain")) (chain_text order_leg.chain) (chain_text plan_leg.chain)
      (push_unless (plan_leg.asset == order_leg.asset) asset_mismatch
        (leg_field kind (text "asset")) order_leg.asset plan_leg.asset
        (push_unless (plan_leg.amount == order_leg.amount) amount_mismatch
          (leg_field kind (text "amount")) order_leg.amount plan_leg.amount
          (push_unless (plan_leg.timelock == order_leg.timelock) timelock_mismatch
            (leg_field kind (text "timelock")) (to_string order_leg.timelock)
            (to_string plan_leg.timelock) later)))

unfoldable pub plan_issues : ResolverPlan → ResolverOrder → ℕ → List PlanIssue
unfolding compare_legs
plan_issues plan order now =
    push_unless (plan.public_id == order.public_id) order_mismatch (text "publicId") order.public_id
      plan.public_id
      (push_unless (to_lower_case plan.hashlock == to_lower_case order.hashlock) hashlock_mismatch
        (text "hashlock") order.hashlock plan.hashlock
        (compare_legs src_leg plan.src order.src (
          compare_legs dst_leg plan.dst order.dst (
            push_unless (leb now plan.expires_at) plan_expired (text "expiresAt")
              (text ">= now (" ++ (to_string now ++ text ")")) (to_string plan.expires_at) []))))

abbrev pub result_of : List PlanIssue → PlanValidationResult
result_of [] = valid
result_of (primary ∷ rest) = invalid primary.code (primary ∷ rest) (
    code_name primary.code
    ++ (text ": "
        ++ (primary.field
            ++ (text " expected " ++ (primary.expected ++ (text ", got " ++ primary.actual))))))

unfoldable pub validate_plan : ResolverPlan → ResolverOrder → ℕ → PlanValidationResult
unfolding plan_issues
validate_plan plan order now = result_of (plan_issues plan order now)

-- What `validatePlanForSubmit` and `submitValidatedPlan` do: return, or throw a
-- `PlanValidationError`.
pub data Outcome (A : Type 0) : Type 0 where
  returned : A → Outcome A
  -- the code, the issues and the message
  refused : PlanErrorCode → List PlanIssue → Text → Outcome A

abbrev pub for_submit : {A : Type 0} → PlanValidationResult → A → Outcome A
for_submit valid a = returned a
for_submit (invalid code issues reason) a = refused code issues reason

unfoldable pub validate_plan_for_submit : ResolverPlan → ResolverOrder → ℕ → Outcome ResolverPlan
unfolding validate_plan
validate_plan_for_submit plan order now = for_submit (validate_plan plan order now) plan

-- `submit` is the callback.
unfoldable pub submit_validated_plan :
    {A : Type 0} → ResolverPlan → ResolverOrder → (ResolverPlan → A) → ℕ → Outcome A
unfolding validate_plan_for_submit
submit_validated_plan plan order submit now = elim (validate_plan_for_submit plan order now) [
  | returned checked ↦ returned (submit plan)
  | refused code issues reason ↦ refused code issues reason
]

pub record BuildOrderPlanOptions : Type 0 where
  pub action : Option PlanAction
  pub now : Option ℕ
  pub expires_at : Option ℕ

-- `buildOrderPlan`; `clock` is the wall clock.
unfoldable pub build_order_plan : ℕ → ResolverOrder → BuildOrderPlanOptions → ResolverPlan
build_order_plan clock order options = record {
  public_id = order.public_id;
  action = elim options.action [ none ↦ fill | some action ↦ action ];
  hashlock = order.hashlock;
  src = order.src;
  dst = order.dst;
  expires_at = elim options.expires_at [
    | none ↦ min order.src.timelock order.dst.timelock
    | some expires ↦ expires
  ];
  built_at = elim options.now [ none ↦ clock | some now ↦ now ];
}
