-- ===== src/Planner/Drift/Agreement.antt =====
-- Which plans are submitted.
use over_sync.Prelude.{
  ℕ, ◌≤◌, ◌≡◌, refl, ◌↔◌, ◌⊎◌, inl, inr, Bool, true, none, List, [], ◌∷◌, arith, leb, nat_eq, Text,
  text_eq, text_beq_iff, =ℕ_iff, to_lower_case,
}
use over_sync.Order.{chain_beq_iff}
use over_sync.Planner.Drift.{
  PlanLeg, ResolverOrder, ResolverPlan, PlanErrorCode, PlanIssue, valid, LegKind, push_unless,
  for_submit, src_leg, dst_leg, compare_legs, plan_issues, result_of, validate_plan,
  validate_plan_for_submit, returned, refused, submit_validated_plan, build_order_plan,
  BuildOrderPlanOptions,
}

-- A plan that has not drifted: all that the two records share agrees, the hashlock up to the case of
-- its letters.
abbrev pub SameLeg : PlanLeg → PlanLeg → Type 0
SameLeg a b =
    (a.chain ≡ b.chain) × (a.asset ≡ b.asset) × (a.amount ≡ b.amount) × (a.timelock ≡ b.timelock)

abbrev pub Matches : ResolverPlan → ResolverOrder → Type 0
Matches plan order =
    (plan.public_id ≡ order.public_id)
    × (to_lower_case plan.hashlock ≡ to_lower_case order.hashlock)
    × SameLeg plan.src order.src
    × SameLeg plan.dst order.dst

-- The issue is not pushed exactly if the test succeeds.
push_unless_none :
    (same : Bool) (code : PlanErrorCode) (field expected actual : Text) (later : List PlanIssue)
    → push_unless same code field expected actual later ≡ []
    → (same ≡ true) × (later ≡ [])
push_unless_none same code field expected actual later h = ground arith

compare_legs_iff :
    (kind : LegKind) (a b : PlanLeg) (later : List PlanIssue)
    → (compare_legs kind a b later ≡ []) ↔ (SameLeg a b × (later ≡ []))
unfolding compare_legs
compare_legs_iff kind a b later = (
  (λ h.
      let (c, h₁) = push_unless_none _ _ _ _ _ _ h in
      let (t, h₂) = push_unless_none _ _ _ _ _ _ h₁ in
      let (m, h₃) = push_unless_none _ _ _ _ _ _ h₂ in
      let (l, h₄) = push_unless_none _ _ _ _ _ _ h₃ in
      (
        (
          (chain_beq_iff a.chain b.chain).0 c,
          (text_beq_iff a.asset b.asset).0 t,
          (text_beq_iff a.amount b.amount).0 m,
          (=ℕ_iff a.timelock b.timelock).0 l,
        ),
        h₄,
      )),
  λ ((c, t, m, l), h).
      rw
        (
          (chain_beq_iff a.chain b.chain).1 c,
          (text_beq_iff a.asset b.asset).1 t,
          (text_beq_iff a.amount b.amount).1 m,
          (=ℕ_iff a.timelock b.timelock).1 l,
        )
        h,
)

leb_le : {a b : ℕ} → leb a b ≡ true → a ≤ b
leb_le h = ground arith

valid_none : (issues : List PlanIssue) → result_of issues ≡ valid → issues ≡ []
valid_none [] h = refl
valid_none (i ∷ is) h = ground arith

-- A plan is valid exactly if it matches the order in every field and its deadline has not passed.
pub validate_plan_iff :
    (plan : ResolverPlan) (order : ResolverOrder) (now : ℕ)
    → (validate_plan plan order now ≡ valid) ↔ (Matches plan order × (now ≤ plan.expires_at))
unfolding validate_plan plan_issues
validate_plan_iff plan order now = (
  (λ h.
      let (i, h₁) = push_unless_none _ _ _ _ _ _ (valid_none _ h) in
      let (k, h₂) = push_unless_none _ _ _ _ _ _ h₁ in
      let (src, h₃) = (compare_legs_iff src_leg plan.src order.src _).0 h₂ in
      let (dst, h₄) = (compare_legs_iff dst_leg plan.dst order.dst _).0 h₃ in
      let (fresh, h₅) = push_unless_none _ _ _ _ _ _ h₄ in
      (
        ((text_beq_iff plan.public_id order.public_id).0 i, (text_beq_iff _ _).0 k, src, dst),
        leb_le fresh,
      )),
  λ ((i, k, src, dst), fresh).
      let in_time : leb now plan.expires_at ≡ true = ground arith in
      rw
        (
          in_time,
          (text_beq_iff plan.public_id order.public_id).1 i,
          (text_beq_iff (to_lower_case plan.hashlock) (to_lower_case order.hashlock)).1 k,
          (compare_legs_iff dst_leg plan.dst order.dst []).1 (dst, refl),
          (compare_legs_iff src_leg plan.src order.src []).1 (src, refl),
        )
        refl,
)

List-cases :
    (issues : List PlanIssue)
    → (issues ≡ []) ⊎ ((first : PlanIssue) × (rest : List PlanIssue) × (issues ≡ first ∷ rest))
List-cases [] = inl refl
List-cases (first ∷ rest) = inr (first, rest, refl)

valid_some : {first : PlanIssue} {rest : List PlanIssue} → ¬ (result_of (first ∷ rest) ≡ valid)
valid_some h = ground arith

submit_outcome :
    {A : Type 0} (plan : ResolverPlan) (order : ResolverOrder) (submit : ResolverPlan → A) (now : ℕ)
    {issues : List PlanIssue}
    → plan_issues plan order now ≡ issues
    → submit_validated_plan plan order submit now ≡ for_submit (result_of issues) (submit plan)
unfolding submit_validated_plan validate_plan_for_submit validate_plan
submit_outcome plan order submit now {issues = []} e = ground arith
submit_outcome plan order submit now {issues = i ∷ is} e = ground arith

-- The callback runs on the plan exactly if the plan matches the order and is in time at the moment
-- of the submission; otherwise the outcome is a refusal with the code of the first issue of the
-- list.
pub submit_validated_plan_iff :
    {A : Type 0} (plan : ResolverPlan) (order : ResolverOrder) (submit : ResolverPlan → A) (now : ℕ)
    → let out = submit_validated_plan plan order submit now in
      ((out ≡ returned (submit plan)) × Matches plan order × (now ≤ plan.expires_at))
      ⊎ ((first : PlanIssue) × (rest : List PlanIssue) × (reason : Text) × (plan_issues plan order
              now
            ≡ first ∷ rest)
          × (out ≡ refused first.code (first ∷ rest) reason)
          × ¬ (Matches plan order × (now ≤ plan.expires_at)))
unfolding submit_validated_plan validate_plan_for_submit validate_plan
submit_validated_plan_iff plan order submit now = elim (List-cases (plan_issues plan order now)) [
  | inl none_found ↦
      let (matches, in_time) = (validate_plan_iff plan order now).0 (rw none_found refl) in
      inl (submit_outcome plan order submit now none_found, matches, in_time)
  | inr (first, rest, found) ↦ inr (
    first,
    rest,
    _,
    found,
    submit_outcome plan order submit now found,
    λ h. valid_some (rw found at ((validate_plan_iff plan order now).1 h)),
  )
]

same_leg : (a : PlanLeg) → SameLeg a a
same_leg a = (refl, refl, refl, refl)

-- A plan that is built for an order with the default deadline is submitted to that same order at
-- every time up to the earlier of the order's two timelocks, and at no later one.
pub build_order_plan-submit :
    {A : Type 0} (clock : ℕ) (order : ResolverOrder) (options : BuildOrderPlanOptions)
    (submit : ResolverPlan → A) (later : ℕ)
    → options.expires_at ≡ none
    → let plan = build_order_plan clock order options in
      (submit_validated_plan plan order submit later ≡ returned (submit plan))
      ↔ ((later ≤ order.src.timelock) × (later ≤ order.dst.timelock))
unfolding build_order_plan
build_order_plan-submit clock order options submit later default = (
  (λ h. elim (submit_validated_plan_iff plan order submit later) [
    | inl (ran, matches, in_time) ↦ ground arith
    | inr (first, rest, reason, found, out, stale) ↦ absurd (ground arith)
  ]),
  λ (src, dst). elim (submit_validated_plan_iff plan order submit later) [
    | inl (ran, matches, in_time) ↦ ran
    | inr (first, rest, reason, found, out, stale) ↦
        absurd
          (stale ((refl, refl, same_leg order.src, same_leg order.dst), rw default (omega arith)))
  ],
)
  where
    plan : ResolverPlan
    plan = build_order_plan clock order options
