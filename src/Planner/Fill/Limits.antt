-- ===== src/Planner/Fill/Limits.antt =====
-- The limits that a fill plan keeps.
use mathlib.Core.Path.{subst}
use native.Mathlib.Nat.{div-le_of_le-mul}
use over_sync.Prelude.{
  ℕ, ◌+◌, ◌-◌, ◌*◌, ◌/◌, ◌≤◌, ◌<◌, ◌≡◌, refl, inl, inr, List, [], ◌∷◌, arith, ◌=ℕ◌, =ℕ_iff,
  Bool-cases, Text, pos,
}
use over_sync.Planner.Fill.{
  ObservedSourceOrder, ResolverConfig, PlanOptions, FillPlan, PlanResult, planned, default_to,
  default_timelock_buffer, default_fee_basis_points, resolve_destination_chain, resolve_direction,
  compute_timelock_seconds, compute_destination_amount, validate_resolver_config,
  validate_destination_params, destination_of, build_plan, unless_errors,
}

-- The destination's relative timelock is always between five minutes and a day. If the source
-- leaves at least five minutes beyond the buffer, the destination ends before the source by the
-- buffer at least; if it leaves less, the destination is given five minutes all the same, and ends
-- less than the buffer before the source, or after it.
pub compute_timelock_seconds_lem :
    (source now buffer : ℕ)
    → let seconds = compute_timelock_seconds source now buffer in
      (300 ≤ seconds)
      × (seconds ≤ 86400)
      × (now + buffer + 300 ≤ source → now + seconds + buffer ≤ source)
      × (source < now + buffer + 300 → (seconds ≡ 300) × (source < now + seconds + buffer))
unfolding compute_timelock_seconds
compute_timelock_seconds_lem source now buffer = ground arith

-- The amount is what is left of the source's after the fee: with a fee of at most the whole, it is
-- not negative and not more than the source's amount, and it and the fee make up the source's.
pub compute_destination_amount_lem :
    (amount fee : ℕ)
    → fee ≤ 10000
    → (left : ℕ) × (compute_destination_amount amount fee ≡ pos left)
      × (left + amount * fee / 10000 ≡ amount)
unfolding compute_destination_amount
compute_destination_amount_lem amount fee h =
    let bound : amount * fee / 10000 ≤ amount = div-le_of_le-mul 10000 (grind arith) in
    elim (Bool-cases (fee =ℕ 0)) [
      | inl free ↦ (amount, ground arith, rw ((=ℕ_iff fee 0).0 free) (omega arith))
      | inr charged ↦ (amount - amount * fee / 10000, ground arith, omega (arith, bound))
    ]

-- What a plan that is built fulfils.
abbrev Sound : ℕ → ObservedSourceOrder → ResolverConfig → PlanOptions → FillPlan → Type 0
Sound now order cfg opts plan =
    let d = plan.destination in
    let fee = order.amount * default_to opts.fee_basis_points default_fee_basis_points / 10000 in
    (plan.source ≡ order)
    × (plan.direction ≡ resolve_direction order.source_chain)
    × (d.destination_chain ≡ resolve_destination_chain order.source_chain)
    × (d.hashlock ≡ order.hashlock)
    × (300 ≤ d.timelock_seconds)
    × (d.timelock_seconds ≤ 86400)
    × ((left : ℕ) × (d.amount ≡ pos left) × (0 < left) × (left + fee ≡ order.amount))
    × (validate_resolver_config cfg opts.dry_run ≡ [])

unless_errors_planned :
    (errors : List Text) (result : PlanResult) {plan : FillPlan}
    → unless_errors errors result ≡ planned plan
    → (errors ≡ []) × (result ≡ planned plan)
unless_errors_planned [] result e = (refl, e)
unless_errors_planned (x ∷ xs) result e = ground arith

planned_plan : {a b : FillPlan} → planned a ≡ planned b → a ≡ b
planned_plan e = ground arith

positive :
    (left deposit seconds : ℕ)
    → validate_destination_params (pos left) deposit seconds ≡ []
    → 0 < left
unfolding validate_destination_params
positive left deposit seconds e = ground arith

-- With a fee of at most the whole, a plan that is built is for the order that was observed: its
-- destination is on the other chain, under the same hashlock, for a positive amount that makes up the
-- source's together with the fee, for at least five minutes and at most a day; and the configuration
-- has no errors.
pub build_plan-planned :
    (now : ℕ) (order : ObservedSourceOrder) (cfg : ResolverConfig) (opts : PlanOptions)
    (plan : FillPlan)
    → default_to opts.fee_basis_points default_fee_basis_points ≤ 10000
    → build_plan now order cfg opts ≡ planned plan
    → let d = plan.destination in
      let fee = order.amount * default_to opts.fee_basis_points default_fee_basis_points / 10000 in
      (plan.source ≡ order)
      × (plan.direction ≡ resolve_direction order.source_chain)
      × (d.destination_chain ≡ resolve_destination_chain order.source_chain)
      × (d.hashlock ≡ order.hashlock)
      × (300 ≤ d.timelock_seconds)
      × (d.timelock_seconds ≤ 86400)
      × ((left : ℕ) × (d.amount ≡ pos left) × (0 < left) × (left + fee ≡ order.amount))
      × (validate_resolver_config cfg opts.dry_run ≡ [])
unfolding build_plan destination_of
build_plan-planned now order cfg opts plan h e =
    let buffer : ℕ = default_to opts.timelock_buffer_seconds default_timelock_buffer in
    let (lo, hi, _, _) = compute_timelock_seconds_lem order.timelock now buffer in
    let (left, amount, sum) =
      compute_destination_amount_lem order.amount
        (default_to opts.fee_basis_points default_fee_basis_points) h in
    let (configured, e₁) = unless_errors_planned _ _ e in
    let (sane, e₂) = unless_errors_planned _ _ e₁ in
    let same = planned_plan e₂ in
    subst (λ plan. Sound now order cfg opts plan) same
      (
        refl,
        refl,
        refl,
        refl,
        lo,
        hi,
        (
          left,
          amount,
          positive left order.safety_deposit (compute_timelock_seconds order.timelock now buffer)
              (rw amount at sane),
          sum,
        ),
        configured,
      )
