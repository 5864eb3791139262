-- ===== src/Examples/Plans.antt =====
-- Plans of the resolver.
use over_sync.Prelude.{ℕ, ◌+◌, ◌≤◌, ◌<◌, ◌≡◌, ◌⊎◌, true, none, some, List, ◌∷◌, Text, text}
use over_sync.Order.{ethereum, eth_to_xlm}
use over_sync.Planner.Drift.{
  PlanLeg, ResolverOrder, ResolverPlan, PlanIssue, fill, returned, refused, submit_validated_plan,
  BuildOrderPlanOptions, plan_issues,
}
use over_sync.Planner.Drift.Agreement.{Matches, submit_validated_plan_iff}
use over_sync.Planner.Fill.{
  ObservedSourceOrder, ResolverConfig, ChainConfig, PlanOptions, FillPlan, compute_timelock_seconds,
  destination_of,
}
use over_sync.Planner.Fill.Limits.{compute_timelock_seconds_lem}

abbrev leg : ℕ → PlanLeg
leg timelock = record {
  chain = ethereum;
  asset = text "0x0";
  amount = text "5";
  timelock = timelock;
}

abbrev order : ResolverOrder
order = record {
  public_id = text "swap";
  direction = eth_to_xlm;
  hashlock = text "0xab";
  src = leg 5000;
  dst = leg 3000;
}

abbrev plan : ResolverPlan
plan = record {
  public_id = text "swap";
  action = fill;
  hashlock = text "0xAB";
  src = leg 5000;
  dst = leg 3000;
  expires_at = 3000;
  built_at = 1000;
}

submit_validated_plan_iff_example :
    let out = submit_validated_plan plan order (λ p. p.built_at) 2000 in
    ((out ≡ returned 1000) × Matches plan order × (2000 ≤ 3000))
    ⊎ ((first : PlanIssue) × (rest : List PlanIssue) × (reason : Text) × (plan_issues plan order
            2000
          ≡ first ∷ rest)
        × (out ≡ refused first.code (first ∷ rest) reason)
        × ¬ (Matches plan order × (2000 ≤ 3000)))
submit_validated_plan_iff_example = submit_validated_plan_iff plan order (λ p. p.built_at) 2000

abbrev defaults : BuildOrderPlanOptions
defaults = record { action = none; now = none; expires_at = none }

compute_timelock_seconds_lem_example :
    let seconds = compute_timelock_seconds 5000 4700 600 in
    (300 ≤ seconds)
    × (seconds ≤ 86400)
    × (4700 + 600 + 300 ≤ 5000 → 4700 + seconds + 600 ≤ 5000)
    × (5000 < 4700 + 600 + 300 → (seconds ≡ 300) × (5000 < 4700 + seconds + 600))
compute_timelock_seconds_lem_example = compute_timelock_seconds_lem 5000 4700 600

abbrev chain_config : ChainConfig
chain_config = record {
  escrow = some (text "0x01");
  rpc_url = text "http://node";
  signer = none;
  resolver_registry = none;
}

abbrev config : ResolverConfig
config = record {
  network = text "testnet";
  ethereum_config = chain_config;
  soroban_config = chain_config;
}

abbrev observed : ObservedSourceOrder
observed = record {
  source_chain = ethereum;
  order_id = text "7";
  sender = text "0x02";
  beneficiary = text "G";
  token = text "0x0";
  amount = 50000;
  safety_deposit = 1;
  hashlock = text "0xab";
  timelock = 9000;
}

abbrev dry_run : PlanOptions
dry_run = record { timelock_buffer_seconds = none; fee_basis_points = none; dry_run = true }

abbrev fill_plan : FillPlan
fill_plan = record {
  source = observed;
  destination = destination_of 5000 observed config dry_run;
  direction = eth_to_xlm;
}
