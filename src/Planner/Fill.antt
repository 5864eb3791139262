-- ===== src/Planner/Fill.antt =====
-- The dry-run fill plan, `buildPlan` of resolver/src/planner/index.ts with the validation of
-- resolver/src/planner/validate.ts and the types of resolver/src/planner/types.ts. The chain's
-- amounts and times are not negative; a destination amount may be, and is a signed integer.
pub mod Limits
use over_sync.Prelude.{
  ℕ, ◌-◌, ◌*◌, ◌/◌, Bool, true, false, not, ◌&&◌, ◌||◌, Option, none, some, List, [], ◌∷◌, ◌++◌,
  ltb, leb, ◌=ℕ◌, ◌==◌, if◌then◌else◌, is_empty, Text, text, text_eq, ℤ, pos, negsuc,
}
use over_sync.Decimal.{to_string}
use over_sync.Order.{Chain, ethereum, stellar, Direction, eth_to_xlm, xlm_to_eth}

-- What the planner reads of `EthereumConfig` and of `SorobanConfig`: `htlcEscrow` or `htlc`,
-- `resolverPrivateKey` or `resolverSecret`.
pub record ChainConfig : Type 0 where
  pub escrow : Option Text
  pub rpc_url : Text
  pub signer : Option Text
  pub resolver_registry : Option Text

pub record ResolverConfig : Type 0 where
  pub network : Text
  pub ethereum_config : ChainConfig
  pub soroban_config : ChainConfig

pub record ObservedSourceOrder : Type 0 where
  pub source_chain : Chain
  pub order_id : Text
  pub sender : Text
  pub beneficiary : Text
  pub token : Text
  pub amount : ℕ
  pub safety_deposit : ℕ
  pub hashlock : Text
  pub timelock : ℕ

pub record DestinationOrderParams : Type 0 where
  pub destination_chain : Chain
  pub beneficiary : Text
  pub refund_address : Text
  pub token : Text
  pub amount : ℤ
  pub safety_deposit : ℕ
  pub hashlock : Text
  pub timelock_seconds : ℕ

pub record FillPlan : Type 0 where
  pub source : ObservedSourceOrder
  pub destination : DestinationOrderParams
  pub direction : Direction

pub data PlanResult : Type 0 where
  planned : FillPlan → PlanResult
  failed : List Text → PlanResult

pub record PlanOptions : Type 0 where
  pub timelock_buffer_seconds : Option ℕ
  pub fee_basis_points : Option ℕ
  pub dry_run : Bool

abbrev pub default_timelock_buffer : ℕ
default_timelock_buffer = 600

abbrev pub default_fee_basis_points : ℕ
default_fee_basis_points = 10

abbrev pub resolve_direction : Chain → Direction
resolve_direction ethereum = eth_to_xlm
resolve_direction stellar = xlm_to_eth

abbrev pub resolve_destination_chain : Chain → Chain
resolve_destination_chain ethereum = stellar
resolve_destination_chain stellar = ethereum

-- `computeTimelockSeconds`. The source's difference may be negative and is then below 300; the
-- subtraction here stops at 0, which is below 300 too.
unfoldable pub compute_timelock_seconds : ℕ → ℕ → ℕ → ℕ
compute_timelock_seconds source_timelock now buffer =
    let clamped = source_timelock - now - buffer in
    if ltb clamped 300 then 300 else if ltb 86400 clamped then 86400 else clamped

-- `a - b` on bigints that are not negative.
abbrev pub difference : ℕ → ℕ → ℤ
difference a b = if leb b a then pos (a - b) else negsuc (b - a - 1)

unfoldable pub compute_destination_amount : ℕ → ℕ → ℤ
compute_destination_amount source_amount fee_basis_points =
    if fee_basis_points =ℕ 0
    then pos source_amount
    else difference source_amount (source_amount * fee_basis_points / 10000)

-- `if (wrong) errs.push(message)`, before what is pushed after it.
abbrev pub push_if : Bool → Text → List Text → List Text
push_if wrong message later = if wrong then message ∷ later else later

-- `!value` of an optional string.
abbrev pub is_unset : Option Text → Bool
is_unset none = true
is_unset (some value) = is_empty value

unfoldable pub validate_resolver_config : ResolverConfig → Bool → List Text
validate_resolver_config cfg dry_run =
    push_if (not (cfg.network == text "testnet") && not (cfg.network == text "mainnet"))
      (text "Invalid network: " ++ cfg.network)
      (push_if (is_unset cfg.ethereum_config.escrow)
        (text
          "ETH_HTLC_ESCROW contract address is not configured (set ETH_HTLC_ESCROW_TESTNET or ETH_HTLC_ESCROW_MAINNET)")
        (push_if (is_unset cfg.soroban_config.escrow)
          (text
            "SOROBAN_HTLC contract id is not configured (set SOROBAN_HTLC_TESTNET or SOROBAN_HTLC_MAINNET)")
          (push_if (is_empty cfg.ethereum_config.rpc_url)
            (text "Ethereum RPC URL is not configured")
            (push_if (is_empty cfg.soroban_config.rpc_url)
              (text "Soroban RPC URL is not configured")
              (push_if (not dry_run && is_unset cfg.ethereum_config.signer)
                (text "RESOLVER_ETH_PRIVATE_KEY is required when dry-run is disabled")
                (push_if (not dry_run && is_unset cfg.soroban_config.signer)
                  (text "RESOLVER_STELLAR_SECRET is required when dry-run is disabled") []))))))

-- `amount <= 0n`
abbrev pub is_positive : ℤ → Bool
is_positive (pos n) = ltb 0 n
is_positive (negsuc n) = false

-- The safety deposit of an observed order is not negative, so its test pushes nothing.
unfoldable pub validate_destination_params : ℤ → ℕ → ℕ → List Text
validate_destination_params amount safety_deposit timelock_seconds =
    push_if (not (is_positive amount)) (text "Destination amount must be > 0") (
      push_if (ltb timelock_seconds 300)
        (text "Timelock (" ++ (to_string timelock_seconds ++ text "s) is below minimum (300s)"))
        (push_if (ltb 86400 timelock_seconds)
          (text "Timelock (" ++ (to_string timelock_seconds ++ text "s) exceeds maximum (86400s)"))
          []))

-- `value ?? fallback`
abbrev pub default_to {ℓ} : {A : Type ℓ} → Option A → A → A
default_to none fallback = fallback
default_to (some value) fallback = value

abbrev pub registry_of : Chain → ResolverConfig → Option Text
registry_of ethereum cfg = cfg.ethereum_config.resolver_registry
registry_of stellar cfg = cfg.soroban_config.resolver_registry

-- The destination that `buildPlan` computes at the time `now`.
unfoldable pub destination_of :
    ℕ → ObservedSourceOrder → ResolverConfig → PlanOptions → DestinationOrderParams
destination_of now order cfg opts =
    let chain = resolve_destination_chain order.source_chain in
    record {
      destination_chain = chain;
      beneficiary = order.beneficiary;
      refund_address = default_to (registry_of chain cfg) order.sender;
      token = order.token;
      amount =
          compute_destination_amount order.amount
            (default_to opts.fee_basis_points default_fee_basis_points);
      safety_deposit = order.safety_deposit;
      hashlock = order.hashlock;
      timelock_seconds =
          compute_timelock_seconds order.timelock now
            (default_to opts.timelock_buffer_seconds default_timelock_buffer);
    }

-- A list of errors, if there are any, is the result.
abbrev pub unless_errors : List Text → PlanResult → PlanResult
unless_errors [] result = result
unless_errors (e ∷ es) result = failed (e ∷ es)

unfoldable pub build_plan : ℕ → ObservedSourceOrder → ResolverConfig → PlanOptions → PlanResult
unfolding validate_resolver_config validate_destination_params destination_of
build_plan now order cfg opts =
    let d = destination_of now order cfg opts in
    unless_errors (validate_resolver_config cfg opts.dry_run) (
      unless_errors (validate_destination_params d.amount d.safety_deposit d.timelock_seconds) (
        planned (record {
          source = order;
          destination = d;
          direction = resolve_direction order.source_chain;
        })))
