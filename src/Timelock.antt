-- ===== src/Timelock.antt =====
-- coordinator/src/utils/timelock-validator.ts (of which relayer/src/utils/timelock-validator.ts
-- repeats `validateTimelockOrdering`). Unix seconds are natural numbers.
pub mod Safety
use over_sync.Prelude.{
  ℕ, ◌-◌, ◌+◌, Bool, true, false, ◌&&◌, Option, none, some, List, [], ◌∷◌, ltb, leb, map, select,
  is_empty, if◌then◌else◌,
}

pub data TimelockValidationError : Type 0 where
  timelocks_reversed gap_too_small : TimelockValidationError

pub data SecretWindowError : Type 0 where
  src_timelock_expired dst_timelock_expired : SecretWindowError

pub data RefundChain : Type 0 where
  ethereum stellar : RefundChain

-- An entry of `lockedSides`.
pub record LockedSide : Type 0 where
  pub chain : RefundChain
  pub earliest_refund_at : Option ℕ

pub record RefundEligibility : Type 0 where
  pub eligible : Bool
  pub locked_sides : List LockedSide

-- The filter: `timelock === null || nowUnixSeconds <= timelock`.
abbrev pub is_locked : ℕ → RefundChain × Option ℕ → Bool
is_locked now (chain, none) = true
is_locked now (chain, some timelock) = leb now timelock

abbrev pub to_locked_side : RefundChain × Option ℕ → LockedSide
to_locked_side (chain, none) = record { chain = chain; earliest_refund_at = none }
to_locked_side (chain, some timelock) = record {
  chain = chain;
  earliest_refund_at = some (timelock + 1);
}

-- The argument `timelocks` is the list of its entries, as `Object.entries` gives them.
unfoldable pub evaluate_refund_eligibility : List (RefundChain × Option ℕ) → ℕ → RefundEligibility
evaluate_refund_eligibility timelocks now =
    let locked = map to_locked_side (select (is_locked now) timelocks) in
    record { eligible = is_empty locked; locked_sides = locked }

-- The result `{ isValid, error? }`.
pub record Validation : Type 0 where
  pub is_valid : Bool
  pub error : Option TimelockValidationError

unfoldable pub validate_timelock_ordering : ℕ → ℕ → ℕ → Validation
validate_timelock_ordering src dst min_gap =
    if leb src dst
    then record { is_valid = false; error = some timelocks_reversed }
    else if ltb (src - dst) min_gap
    then record { is_valid = false; error = some gap_too_small }
    else record { is_valid = true; error = none }

unfoldable pub validate_timelocks_at_creation : ℕ → ℕ → ℕ → Validation
unfolding validate_timelock_ordering
validate_timelocks_at_creation src dst min_gap = validate_timelock_ordering src dst min_gap

-- The result `{ open, error? }`.
pub record SecretWindow : Type 0 where
  pub is_open : Bool
  pub error : Option SecretWindowError

-- `timelock != null && timelock > 0 && nowSec > timelock`
abbrev pub has_passed : Option ℕ → ℕ → Bool
has_passed none now = false
has_passed (some timelock) now = ltb 0 timelock && ltb timelock now

unfoldable pub evaluate_secret_window : Option ℕ → Option ℕ → ℕ → SecretWindow
evaluate_secret_window src dst now =
    if has_passed src now
    then record { is_open = false; error = some src_timelock_expired }
    else if has_passed dst now
    then record { is_open = false; error = some dst_timelock_expired }
    else record { is_open = true; error = none }
