-- ===== src/Sdk/Amounts/Exact.antt =====
-- Conversion between the chains loses nothing.
use over_sync.Prelude.{ℕ, ◌*◌, ◌%◌, ◌^◌, ◌≤◌, ◌<◌, ◌≡◌, ◌↔◌, true, false, arith, ℤ, pos, negsuc}
use over_sync.Sdk.Amounts.{
  ok, err, negative, precision_loss, overflow, max_stellar_stroops, wei_to_stroops, stroops_to_wei,
  is_bridgeable_wei,
}

-- `weiToStroops` on every amount: a negative one, one that is no whole number of stroops, and one
-- above the ledger's ceiling are refused with their own code, in this order, and every other amount
-- is converted to the number of stroops of 10^11 wei.
pub wei_to_stroops_cases :
    (wei stroops : ℕ)
    → (wei_to_stroops (negsuc wei) ≡ err negative)
      × ((wei_to_stroops (pos wei) ≡ ok (pos stroops))
          ↔ ((wei ≡ stroops * 10 ^ 11) × (stroops ≤ max_stellar_stroops)))
      × ((wei_to_stroops (pos wei) ≡ err precision_loss) ↔ (0 < wei % 10 ^ 11))
      × ((wei_to_stroops (pos wei) ≡ err overflow)
          ↔ ((wei % 10 ^ 11 ≡ 0) × (max_stellar_stroops * 10 ^ 11 < wei)))
unfolding wei_to_stroops
wei_to_stroops_cases wei stroops = ground arith

-- The two conversions are inverse: an amount of wei converts to some stroops exactly when these
-- convert back to it.
pub wei_to_stroops-stroops_to_wei :
    (wei stroops : ℤ) → (wei_to_stroops wei ≡ ok stroops) ↔ (stroops_to_wei stroops ≡ ok wei)
unfolding wei_to_stroops stroops_to_wei
wei_to_stroops-stroops_to_wei (pos wei) (pos stroops) = ground arith
wei_to_stroops-stroops_to_wei _ _ = ground arith

-- An amount of wei is bridgeable exactly when it is a whole number of stroops, not negative, and not
-- above the ceiling.
pub is_bridgeable_wei_iff :
    (wei : ℕ)
    → (is_bridgeable_wei (negsuc wei) ≡ false)
      × ((is_bridgeable_wei (pos wei) ≡ true)
          ↔ ((wei % 10 ^ 11 ≡ 0) × (wei ≤ max_stellar_stroops * 10 ^ 11)))
unfolding is_bridgeable_wei
is_bridgeable_wei_iff wei = ground arith
