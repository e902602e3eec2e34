-- ===== src/Contracts/BigBang/Closing.antt =====
-- `_computeClosingFactor` and `_getCallerReward` of contracts/markets/Market.sol, whose arithmetic is signed
-- in part: how much of a debt a liquidation repays, and what share of the surplus its caller has.
pub mod Factor
pub mod Reward
use tapioca_lending_engine.Base.{
  ℕ, ◌+◌, ◌-◌, ◌*◌, ◌/◌, ◌^◌, ◌==◌, ltb, leb, Bool, ◌||◌, Outcome, ok, ◌>>=◌, ◌>>◌, fail_if,
  if◌then◌else◌,
}
use tapioca_lending_engine.Base.Int.{
  ℤ, pos, ◌+ℤ◌, ◌-ℤ◌, ◌*ℤ◌, is_negative, ltb_ℤ, to_int256, to_uint256, checked_int, divided,
}
use tapioca_lending_engine.Contracts.BigBang.{BigBang, checked, minus}
use tapioca_lending_engine.Contracts.MarketConfig.{MarketConfig}

-- `(part * elastic) / base`
unfoldable pub borrow_amount : ℕ → BigBang → Outcome ℕ
borrow_amount part b = do
  product ← checked 256 (part * b.total_borrow.elastic)
  fail_if (b.total_borrow.base == 0) "Panic(0x12)"
  ok (product / b.total_borrow.base)

-- The denominator of the closing factor, at five decimals
unfoldable pub closing_denominator : ℕ → ℕ → Outcome ℤ
closing_denominator rate multiplier = do
  sum ← checked 256 (10 ^ 5 + multiplier)
  product ← checked 256 (rate * sum)
  difference ← checked_int (pos (10 ^ 5) -ℤ to_int256 (product / 10 ^ 5))
  checked_int (difference *ℤ pos (10 ^ 13))

-- The amount that is liquidated of a debt that is past the start
unfoldable pub closing_amount : ℕ → ℕ → ℕ → ℕ → Outcome ℕ
unfolding closing_denominator
closing_amount debt starts_at rate multiplier = do
  denominator ← closing_denominator rate multiplier
  numerator ← checked_int (to_int256 (debt - starts_at) *ℤ pos (10 ^ 18))
  x ← divided numerator denominator
  x_pos ← if is_negative x then checked_int (pos 0 -ℤ x) else ok x
  ok (if ltb debt (to_uint256 x_pos) then debt else to_uint256 x_pos)

-- `computeClosingFactor` at `FEE_PRECISION_DECIMALS`, as the liquidations call it
unfoldable pub compute_closing_factor : ℕ → ℕ → MarketConfig → BigBang → Outcome ℕ
unfolding borrow_amount closing_amount
compute_closing_factor part collateral_in_asset c b = do
  debt ← borrow_amount part b
  product ← checked 256 (collateral_in_asset * b.liquidation_collateralization_rate)
  if ltb debt (product / 10 ^ 5)
      then ok 0
      else closing_amount debt (product / 10 ^ 5) b.liquidation_collateralization_rate
          c.liquidation_multiplier

-- `_computeMaxAndMinLTVInAsset`: the smallest and the greatest
unfoldable pub compute_max_and_min_ltv_in_asset : (ℕ → ℕ) → ℕ → ℕ → BigBang → Outcome (ℕ × ℕ)
compute_max_and_min_ltv_in_asset to_amount share rate b = do
  fail_if (rate == 0) "Market: exchangeRate not valid"
  product ← checked 256 (to_amount share * b.exchange_rate_precision)
  scaled ← checked 256 (product / rate * b.collateralization_rate)
  ok (scaled / 10 ^ 5, product / rate)

-- The reward at a percentage of the way from the smallest to the greatest loan to value
unfoldable pub sloped_reward : ℕ → MarketConfig → Outcome ℕ
sloped_reward percentage c = do
  diff ← checked_int (to_int256 c.min_liquidator_reward -ℤ to_int256 c.max_liquidator_reward)
  product ← checked_int (diff *ℤ to_int256 percentage)
  fall ← divided product (pos (10 ^ 5))
  reward ← checked_int (fall +ℤ to_int256 c.max_liquidator_reward)
  ok (
      to_uint256 (
        if ltb_ℤ reward (to_int256 c.min_liquidator_reward)
        then to_int256 c.min_liquidator_reward
        else reward))

unfoldable pub reward_between : ℕ → ℕ → ℕ → MarketConfig → Outcome ℕ
unfolding sloped_reward
reward_between debt min max c =
    if ltb debt min
    then ok 0
    else (if leb max debt then ok c.min_liquidator_reward else do
      product ← checked 256 ((debt - min) * 10 ^ 5)
      sloped_reward (product / (max - min)) c)

unfoldable pub get_caller_reward : (ℕ → ℕ) → ℕ → ℕ → MarketConfig → BigBang → Outcome ℕ
unfolding compute_max_and_min_ltv_in_asset borrow_amount reward_between
get_caller_reward to_amount user rate c b = do
  (min, max) ← compute_max_and_min_ltv_in_asset to_amount (b.user_collateral_share user) rate b
  if b.user_borrow_part user == 0 || min == 0
      then ok 0
      else (borrow_amount (b.user_borrow_part user) b >>= λ debt. reward_between debt min max c)
