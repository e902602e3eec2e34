-- ===== src/Contracts/BigBang/Liquidation.antt =====
-- contracts/markets/bigBang/BBLiquidation.sol: closed liquidations and those of a bad debt. YieldBox's
-- conversions and those of `RebaseLibrary` are fields of `Terms`; what a receiver returns for the collateral
-- that it gets is a function of the data and the amount. Transfers of tokens are left out, the amounts
-- of them are returned.
pub mod Taken
use tapioca_lending_engine.Base.{
  ℕ, ◌+◌, ◌-◌, ◌*◌, ◌/◌, ◌^◌, ◌==◌, ltb, leb, Bool, true, false, not, ◌&&◌, List, [], ◌∷◌, Outcome,
  ok, fail, ◌>>=◌, ◌>>◌, fail_if, length, update, if◌then◌else◌,
}
use tapioca_lending_engine.Contracts.BigBang.{BigBang, Rebase, checked, minus}
use tapioca_lending_engine.Contracts.BigBang.Closing.{compute_closing_factor, get_caller_reward}
use tapioca_lending_engine.Contracts.BigBang.Lending.{is_solvent}
use tapioca_lending_engine.Contracts.MarketConfig.{MarketConfig}

-- The settings of the market, and the conversions: `toAmount` and `toShare` of the collateral, rounded
-- down, `toShare` of the asset, and `toElastic` and `toBase` of the library
pub record Terms : Type 0 where
  pub settings : MarketConfig
  pub to_amount : ℕ → ℕ
  pub to_share : ℕ → ℕ
  pub asset_to_share : ℕ → Bool → ℕ
  pub to_elastic : Rebase → ℕ → Bool → Outcome ℕ
  pub to_base : Rebase → ℕ → Bool → Outcome ℕ

-- `a > b ? b : a`
abbrev pub capped : ℕ → ℕ → ℕ
capped a b = if ltb b a then b else a

-- `minReceivableAsset`: the value of the collateral, less the slippage
unfoldable pub min_receivable_asset : Terms → ℕ → ℕ → BigBang → Outcome ℕ
min_receivable_asset t share rate b = do
  product ← checked 256 (t.to_amount share * b.exchange_rate_precision)
  fail_if (rate == 0) "Panic(0x12)"
  slippage ← checked 256 (product / rate * t.settings.max_liquidation_slippage)
  minus (product / rate) (slippage / 10 ^ 5)

-- `_swapCollateralWithAsset`: the shares of the asset, and the amount, that come back
unfoldable pub swap_collateral_with_asset :
    Terms → ℕ → (ℕ → Outcome ℕ) → ℕ → Bool → BigBang → Outcome (ℕ × ℕ)
unfolding min_receivable_asset
swap_collateral_with_asset t share receive rate check_returned b = do
  returned ← receive (t.to_amount share)
  least ← if check_returned then min_receivable_asset t share rate b else ok 0
  fail_if (check_returned && ltb returned least) "OnCollateralReceiverFailed"
  fail_if (returned == 0) "OnCollateralReceiverFailed"
  ok (t.asset_to_share returned false, returned)

-- The amount with the bonus that comes on top
unfoldable pub with_bonus : ℕ → ℕ → Outcome ℕ
with_bonus bonus amount =
    if ltb 0 bonus
    then (checked 256 (amount * bonus) >>= λ product. checked 256 (amount + product / 10 ^ 5))
    else ok amount

-- The collateral where it does not cover the bonus: all of it, if the caller accepts what is left of it
unfoldable pub reduced_bonus : ℕ → ℕ → ℕ → ℕ → ℕ → Outcome ℕ
reduced_bonus all amount total in_asset min_bonus = do
  fail_if (leb in_asset total) "BadDebt"
  fail_if (not (ltb 0 min_bonus)) "InsufficientLiquidationBonus"
  surplus ← minus in_asset amount
  product ← checked 256 (surplus * 10 ^ 5)
  fail_if (amount == 0) "Panic(0x12)"
  fail_if (ltb (product / amount) min_bonus) "InsufficientLiquidationBonus"
  ok all

unfoldable pub full_bonus : (ℕ → ℕ) → ℕ → ℕ → ℕ → BigBang → Outcome ℕ
full_bonus to_share all with rate b = do
  product ← checked 256 (with * rate)
  fail_if (b.exchange_rate_precision == 0) "Panic(0x12)"
  fail_if (ltb all (to_share (product / b.exchange_rate_precision))) "NotEnoughCollateral"
  ok (to_share (product / b.exchange_rate_precision))

-- The value of the collateral, the debt of the user, and the amount of it that is repaid
unfoldable pub liquidable_amount : Terms → ℕ → ℕ → ℕ → BigBang → Outcome (ℕ × ℕ × ℕ)
liquidable_amount t user max_part rate b = do
  fail_if (rate == 0) "ExchangeRateNotValid"
  value ← checked 256 (t.to_amount (b.user_collateral_share user) * b.exchange_rate_precision)
  factor ← compute_closing_factor (b.user_borrow_part user) (value / rate) t.settings b
  total ← t.to_elastic b.total_borrow (b.user_borrow_part user) true
  fail_if (ltb (value / rate) (capped factor total)) "BadDebt"
  ok (value / rate, total, capped (capped factor total) max_part)

-- The part that goes with the amount: all of it, where the amount is all of the debt
unfoldable pub liquidable_part : Terms → ℕ → ℕ → ℕ → BigBang → Outcome ℕ
liquidable_part t user total amount b = do
  part ←
      if amount == total
      then ok (b.user_borrow_part user)
      else t.to_base b.total_borrow amount false
  fail_if (part == 0) "Solvent"
  ok part

-- The collateral that goes with the amount and the bonus
unfoldable pub liquidable_share : Terms → ℕ → ℕ → ℕ → ℕ → ℕ → ℕ → BigBang → Outcome ℕ
unfolding with_bonus reduced_bonus full_bonus
liquidable_share t user in_asset total amount min_bonus rate b = do
  with ← with_bonus t.settings.liquidation_bonus_amount amount
  if ltb in_asset with
      then reduced_bonus (b.user_collateral_share user) amount total in_asset min_bonus
      else full_bonus t.to_share (b.user_collateral_share user) with rate b

-- `userBorrowPart[user] -= part; userCollateralShare[user] -= share;`
unfoldable pub take_off : ℕ → ℕ → ℕ → BigBang → Outcome BigBang
take_off user part share b = do
  part_left ← minus (b.user_borrow_part user) part
  share_left ← minus (b.user_collateral_share user) share
  ok (record b {
    user_borrow_part = update b.user_borrow_part user part_left;
    user_collateral_share = update b.user_collateral_share user share_left;
  })

-- The books of the user, the amount, the part and the collateral of `_updateBorrowAndCollateralShare`
unfoldable pub update_borrow_and_collateral_share :
    Terms → ℕ → ℕ → ℕ → ℕ → BigBang → Outcome (BigBang × ℕ × ℕ × ℕ)
unfolding liquidable_amount liquidable_part liquidable_share take_off
update_borrow_and_collateral_share t user max_part min_bonus rate b = do
  (in_asset, total, amount) ← liquidable_amount t user max_part rate b
  part ← liquidable_part t user total amount b
  share ← liquidable_share t user in_asset total amount min_bonus rate b
  c ← take_off user part share b
  ok (c, amount, part, share)

-- `_extractLiquidationFees`: the shares of the protocol and of the caller
unfoldable pub extract_liquidation_fees : ℕ → ℕ → ℕ → Outcome (ℕ × ℕ)
extract_liquidation_fees returned borrowed reward = do
  product ← checked 256 ((returned - borrowed) * reward)
  fee ← minus (returned - borrowed) (product / 10 ^ 5)
  ok (fee, product / 10 ^ 5)

-- What a liquidation moves: the debt that is burned, the part and the collateral that it takes, and the
-- shares of the caller and of the protocol
pub record Liquidated : Type 0 where
  pub amount : ℕ
  pub part : ℕ
  pub collateral_share : ℕ
  pub returned_share : ℕ
  pub caller_share : ℕ
  pub fee_share : ℕ

-- A user of `liquidate`, with the entries of the other arrays but the bonus
pub record Request : Type 0 where
  pub user : ℕ
  pub max_borrow_part : ℕ
  pub receive : ℕ → Outcome ℕ

unfoldable pub liquidate_user : Terms → ℕ → ℕ → Request → BigBang → Outcome (BigBang × Liquidated)
unfolding update_borrow_and_collateral_share swap_collateral_with_asset extract_liquidation_fees
liquidate_user t rate min_bonus q b = do
  reward ← get_caller_reward t.to_amount q.user rate t.settings b
  (c, amount, part, share) ←
      update_borrow_and_collateral_share t q.user q.max_borrow_part min_bonus rate b
  amount_128 ← checked 128 amount
  elastic ← minus c.total_borrow.elastic amount_128
  part_128 ← checked 128 part
  base ← minus c.total_borrow.base part_128
  (returned, _) ← swap_collateral_with_asset t share q.receive rate true c
  fail_if (ltb returned (t.asset_to_share amount true)) "AmountNotValid"
  (fee, caller) ← extract_liquidation_fees returned (t.asset_to_share amount true) reward
  ok (
    record c {
      total_borrow = record { elastic = elastic; base = base };
      total_collateral_share =
          if ltb share c.total_collateral_share then c.total_collateral_share - share else 0;
    },
    record {
      amount = amount;
      part = part;
      collateral_share = share;
      returned_share = returned;
      caller_share = caller;
      fee_share = fee;
    },
  )

-- The loop of `_closedLiquidation`: the state, and the number of users that were liquidated. The array of
-- the bonuses is the one whose length is not compared.
unfoldable pub closed_loop : Terms → ℕ → List Request → List ℕ → BigBang → Outcome (BigBang × ℕ)
closed_loop t rate [] bonuses b = ok (b, 0)
closed_loop t rate (q ∷ qs) [] b = fail "Panic(0x32)"
closed_loop t rate (q ∷ qs) (bonus ∷ bonuses) b = do
  solvent ← is_solvent t.to_amount q.user rate true b
  c ← if solvent then ok b else (liquidate_user t rate bonus q b >>= λ r. ok r.0)
  (d, count) ← closed_loop t rate qs bonuses c
  ok (d, if solvent then count else count + 1)

unfoldable pub closed_liquidation : Terms → ℕ → List Request → List ℕ → BigBang → Outcome BigBang
unfolding closed_loop
closed_liquidation t rate qs bonuses b = do
  (c, count) ← closed_loop t rate qs bonuses b
  fail_if (count == 0) "BB: no users found"
  ok c

-- The arrays of `liquidate` as requests; their lengths are compared first.
unfoldable pub requests :
    List ℕ → List ℕ → List (List ℕ → ℕ → Outcome ℕ) → List (List ℕ) → List Request
requests (u ∷ us) (p ∷ ps) (r ∷ rs) (x ∷ xs) =
    record { user = u; max_borrow_part = p; receive = r x } ∷ requests us ps rs xs
requests us ps rs xs = []

-- `liquidateBadDebt` after the oracle, the whitelist and the accrual: the state, the debt that is
-- burned and the collateral that is taken
unfoldable pub bad_debt_books : Terms → ℕ → BigBang → Outcome (BigBang × ℕ × ℕ)
bad_debt_books t user b = do
  debt ← t.to_elastic b.total_borrow (b.user_borrow_part user) false
  bonus ← checked 256 (debt * t.settings.liquidation_multiplier)
  with ← checked 256 (debt + bonus / 10 ^ 5)
  product ← checked 256 (with * b.exchange_rate)
  fail_if (b.exchange_rate_precision == 0) "Panic(0x12)"
  fail_if (ltb (t.to_share (product / b.exchange_rate_precision)) (b.user_collateral_share user))
      "ForbiddenAction"
  amount ← t.to_elastic b.total_borrow (b.user_borrow_part user) true
  amount_128 ← checked 128 amount
  elastic ← minus b.total_borrow.elastic amount_128
  part ← checked 128 (b.user_borrow_part user)
  base ← minus b.total_borrow.base part
  total ← minus b.total_collateral_share (b.user_collateral_share user)
  ok (
    record b {
      total_borrow = record { elastic = elastic; base = base };
      total_collateral_share = total;
      user_collateral_share = update b.user_collateral_share user 0;
      user_borrow_part = update b.user_borrow_part user 0;
    },
    amount,
    b.user_collateral_share user,
  )
