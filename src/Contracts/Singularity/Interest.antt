-- ===== src/Contracts/Singularity/Interest.antt =====
-- `getInterestRate` of contracts/markets/singularity/SGLInterestHelper.sol and `_accrue` of SGLCommon.sol.
-- `to_amount` is YieldBox's `toAmount` of the asset, rounded down.
use tapioca_lending_engine.Base.{
  ℕ, ◌+◌, ◌-◌, ◌*◌, ◌/◌, ◌^◌, ◌==◌, ltb, Outcome, ok, ◌>>=◌, ◌>>◌, fail_if, if◌then◌else◌,
}
use tapioca_lending_engine.Contracts.BigBang.{checked, minus}
use tapioca_lending_engine.Contracts.Singularity.{Singularity}

-- `toAmount(totalAsset.elastic) + totalBorrow.elastic`
unfoldable pub full_asset_amount : (ℕ → ℕ) → Singularity → Outcome ℕ
full_asset_amount to_amount s =
    checked 256 (to_amount s.total_asset.elastic + s.total_borrow.elastic)

unfoldable pub utilization_of : ℕ → Singularity → Outcome ℕ
utilization_of full s =
    if full == 0
    then ok 0
    else (checked 256 (s.total_borrow.elastic * 10 ^ 18) >>= λ product. ok (product / full))

-- The interest falls where the utilization is below the target, and not below the smallest rate.
unfoldable pub lowered_interest : ℕ → ℕ → Singularity → Outcome ℕ
lowered_interest utilization elapsed s = do
  product ← checked 256 ((s.minimum_target_utilization - utilization) * 10 ^ 18)
  let under = product / s.minimum_target_utilization
  square ← checked 256 (under * under * elapsed)
  scale ← checked 256 (s.interest_elasticity + square)
  scaled ← checked 256 (s.interest_per_second * s.interest_elasticity)
  fail_if (scale == 0) "Panic(0x12)"
  rate ← checked 64 (scaled / scale)
  ok (if ltb rate s.minimum_interest_per_second then s.minimum_interest_per_second else rate)

-- It rises where the utilization is above the target, and not above the greatest rate.
unfoldable pub raised_interest : ℕ → ℕ → Singularity → Outcome ℕ
raised_interest utilization elapsed s = do
  product ← checked 256 ((utilization - s.maximum_target_utilization) * 10 ^ 18)
  range ← minus (10 ^ 18) s.maximum_target_utilization
  fail_if (range == 0) "Panic(0x12)"
  let over = product / range
  square ← checked 256 (over * over * elapsed)
  scale ← checked 256 (s.interest_elasticity + square)
  scaled ← checked 256 (s.interest_per_second * scale)
  fail_if (s.interest_elasticity == 0) "Panic(0x12)"
  let rate = scaled / s.interest_elasticity
  checked 64
      (if ltb s.maximum_interest_per_second rate then s.maximum_interest_per_second else rate)

unfoldable pub next_interest : ℕ → ℕ → Singularity → Outcome ℕ
unfolding lowered_interest raised_interest
next_interest utilization elapsed s =
    if ltb utilization s.minimum_target_utilization
    then lowered_interest utilization elapsed s
    else (if ltb s.maximum_target_utilization utilization
        then raised_interest utilization elapsed s
        else ok s.interest_per_second)

-- The interest of the time that passed: it is added to the debt, and the protocol's share of it becomes
-- fractions of the lenders' side.
unfoldable pub add_interest : (ℕ → ℕ) → ℕ → Singularity → Outcome Singularity
unfolding full_asset_amount
add_interest to_amount elapsed s = do
  product ← checked 256 (s.total_borrow.elastic * s.interest_per_second * elapsed)
  extra ← checked 128 (product / 10 ^ 18)
  elastic ← checked 128 (s.total_borrow.elastic + extra)
  full ←
      full_asset_amount to_amount
        (record s { total_borrow = record { elastic = elastic; base = s.total_borrow.base } })
  fee_product ← checked 256 (product / 10 ^ 18 * s.protocol_fee)
  fraction_product ← checked 256 (fee_product / 10 ^ 5 * s.total_asset.base)
  rest ← minus full (fee_product / 10 ^ 5)
  fail_if (rest == 0) "Panic(0x12)"
  fraction ← checked 128 (fraction_product / rest)
  fees ← checked 128 (s.fees_earned_fraction + fraction)
  base ← checked 128 (s.total_asset.base + fraction)
  ok (record s {
    total_borrow = record { elastic = elastic; base = s.total_borrow.base };
    fees_earned_fraction = fees;
    total_asset = record { elastic = s.total_asset.elastic; base = base };
  })

-- The accrual of a market with a debt
unfoldable pub accrue_debt : (ℕ → ℕ) → ℕ → Singularity → Outcome Singularity
unfolding add_interest utilization_of next_interest full_asset_amount
accrue_debt to_amount elapsed s = do
  t ← add_interest to_amount elapsed s
  full ← full_asset_amount to_amount t
  utilization ← utilization_of full t
  rate ← next_interest utilization elapsed t
  ok (record t { interest_per_second = rate })

-- `_accrue`, which stores what `getInterestRate` returns
unfoldable pub accrue : (ℕ → ℕ) → ℕ → Singularity → Outcome Singularity
unfolding accrue_debt full_asset_amount utilization_of
accrue to_amount now s = do
  full ← full_asset_amount to_amount s
  _ ← utilization_of full s
  elapsed ← minus now s.last_accrued
  if elapsed == 0 then ok s else do
    last ← checked 64 now
    if s.total_borrow.base == 0
        then ok
            (record s { last_accrued = last; interest_per_second = s.starting_interest_per_second })
        else accrue_debt to_amount elapsed (record s { last_accrued = last })
