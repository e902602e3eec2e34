-- ===== src/Contracts/BigBang/Rate.antt =====
-- `getDebtRate`, `_accrueView` and `_accrue` of contracts/markets/bigBang/BBCommon.sol. `main_rate` is
-- Penrose's `bigBangEthDebtRate()` and `eth_debt` the main market's `getTotalDebt()` at that point.
use tapioca_lending_engine.Base.{
  ℕ, ◌+◌, ◌-◌, ◌*◌, ◌/◌, ◌^◌, ◌==◌, ltb, leb, Bool, Outcome, ok, ◌>>=◌, ◌>>◌, fail_if,
  if◌then◌else◌,
}
use tapioca_lending_engine.Contracts.BigBang.{BigBang, Rebase, checked, minus}

-- The rate below the point where it is greatest
unfoldable pub sloped_rate : ℕ → BigBang → Outcome ℕ
sloped_rate max_debt_point b = do
  scaled ← checked 256 (b.total_borrow.elastic * 10 ^ 18)
  range ← minus b.max_debt_rate b.min_debt_rate
  rise ← checked 256 (range * (scaled / max_debt_point))
  debt ← checked 256 (rise / 10 ^ 18 + b.min_debt_rate)
  ok (if ltb b.max_debt_rate debt then b.max_debt_rate else debt)

unfoldable pub relative_rate : ℕ → BigBang → Outcome ℕ
unfolding sloped_rate
relative_rate eth_debt b = do
  product ← checked 256 (eth_debt * b.debt_rate_against_eth_market)
  if leb (product / 10 ^ 18) b.total_borrow.elastic
      then ok b.max_debt_rate
      else sloped_rate (product / 10 ^ 18) b

unfoldable pub get_debt_rate : ℕ → ℕ → BigBang → Outcome ℕ
unfolding relative_rate
get_debt_rate main_rate eth_debt b =
    if b.is_main_market
    then ok main_rate
    else (if b.total_borrow.elastic == 0 then ok b.min_debt_rate else relative_rate eth_debt b)

-- `extraAmount` at a rate per second, capped so that the debt stays within 128 bits
unfoldable pub extra_amount : ℕ → ℕ → BigBang → Outcome ℕ
extra_amount per_second elapsed b = do
  product ← checked 256 (b.total_borrow.elastic * per_second * elapsed)
  max ← minus (2 ^ 128 - 1) b.total_borrow.elastic
  ok (if ltb max (product / 10 ^ 18) then max else product / 10 ^ 18)

unfoldable pub accrue_view_since : ℕ → ℕ → ℕ → BigBang → Outcome Rebase
unfolding get_debt_rate extra_amount
accrue_view_since main_rate eth_debt elapsed b = do
  rate ← get_debt_rate main_rate eth_debt b
  extra ← extra_amount (rate / 31_557_600) elapsed b
  ok (record { elastic = b.total_borrow.elastic + extra; base = b.total_borrow.base })

unfoldable pub accrue_view : ℕ → ℕ → ℕ → BigBang → Outcome Rebase
unfolding accrue_view_since
accrue_view main_rate eth_debt now b = do
  elapsed ← minus now b.last_accrued
  if elapsed == 0 then ok b.total_borrow else accrue_view_since main_rate eth_debt elapsed b

unfoldable pub accrue_since : ℕ → ℕ → ℕ → ℕ → BigBang → Outcome BigBang
unfolding get_debt_rate extra_amount
accrue_since main_rate eth_debt now elapsed b = do
  rate ← get_debt_rate main_rate eth_debt b
  per_second ← checked 64 (rate / 31_557_600)
  last ← checked 64 now
  extra ← extra_amount per_second elapsed b
  debt ← checked 256 (b.open_interest_debt + extra)
  ok (record b {
    debt_rate = per_second;
    last_accrued = last;
    open_interest_debt = debt;
    total_borrow = record { elastic = b.total_borrow.elastic + extra; base = b.total_borrow.base };
  })

-- The part of `_accrue` after the main market's accrual. `eth_debt` is the debt that this leaves.
unfoldable pub accrue : ℕ → ℕ → ℕ → BigBang → Outcome BigBang
unfolding accrue_since
accrue main_rate eth_debt now b = do
  elapsed ← minus now b.last_accrued
  if elapsed == 0 then ok b else accrue_since main_rate eth_debt now elapsed b

-- `_accrue` of a market that is not the main one: the main market's `accrue` comes first, and reverts where
-- `accrual_paused`, then the part above reads the debt that it has left.
unfoldable pub accrue_both : ℕ → Bool → ℕ → BigBang → BigBang → Outcome (BigBang × BigBang)
unfolding accrue
accrue_both main_rate accrual_paused now main b = do
  fail_if accrual_paused "AccruePaused"
  main' ← accrue main_rate main.total_borrow.elastic now main
  b' ← accrue main_rate main'.total_borrow.elastic now b
  ok (main', b')
