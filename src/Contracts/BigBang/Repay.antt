-- ===== src/Contracts/BigBang/Repay.antt =====
-- `_repay` of contracts/markets/bigBang/BBLendingCommon.sol, with the allowance that a caller who repays from
-- another account needs: `_computeAllowanceAmountInAsset` and `_allowedLend` of contracts/markets/Market.sol.
-- `sub` is `RebaseLibrary.sub`; `pearlmit_allowed` is 0 unless the cluster has whitelisted the caller, and
-- else what Pearlmit answers.
use tapioca_lending_engine.Base.{
  ℕ, ◌+◌, ◌-◌, ◌*◌, ◌/◌, ◌^◌, ◌==◌, ltb, leb, Bool, true, not, ◌&&◌, ◌||◌, Outcome, ok, ◌>>=◌, ◌>>◌,
  fail_if, update, if◌then◌else◌,
}
use tapioca_lending_engine.Contracts.BigBang.{BigBang, Rebase, checked, minus}

unfoldable pub get_ratio : ℕ → ℕ → ℕ → Outcome ℕ
get_ratio numerator denominator precision = if numerator == 0 || denominator == 0 then ok 0 else (do
  scale ← checked 256 (10 ^ (precision + 1))
  n ← checked 256 (numerator * scale)
  sum ← checked 256 (n / denominator + 5)
  ok (sum / 10))

unfoldable pub compute_max_borrowable_amount : (ℕ → ℕ) → ℕ → ℕ → BigBang → Outcome ℕ
compute_max_borrowable_amount to_amount user rate b = do
  fail_if (rate == 0) "Market: exchangeRate not valid"
  scaled ←
      checked 256 (to_amount (b.user_collateral_share user) * (b.exchange_rate_precision / 10 ^ 5))
  value ← checked 256 (scaled * b.collateralization_rate)
  ok (value / rate)

unfoldable pub compute_allowance_amount_in_asset : (ℕ → ℕ) → ℕ → ℕ → ℕ → ℕ → BigBang → Outcome ℕ
unfolding get_ratio compute_max_borrowable_amount
compute_allowance_amount_in_asset to_amount user rate borrow_amount decimals b = do
  max ← compute_max_borrowable_amount to_amount user rate b
  ratio ← get_ratio borrow_amount max decimals
  product ← checked 256 (ratio * b.user_collateral_share user)
  scale ← checked 256 (10 ^ decimals)
  ok (product / scale)

-- The allowance that is left: the greatest one is not used up.
abbrev pub spend : ℕ → ℕ → ℕ
spend allowed share = if allowed == 2 ^ 256 - 1 then allowed else allowed - share

unfoldable pub allowed_lend : ℕ → ℕ → ℕ → ℕ → BigBang → Outcome BigBang
allowed_lend pearlmit_allowed sender from share b =
    if from == sender
    then ok b
    else (fail_if (share == 0) "AllowanceNotValid"
        >> (fail_if (not (leb share (b.allowance from sender) || leb share pearlmit_allowed))
              "Market: not approved"
            >> ok (
                if leb share pearlmit_allowed then b else record b {
                  allowance = λ f s.
                      if f == from && s == sender
                      then spend (b.allowance f s) share
                      else b.allowance f s;
                })))

-- The block of `_repay` for a caller who is not `from`
unfoldable pub use_allowance :
    (Rebase → ℕ → Bool → Outcome (Rebase × ℕ))
    → (ℕ → ℕ)
    → ℕ
    → ℕ
    → ℕ
    → ℕ
    → ℕ
    → ℕ
    → BigBang
    → Outcome BigBang
unfolding compute_allowance_amount_in_asset allowed_lend
use_allowance sub to_amount decimals pearlmit_allowed sender from to part b = do
  r ← sub b.total_borrow part true
  share ← compute_allowance_amount_in_asset to_amount to b.exchange_rate r.1 decimals b
  fail_if (share == 0) "NotEnough"
  allowed_lend pearlmit_allowed sender from share b

-- The part that is repaid, no more than there is
abbrev pub repaid_part : ℕ → ℕ → BigBang → ℕ
repaid_part to part b = if ltb (b.user_borrow_part to) part then b.user_borrow_part to else part

-- The new state, and the amount that is taken from `from` and burned.
unfoldable pub repay :
    (Rebase → ℕ → Bool → Outcome (Rebase × ℕ))
    → (ℕ → ℕ)
    → ℕ
    → ℕ
    → Bool
    → ℕ
    → ℕ
    → ℕ
    → ℕ
    → BigBang
    → Outcome (BigBang × ℕ)
unfolding use_allowance
repay sub to_amount decimals pearlmit_allowed check_allowance sender from to part b = do
  fail_if (repaid_part to part b == 0) "NothingToRepay"
  b' ←
      if check_allowance && not (sender == from)
      then use_allowance sub to_amount decimals pearlmit_allowed sender from to
          (repaid_part to part b) b
      else ok b
  r ← sub b'.total_borrow (repaid_part to part b) true
  left ← minus (b'.user_borrow_part to) (repaid_part to part b)
  ok (record b' { total_borrow = r.0; user_borrow_part = update b'.user_borrow_part to left }, r.1)
