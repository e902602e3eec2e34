-- ===== src/Contracts/BigBang/Entry.antt =====
-- The functions of contracts/markets/bigBang/BBBorrow.sol, BBCollateral.sol and BBLiquidation.sol that users
-- call, with the modifiers, the oracle's rate and the allowance of contracts/markets/Market.sol. What other
-- contracts answer during a call stands in `Env`: Penrose's reAccrueBigBangMarkets changes other markets
-- alone. Transfers of tokens are left out.
pub mod Safe
use tapioca_lending_engine.Base.{
  ℕ, ◌+◌, ◌-◌, ◌*◌, ◌/◌, ◌^◌, ◌==◌, ltb, leb, Bool, true, false, not, ◌&&◌, ◌||◌, Option, some,
  none, List, [], ◌∷◌, Outcome, ok, fail, ◌>>=◌, ◌>>◌, fail_if, length, update, if◌then◌else◌,
}
use tapioca_lending_engine.Contracts.BigBang.{BigBang, Rebase, checked, minus}
use tapioca_lending_engine.Contracts.BigBang.Rate.{accrue}
use tapioca_lending_engine.Contracts.BigBang.Fee.{compute_variable_opening_fee}
use tapioca_lending_engine.Contracts.BigBang.Lending.{borrow, is_solvent}
use tapioca_lending_engine.Contracts.BigBang.Repay.{compute_allowance_amount_in_asset, repay, spend}
use tapioca_lending_engine.Contracts.BigBang.Liquidation.{
  Terms, requests, closed_liquidation, bad_debt_books, swap_collateral_with_asset,
}

-- A call: its block and sender, this contract, whether the option is paused, what the oracle answers
-- (`none` is a call that reverts), what Pearlmit allows the sender (0 unless the cluster has
-- whitelisted it) and whether its transfer fails, YieldBox's balance of this contract, and the
-- conversions with the settings. `eth_debt` is the main market's debt once its accrual, which comes first,
-- is done (`accrue_both`).
pub record Env : Type 0 where
  pub now : ℕ
  pub sender : ℕ
  pub self : ℕ
  pub paused : Bool
  pub oracle : Option (Bool × ℕ)
  pub main_rate : ℕ
  pub eth_debt : ℕ
  pub pearlmit_allowed : ℕ
  pub transfer_fails : Bool
  pub balance : ℕ
  pub decimals : ℕ
  pub terms : Terms

-- `updateExchangeRate`
unfoldable pub update_exchange_rate : Option (Bool × ℕ) → ℕ → BigBang → Outcome BigBang
update_exchange_rate none now b = fail "oracle"
update_exchange_rate (some (updated, rate)) now b = do
  fail_if (not updated) "Market: rate too old"
  fail_if (rate == 0) "Market: invalid rate"
  ok (record b { exchange_rate = rate; rate_timestamp = now })

-- `_tryUpdateOracleRate`, where a rate that is not new leaves the one that is stored
unfoldable pub try_update_oracle_rate : Option (Bool × ℕ) → ℕ → BigBang → Outcome BigBang
try_update_oracle_rate none now b = do fail_if (b.exchange_rate == 0) "ExchangeRateNotValid"; ok b
try_update_oracle_rate (some (updated, rate)) now b =
    if updated && ltb 0 rate
    then ok (record b { exchange_rate = rate; rate_timestamp = now })
    else (fail_if (b.exchange_rate == 0) "ExchangeRateNotValid" >> ok b)

unfoldable pub allowed_borrow : ℕ → ℕ → ℕ → ℕ → BigBang → Outcome BigBang
allowed_borrow pearlmit_allowed sender from share b =
    if from == sender
    then ok b
    else (fail_if (share == 0) "AllowanceNotValid"
        >> (fail_if (not (leb share (b.allowance_borrow from sender) || leb share pearlmit_allowed))
              "Market: not approved"
            >> ok (
                if leb share pearlmit_allowed then b else record b {
                  allowance_borrow = λ f s.
                      if f == from && s == sender
                      then spend (b.allowance_borrow f s) share
                      else b.allowance_borrow f s;
                })))

-- The modifier `solvent`: the rate and the accrual before the body, the test after it
unfoldable pub solvent : Env → ℕ → (BigBang → Outcome BigBang) → BigBang → Outcome BigBang
unfolding update_exchange_rate
solvent env from body b = do
  b1 ← update_exchange_rate env.oracle env.now b
  b2 ← accrue env.main_rate env.eth_debt env.now b1
  b3 ← body b2
  is_safe ← is_solvent env.terms.to_amount from b3.exchange_rate false b3
  fail_if (not is_safe) "Market: insolvent"
  ok b3

-- `_addTokens`
unfoldable pub add_tokens : Env → ℕ → ℕ → Bool → Outcome (Unit {0})
add_tokens env share total skim =
    if skim
    then (minus env.balance total >>= λ free. fail_if (ltb free share) "BB: too much")
    else fail_if env.transfer_fails "TransferFailed"

-- `share == 0 ? toShare(amount) : share`
abbrev pub share_or : (ℕ → ℕ) → ℕ → ℕ → ℕ
share_or to_share amount share = if share == 0 then to_share amount else share

-- `_addCollateral`
unfoldable pub add_collateral : Env → ℕ → Bool → ℕ → ℕ → Bool → BigBang → Outcome BigBang
unfolding add_tokens
add_collateral env to skim amount share adds_tokens b = do
  let added = share_or env.terms.to_share amount share
  mine ← checked 256 (b.user_collateral_share to + added)
  total ← checked 256 (b.total_collateral_share + added)
  if adds_tokens then add_tokens env added b.total_collateral_share skim else ok tt
  ok (record b {
    user_collateral_share = update b.user_collateral_share to mine;
    total_collateral_share = total;
  })

-- `_removeCollateral`
unfoldable pub remove_collateral : ℕ → ℕ → BigBang → Outcome BigBang
remove_collateral from share b = do
  mine ← minus (b.user_collateral_share from) share
  total ← minus b.total_collateral_share share
  ok (record b {
    user_collateral_share = update b.user_collateral_share from mine;
    total_collateral_share = total;
  })

-- `addCollateral`
unfoldable pub add_collateral_call : Env → ℕ → ℕ → Bool → ℕ → ℕ → BigBang → Outcome BigBang
unfolding allowed_borrow add_collateral
add_collateral_call env from to skim amount share b = do
  fail_if (to == env.self) "Market: cannot execute on itself"
  fail_if env.paused "Market: paused"
  let added = share_or env.terms.to_share amount share
  b1 ← allowed_borrow env.pearlmit_allowed env.sender from added b
  add_collateral env to skim amount added true b1

-- `removeCollateral`
unfoldable pub remove_collateral_call : Env → ℕ → ℕ → ℕ → BigBang → Outcome BigBang
unfolding solvent allowed_borrow remove_collateral
remove_collateral_call env from to share b = do
  fail_if env.paused "Market: paused"
  solvent env from
      (λ b1.
        fail_if (to == env.self) "Market: cannot execute on itself"
        >> (allowed_borrow env.pearlmit_allowed env.sender from share b1
            >>= remove_collateral from share))
      b

-- The body of `borrow`, without its modifiers. `updated` and `rate` are what the oracle of USDO's price
-- answers.
unfoldable pub borrow_body :
    (Rebase → ℕ → Bool → Outcome (Rebase × ℕ)) → Bool → ℕ → Env → ℕ → ℕ → BigBang → Outcome BigBang
unfolding allowed_borrow
borrow_body add updated rate env from amount b = if amount == 0 then ok b else do
  fee ← compute_variable_opening_fee updated rate amount b
  sum ← checked 256 (amount + fee)
  share ←
      compute_allowance_amount_in_asset env.terms.to_amount from b.exchange_rate sum env.decimals b
  b1 ← allowed_borrow env.pearlmit_allowed env.sender from share b
  r ← borrow add from amount fee b1
  ok r.0

-- `borrow`
unfoldable pub borrow_call :
    (Rebase → ℕ → Bool → Outcome (Rebase × ℕ))
    → Bool
    → ℕ
    → Env
    → ℕ
    → ℕ
    → ℕ
    → BigBang
    → Outcome BigBang
unfolding solvent borrow_body
borrow_call add updated rate env from to amount b = do
  fail_if env.paused "Market: paused"
  fail_if (to == env.self) "Market: cannot execute on itself"
  solvent env from (borrow_body add updated rate env from amount) b

-- `repay`
unfoldable pub repay_call :
    (Rebase → ℕ → Bool → Outcome (Rebase × ℕ)) → Env → ℕ → ℕ → ℕ → BigBang → Outcome (BigBang × ℕ)
unfolding try_update_oracle_rate
repay_call sub env from to part b = do
  fail_if env.paused "Market: paused"
  fail_if (to == env.self) "Market: cannot execute on itself"
  b1 ← try_update_oracle_rate env.oracle env.now b
  b2 ← accrue env.main_rate env.eth_debt env.now b1
  repay sub env.terms.to_amount env.decimals env.pearlmit_allowed true env.sender from to part b2

-- `liquidate`
unfoldable pub liquidate_call :
    Env
    → List ℕ
    → List ℕ
    → List ℕ
    → List (List ℕ → ℕ → Outcome ℕ)
    → List (List ℕ)
    → BigBang
    → Outcome BigBang
unfolding try_update_oracle_rate closed_liquidation requests
liquidate_call env users max_parts bonuses receivers datas b = do
  fail_if env.paused "Market: paused"
  fail_if (length users == 0) "NothingToLiquidate"
  fail_if (not (length users == length max_parts)) "LengthMismatch"
  fail_if (not (length users == length receivers)) "LengthMismatch"
  fail_if (not (length datas == length receivers)) "LengthMismatch"
  b1 ← try_update_oracle_rate env.oracle env.now b
  b2 ← accrue env.main_rate env.eth_debt env.now b1
  closed_liquidation env.terms b2.exchange_rate (requests users max_parts receivers datas) bonuses
      b2

-- `liquidateBadDebt`; `whitelisted` is the cluster's answer for the account whose USDO is burned.
unfoldable pub liquidate_bad_debt_call :
    Env → Bool → ℕ → (ℕ → Outcome ℕ) → Bool → BigBang → Outcome (BigBang × ℕ)
unfolding try_update_oracle_rate bad_debt_books swap_collateral_with_asset
liquidate_bad_debt_call env whitelisted user receive swaps b = do
  fail_if (not (env.sender == env.terms.settings.owner)) "Ownable: caller is not the owner"
  b1 ← try_update_oracle_rate env.oracle env.now b
  fail_if (not whitelisted) "NotAuthorized"
  b2 ← accrue env.main_rate env.eth_debt env.now b1
  (b3, amount, share) ← bad_debt_books env.terms user b2
  _ ← if swaps then swap_collateral_with_asset env.terms share receive 0 false b3 else ok (0, 0)
  ok (b3, amount)
