-- ===== src/Contracts/BigBang.antt =====
-- The BigBang market: contracts/markets/bigBang (the debt rate, the accrual, the opening fee, loans,
-- collateral and liquidation) and the parts of contracts/markets/Market.sol that these use.
-- Arithmetic that the source checks is checked here.
pub mod Rate
pub mod Accrual
pub mod Both
pub mod Fee
pub mod Lending
pub mod Repay
pub mod Repaid
pub mod Sums
pub mod Books
pub mod Closing
pub mod Liquidation
pub mod Entry
pub mod Keeps
pub mod Booked
pub mod Calls
use tapioca_lending_engine.Base.{
  ◌≡◌, ◌≤◌, ◌<◌, arith, ℕ, ◌-◌, ◌^◌, ltb, Bool, Mapping, Outcome, ok, fail, if◌then◌else◌,
}

-- `Rebase` of boring-solidity: an amount, and the parts that it is divided into
pub record Rebase : Type 0 where
  pub elastic : ℕ
  pub base : ℕ

pub record BigBang : Type 0 where
  pub is_main_market : Bool
  pub min_debt_rate : ℕ
  pub max_debt_rate : ℕ
  pub debt_rate_against_eth_market : ℕ
  pub min_mint_fee : ℕ
  pub max_mint_fee : ℕ
  pub min_mint_fee_start : ℕ
  pub max_mint_fee_start : ℕ
  pub open_interest_debt : ℕ
  pub debt_rate : ℕ
  pub last_accrued : ℕ
  pub total_borrow : Rebase
  pub total_borrow_cap : ℕ
  pub user_borrow_part : Mapping ℕ
  pub allowance : ℕ → Mapping ℕ
  pub allowance_borrow : ℕ → Mapping ℕ
  pub exchange_rate : ℕ
  pub rate_timestamp : ℕ
  pub user_collateral_share : Mapping ℕ
  pub total_collateral_share : ℕ
  pub collateralization_rate : ℕ
  pub liquidation_collateralization_rate : ℕ
  pub exchange_rate_precision : ℕ

-- The collateral of every user, and its sum, are as before.
abbrev pub SameCollateral : BigBang → BigBang → Type 0
SameCollateral b c =
    (c.user_collateral_share ≡ b.user_collateral_share)
    × (c.total_collateral_share ≡ b.total_collateral_share)

-- A value of `w` bits; a larger one reverts, be it a result or a cast.
abbrev pub checked : ℕ → ℕ → Outcome ℕ
checked w n = if ltb n (2 ^ w) then ok n else fail "Panic(0x11)"

-- `a - b`, which reverts below 0
abbrev pub minus : ℕ → ℕ → Outcome ℕ
minus a b = if ltb a b then fail "Panic(0x11)" else ok (a - b)

pub checked_lem : (w n : ℕ) {m : ℕ} → checked w n ≡ ok m → (m ≡ n) × (n < 2 ^ w)
checked_lem w n h = ground arith

pub minus_lem : (a b : ℕ) {c : ℕ} → minus a b ≡ ok c → (b ≤ a) × (c ≡ a - b)
minus_lem a b h = ground arith
