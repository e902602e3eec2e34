-- ===== src/Contracts/Singularity.antt =====
-- The lenders' side of a Singularity market: contracts/markets/singularity. The interest and its
-- accrual (SGLInterestHelper.sol, SGLCommon.sol), the assets (Singularity.sol), the books of a borrow
-- and of a repayment (SGLLendingCommon.sol) and the transfers of contracts/markets/MarketERC20.sol.
-- Arithmetic that the source checks is checked here.
pub mod Interest
pub mod Bounds
pub mod Accrual
pub mod Assets
pub mod Shares
pub mod Lenders
pub mod Steps
use tapioca_lending_engine.Base.{ℕ, Mapping}
use tapioca_lending_engine.Contracts.BigBang.{Rebase}

-- `accrueInfo` is the first three fields; `total_asset` has the shares in YieldBox and the fractions of
-- the lenders, which are the market's token.
pub record Singularity : Type 0 where
  pub interest_per_second : ℕ
  pub last_accrued : ℕ
  pub fees_earned_fraction : ℕ
  pub total_asset : Rebase
  pub total_borrow : Rebase
  pub total_borrow_cap : ℕ
  pub user_borrow_part : Mapping ℕ
  pub balance_of : Mapping ℕ
  pub allowance : ℕ → Mapping ℕ
  pub minimum_target_utilization : ℕ
  pub maximum_target_utilization : ℕ
  pub minimum_interest_per_second : ℕ
  pub maximum_interest_per_second : ℕ
  pub interest_elasticity : ℕ
  pub starting_interest_per_second : ℕ
  pub borrow_opening_fee : ℕ
  pub protocol_fee : ℕ
  pub penrose : ℕ
