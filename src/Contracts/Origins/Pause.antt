-- ===== src/Contracts/Origins/Pause.antt =====
-- `PauseType` of contracts/markets/Market.sol.
use tapioca_lending_engine.Base.{ℕ, ◌==◌, Bool, true, false}

pub data PauseType : Type 0 where
  borrow repay add_collateral remove_collateral liquidation leverage_buy leverage_sell : PauseType
  add_asset remove_asset : PauseType

abbrev type_number : PauseType → ℕ
type_number borrow = 0
type_number repay = 1
type_number add_collateral = 2
type_number remove_collateral = 3
type_number liquidation = 4
type_number leverage_buy = 5
type_number leverage_sell = 6
type_number add_asset = 7
type_number remove_asset = 8

abbrev pub same_type : PauseType → PauseType → Bool
same_type a b = type_number a == type_number b

-- The types that `updatePauseAll` of Origins.sol sets
abbrev pub in_all : PauseType → Bool
in_all add_asset = false
in_all remove_asset = false
in_all _ = true
