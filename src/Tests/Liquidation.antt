-- ===== src/Tests/Liquidation.antt =====
-- A user whose collateral has lost its value: a liquidation, and the calls of a market in a row.
use tapioca_lending_engine.Base.{ℕ, ◌*◌, ◌^◌, ◌≢◌, refl, true, false, some, [], ◌∷◌, ok, arith}
use tapioca_lending_engine.Contracts.BigBang.{BigBang}
use tapioca_lending_engine.Contracts.BigBang.Rate.{accrue}
use tapioca_lending_engine.Contracts.BigBang.Fee.{compute_variable_opening_fee}
use tapioca_lending_engine.Contracts.BigBang.Lending.{borrow, is_solvent}
use tapioca_lending_engine.Contracts.BigBang.Repay.{compute_allowance_amount_in_asset}
use tapioca_lending_engine.Contracts.BigBang.Closing.{compute_closing_factor, get_caller_reward}
use tapioca_lending_engine.Contracts.BigBang.Closing.Factor.{
  compute_closing_factor-IsGreatest, IsClosing,
}
use tapioca_lending_engine.Contracts.BigBang.Closing.Reward.{
  get_caller_reward-IsCallerReward, IsCallerReward,
}
use tapioca_lending_engine.Contracts.BigBang.Liquidation.{
  Terms, Request, Liquidated, liquidate_user, closed_liquidation,
}
use tapioca_lending_engine.Contracts.BigBang.Liquidation.Taken.{
  liquidate_user-IsLiquidation, IsLiquidation,
}
use tapioca_lending_engine.Contracts.BigBang.Entry.{
  Env, borrow_call, remove_collateral_call, add_collateral_call, liquidate_call,
}
use tapioca_lending_engine.Contracts.BigBang.Entry.Safe.{by_removal, Guarded-not_liquidated}
use tapioca_lending_engine.Contracts.BigBang.Keeps.{IsBooked}
use tapioca_lending_engine.Contracts.BigBang.Calls.{
  Calls, none_yet, then_call, by_add_collateral, by_borrow, by_liquidate, Calls-IsBooked,
}
use tapioca_lending_engine.Tests.Data.{value_or}
use tapioca_lending_engine.Tests.Market.{market, add_one_to_one, add_one_to_one-AddsUp}
use tapioca_lending_engine.Tests.Settings.{new_config}

-- User 5 owes 1000 against a collateral of 2000.
abbrev falling : BigBang
falling = record market {
  collateralization_rate = 75_000;
  liquidation_collateralization_rate = 80_000;
}

-- Collateral 1.7 to 1
abbrev fallen_rate : ℕ
fallen_rate = 17 * 10 ^ 17

abbrev terms : Terms
terms = record {
  settings = new_config;
  to_amount = λ n. n;
  to_share = λ n. n;
  asset_to_share = λ n up. n;
  to_elastic = λ t n up. ok n;
  to_base = λ t n up. ok n;
}

abbrev factor : ℕ
unfolding compute_closing_factor
factor = value_or 0 (compute_closing_factor 1000 1176 new_config falling)

compute_closing_factor-IsGreatest_example : IsClosing 1000 940 10_400 factor
unfolding compute_closing_factor factor
compute_closing_factor-IsGreatest_example =
    compute_closing_factor-IsGreatest 1000 1176 new_config falling {f = factor} (omega arith)
      (omega arith) (omega arith) refl

abbrev reward : ℕ
unfolding get_caller_reward
reward = value_or 0 (get_caller_reward (λ n. n) 5 fallen_rate new_config falling)

get_caller_reward-IsCallerReward_example :
    IsCallerReward (λ n. n) 5 fallen_rate new_config falling reward
unfolding get_caller_reward reward
get_caller_reward-IsCallerReward_example =
    get_caller_reward-IsCallerReward (λ n. n) 5 fallen_rate new_config falling {r = reward}
      (omega arith) (omega arith) refl

-- The caller repays no more than 500, and the receiver returns 550.
abbrev request : Request
request = record { user = 5; max_borrow_part = 500; receive = λ n. ok 550 }

abbrev nothing_moved : Liquidated
nothing_moved = record {
  amount = 0;
  part = 0;
  collateral_share = 0;
  returned_share = 0;
  caller_share = 0;
  fee_share = 0;
}

abbrev liquidated : BigBang × Liquidated
unfolding liquidate_user compute_closing_factor get_caller_reward
liquidated = value_or (falling, nothing_moved) (liquidate_user terms fallen_rate 0 request falling)

liquidate_user-IsLiquidation_example : IsLiquidation terms fallen_rate request falling liquidated
unfolding liquidate_user liquidated compute_closing_factor get_caller_reward
liquidate_user-IsLiquidation_example =
    liquidate_user-IsLiquidation terms fallen_rate 0 request falling {r = liquidated} refl

abbrev pub env : Env
env = record {
  now = 100;
  sender = 5;
  self = 77;
  paused = false;
  oracle = some (true, 10 ^ 18);
  main_rate = 0;
  eth_debt = 13_333;
  pearlmit_allowed = 0;
  transfer_fails = false;
  balance = 0;
  decimals = 18;
  terms = terms;
}

-- User 5 takes 500 of the collateral out.
abbrev lighter : BigBang
unfolding remove_collateral_call accrue is_solvent
lighter = value_or falling (remove_collateral_call env 5 5 500 falling)

Guarded-not_liquidated_example :
    closed_liquidation terms (10 ^ 18) (request ∷ request ∷ []) (0 ∷ 0 ∷ []) lighter ≢ ok falling
unfolding remove_collateral_call accrue lighter is_solvent
Guarded-not_liquidated_example =
    Guarded-not_liquidated env 5 {b = falling} {c = lighter} (by_removal 5 500 refl) (omega arith)
      (request ∷ request ∷ []) (0 ∷ 0 ∷ []) (refl, (refl, tt)) {d = falling}

-- User 6 brings collateral and borrows, and user 5 is liquidated after the fall.
abbrev six : Env
six = record env { sender = 6 }

abbrev secured : BigBang
unfolding add_collateral_call
secured = value_or falling (add_collateral_call six 6 6 false 0 900 falling)

abbrev indebted : BigBang
unfolding borrow_call accrue secured add_collateral_call is_solvent compute_variable_opening_fee
    compute_allowance_amount_in_asset borrow
indebted = value_or falling (borrow_call add_one_to_one true (10 ^ 18) six 6 6 400 secured)

abbrev after_fall : BigBang
unfolding liquidate_call compute_closing_factor get_caller_reward indebted accrue secured
    liquidate_user is_solvent compute_variable_opening_fee compute_allowance_amount_in_asset borrow
after_fall = value_or falling (
    liquidate_call (record six { oracle = some (true, fallen_rate) }) (5 ∷ []) (500 ∷ []) (0 ∷ [])
      ((λ bytes n. ok 550) ∷ []) ([] ∷ []) indebted)

calls : Calls (5 ∷ 6 ∷ []) falling after_fall
unfolding liquidate_call compute_closing_factor get_caller_reward indebted accrue secured
    add_collateral_call borrow_call after_fall compute_variable_opening_fee
    compute_allowance_amount_in_asset borrow is_solvent liquidate_user
calls =
    then_call {c = indebted}
      (then_call {c = secured}
        (then_call {c = falling} none_yet (by_add_collateral six 6 6 false 0 900 refl refl))
        (by_borrow add_one_to_one true (10 ^ 18) six 6 6 400 add_one_to_one-AddsUp refl refl))
      (by_liquidate (record six { oracle = some (true, fallen_rate) }) (5 ∷ []) (500 ∷ []) (0 ∷ [])
        ((λ bytes n. ok 550) ∷ []) ([] ∷ []) (refl, tt) refl)

Calls-IsBooked_example : IsBooked (5 ∷ 6 ∷ []) after_fall
Calls-IsBooked_example = Calls-IsBooked (5 ∷ 6 ∷ []) (refl, (refl, tt)) calls (refl, refl)
