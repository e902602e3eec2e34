-- ===== src/Tests/Settings.antt =====
-- A market's settings after `init`, and a change of them.
use tapioca_lending_engine.Base.{refl, [], arith}
use tapioca_lending_engine.Contracts.MarketConfig.{
  MarketConfig, set_market_config, InOrder, set_market_config-InOrder,
}
use tapioca_lending_engine.Tests.Data.{value_or}

abbrev pub new_config : MarketConfig
new_config = record {
  owner = 9;
  oracle = 2;
  oracle_data = [];
  conservator = 9;
  protocol_fee = 10_000;
  liquidation_bonus_amount = 10_000;
  min_liquidator_reward = 80_000;
  max_liquidator_reward = 90_000;
  total_borrow_cap = 0;
  collateralization_rate = 75_000;
  liquidation_collateralization_rate = 80_000;
  liquidation_multiplier = 12_000;
  max_liquidation_slippage = 1000;
}

-- A cap of 500, and the rates 78 % and 85 %
abbrev changed : MarketConfig
unfolding set_market_config
changed = value_or new_config (set_market_config 9 0 [] 0 0 0 0 0 500 78_000 85_000 new_config)

set_market_config-InOrder_example : InOrder changed
unfolding set_market_config changed
set_market_config-InOrder_example =
    set_market_config-InOrder 9 0 [] 0 0 0 0 0 500 78_000 85_000 new_config {d = changed}
      (omega arith, omega arith, omega arith, omega arith, omega arith, omega arith, omega arith)
      refl
