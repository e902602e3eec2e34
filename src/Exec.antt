-- ===== src/Exec.antt =====
-- tasks/exec: the tasks that have Penrose call one function of a market (01, 02 and 04 to 09). An answer of
-- the user is a value; `encode` is `encodeFunctionData` of ethers, given the artifact of `getContractAt`,
-- the function and its arguments.
use tapioca_lending_engine.Base.{ℕ, String, false, true, Outcome, ok, ◌>>=◌}
use tapioca_lending_engine.Sdk.{Call, Value, Values, addr, num, flag, seq, encoded, nil, ◌⸴◌}

-- The answers of `setMarketConfig__task`
pub record MarketAnswers : Type 0 where
  pub oracle : Value
  pub oracle_data : Value
  pub conservator : Value
  pub protocol_fee : Value
  pub liquidation_bonus_amount : Value
  pub min_liquidator_reward : Value
  pub max_liquidator_reward : Value
  pub total_borrow_cap : Value
  pub collateralization_rate : Value
  pub liquidation_collateralization_rate : Value

-- The answers of `setSingularityConfig__task`
pub record SingularityAnswers : Type 0 where
  pub borrow_opening_fee : Value
  pub lq_collateralization_rate : Value
  pub liquidation_multiplier : Value
  pub minimum_target_utilization : Value
  pub maximum_target_utilization : Value
  pub minimum_interest_per_second : Value
  pub maximum_interest_per_second : Value
  pub interest_elasticity : Value

module _ (encode : String → String → Values → Outcome Value) (penrose market : ℕ) where
  -- `penrose.executeMarketFn([market.address], [callData], true)`
  abbrev execute : String → String → Values → Outcome Call
  execute artifact fn args = do
    data_sent ← encode artifact fn args
    ok (record {
      target = penrose;
      allow_failure = false;
      call_data =
          encoded "executeMarketFn"
            (seq (addr market ⸴ nil) ⸴ seq (data_sent ⸴ nil) ⸴ flag true ⸴ nil);
    })

  unfoldable pub market_update_pause : Value → Value → Outcome Call
  market_update_pause ty status = execute "Market" "updatePause" (ty ⸴ status ⸴ nil)

  unfoldable pub set_leverage_executor : Value → Outcome Call
  set_leverage_executor executor = execute "Market" "setLeverageExecutor" (executor ⸴ nil)

  unfoldable pub set_market_config_task : MarketAnswers → Outcome Call
  set_market_config_task a = execute "Market" "setMarketConfig" (
      a.oracle
      ⸴ a.oracle_data
      ⸴ a.conservator
      ⸴ num 0
      ⸴ a.protocol_fee
      ⸴ a.liquidation_bonus_amount
      ⸴ a.min_liquidator_reward
      ⸴ a.max_liquidator_reward
      ⸴ a.total_borrow_cap
      ⸴ a.collateralization_rate
      ⸴ a.liquidation_collateralization_rate
      ⸴ nil)

  unfoldable pub set_singularity_config : SingularityAnswers → Outcome Call
  set_singularity_config a = execute "Singularity" "setSingularityConfig" (
      a.borrow_opening_fee ⸴ a.lq_collateralization_rate ⸴ a.liquidation_multiplier
      ⸴ a.minimum_target_utilization ⸴ a.maximum_target_utilization ⸴ a.minimum_interest_per_second
      ⸴ a.maximum_interest_per_second ⸴ a.interest_elasticity ⸴ nil)

  unfoldable pub set_min_and_max_mint_range : Value → Value → Outcome Call
  set_min_and_max_mint_range start end_value =
      execute "BigBang" "setMinAndMaxMintRange" (start ⸴ end_value ⸴ nil)

  unfoldable pub set_min_and_max_mint_fee : Value → Value → Outcome Call
  set_min_and_max_mint_fee min max = execute "BigBang" "setMinAndMaxMintFee" (min ⸴ max ⸴ nil)

  unfoldable pub set_asset_oracle : Value → Value → Outcome Call
  set_asset_oracle oracle oracle_data =
      execute "BigBang" "setAssetOracle" (oracle ⸴ oracle_data ⸴ nil)

  unfoldable pub set_big_bang_config : Value → Value → Value → Value → Outcome Call
  set_big_bang_config min_debt_rate max_debt_rate debt_rate_against_eth_market
        liquidation_multiplier =
      execute "BigBang" "setBigBangConfig" (
        min_debt_rate ⸴ max_debt_rate ⸴ debt_rate_against_eth_market ⸴ liquidation_multiplier ⸴ nil)
