-- ===== src/Deploy/Final.antt =====
-- The final phase (tasks/deploy/2-deployFinal.ts): one call of Penrose that sets USDO's oracle in the
-- BigBang markets.
use tapioca_lending_engine.Base.{ℕ, String, false, true, List, [], ◌∷◌, Outcome, ok, ◌>>=◌}
use tapioca_lending_engine.Sdk.{
  Hre, Call, Value, addr, flag, text, seq, encoded, nil, ◌⸴◌, usdo_usdc_uni_v3_oracle,
}
use tapioca_lending_engine.Deploy.Names
use tapioca_lending_engine.Deploy.Loads.{global_address}
use tapioca_lending_engine.Deploy.Task2.{local_address}

-- `addBBSetConfig`: the market and the call that sets its oracle
abbrev add_bb_set_config : Hre → ℕ → String → Outcome (ℕ × Value)
add_bb_set_config hre oracle market = do
  bb ← local_address hre market
  ok (bb, encoded "setAssetOracle" (addr oracle ⸴ text "0x" ⸴ nil))

unfoldable post_deploy_task_final : Hre → Outcome (List Call)
post_deploy_task_final hre = do
  penrose ← local_address hre Names.penrose
  oracle ← global_address hre usdo_usdc_uni_v3_oracle
  mt_eth ← add_bb_set_config hre oracle Names.bb_mt_eth_market
  t_reth ← add_bb_set_config hre oracle Names.bb_t_reth_market
  t_wst_eth ← add_bb_set_config hre oracle Names.bb_t_wst_eth_market
  ok (
      record {
        target = penrose;
        allow_failure = false;
        call_data = encoded "executeMarketFn" (
            seq (addr mt_eth.0 ⸴ addr t_reth.0 ⸴ addr t_wst_eth.0 ⸴ nil)
            ⸴ seq (mt_eth.1 ⸴ t_reth.1 ⸴ t_wst_eth.1 ⸴ nil)
            ⸴ flag true
            ⸴ nil);
      }
      ∷ [])
