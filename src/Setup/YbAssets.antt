-- ===== src/Setup/YbAssets.antt =====
-- `setupCreateYBAssets` of tasks/deploy/postDepSetup/setupCreateYBAssets.ts: the markets' collaterals as
-- assets of YieldBox.
use tapioca_lending_engine.Base.{ℕ, String, List, [], ◌∷◌, ◌++◌, Outcome, ok, ◌>>=◌, if◌then◌else◌}
use tapioca_lending_engine.Sdk.{addr, num, nil, ◌⸴◌, Hre, Deployed}
use tapioca_lending_engine.Deploy.Names
use tapioca_lending_engine.Deploy.Loads.{
  is_arbitrum, is_ethereum, load_deployments_generic, load_deployments_eth, load_deployments_arb,
}
use tapioca_lending_engine.Setup.Item.{Item, has_asset}
use tapioca_lending_engine.Setup.Register.{find_address, call}

unfoldable pub add_new_asset : ℕ → List Deployed → ℕ → String → Outcome Item
unfolding find_address
add_new_asset yield_box deployed asset strategy_dep_name = do
  strategy ← find_address deployed strategy_dep_name
  ok (record {
    goal = has_asset yield_box asset strategy;
    calls = call yield_box "registerAsset" (num 1 ⸴ addr asset ⸴ addr strategy ⸴ num 0 ⸴ nil) ∷ [];
  })

-- The assets on Ethereum and the test networks that have sDAI
unfoldable pub create_eth_assets : Hre → ℕ → List Deployed → Outcome (List Item)
unfolding load_deployments_eth add_new_asset
create_eth_assets hre yield_box deployed = do
  d ← load_deployments_eth hre
  sdai ← add_new_asset yield_box deployed d.tsdai (
      if hre.is_testnet
      then Names.yb_sdai_asset_without_strategy
      else Names.yb_sdai_asset_with_strategy)
  ok (sdai ∷ [])

-- The assets on Arbitrum and its test network
unfoldable pub create_arb_assets : Hre → ℕ → List Deployed → Outcome (List Item)
unfolding load_deployments_arb add_new_asset
create_arb_assets hre yield_box deployed = do
  d ← load_deployments_arb hre
  glp ← add_new_asset yield_box deployed d.tsglp (
      if hre.is_testnet
      then Names.yb_sglp_asset_without_strategy
      else Names.yb_sglp_asset_with_strategy)
  t ← add_new_asset yield_box deployed d.teth Names.yb_t_eth_asset_without_strategy
  mt ← add_new_asset yield_box deployed d.mteth Names.yb_mt_eth_asset_without_strategy
  r ← add_new_asset yield_box deployed d.treth Names.yb_t_reth_asset_without_strategy
  wst ← add_new_asset yield_box deployed d.twsteth Names.yb_t_wst_eth_asset_without_strategy
  ok (glp ∷ t ∷ mt ∷ r ∷ wst ∷ [])

unfoldable pub setup_create_yb_assets : Hre → List Deployed → Outcome (List Item)
unfolding load_deployments_generic create_eth_assets create_arb_assets
setup_create_yb_assets hre deployed = do
  g ← load_deployments_generic hre
  eth ← if is_ethereum hre then create_eth_assets hre g.yield_box deployed else ok []
  arb ← if is_arbitrum hre then create_arb_assets hre g.yield_box deployed else ok []
  ok (eth ++ arb)
