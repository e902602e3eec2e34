-- ===== src/Setup/Markets/All.antt =====
-- The markets of each chain, in the task's order, and the second multicall of `setupPostLbp1`.
use tapioca_lending_engine.Base.{
  ℕ, List, [], ◌++◌, Outcome, ok, ◌>>=◌, present, Mapping, if◌then◌else◌,
}
use tapioca_lending_engine.Sdk.{Call, Hre, Deployed}
use tapioca_lending_engine.Deploy.Names
use tapioca_lending_engine.Deploy.Config.{post_lbp}
use tapioca_lending_engine.Deploy.Loads.{
  is_arbitrum, is_ethereum, load_deployments_eth, load_deployments_arb,
}
use tapioca_lending_engine.Setup.World.{World}
use tapioca_lending_engine.Setup.Item.{pending}
use tapioca_lending_engine.Setup.Register.{setup_register_bb_as_minter_burner_in_usdo}
use tapioca_lending_engine.Setup.Markets.{Shared, load_shared, init_bb_market, init_sgl_market}

-- The BigBang markets of Arbitrum
unfoldable pub init_big_bangs :
    Hre → Shared → List Deployed → World → Mapping ℕ → Outcome (List Call)
unfolding load_deployments_arb init_bb_market
init_big_bangs hre s deployed w penrose_of = do
  d ← load_deployments_arb hre
  config ← present (post_lbp hre.e_chain_id)
  mt_config ← present config.mteth_market_config
  mt ←
      init_bb_market s deployed w penrose_of mt_config Names.bb_mt_eth_market
        Names.yb_mt_eth_asset_without_strategy d.mteth d.eth_market_oracle
  r_config ← present config.treth_market_config
  r ←
      init_bb_market s deployed w penrose_of r_config Names.bb_t_reth_market
        Names.yb_t_reth_asset_without_strategy d.treth d.treth_market_oracle
  wst_config ← present config.twsteth_market_config
  wst ←
      init_bb_market s deployed w penrose_of wst_config Names.bb_t_wst_eth_market
        Names.yb_t_wst_eth_asset_without_strategy d.twsteth d.twsteth_market_oracle
  ok (mt ++ r ++ wst)

-- The sDAI market. The strategy's name is that of a test network, on every chain.
unfoldable pub init_sdai_market :
    Hre → Shared → List Deployed → World → Mapping ℕ → Outcome (List Call)
unfolding load_deployments_eth init_sgl_market
init_sdai_market hre s deployed w penrose_of = do
  d ← load_deployments_eth hre
  config ← present (post_lbp hre.e_chain_id)
  sgl_config ← present config.tsdai_market_config
  init_sgl_market s deployed w penrose_of sgl_config Names.sgl_s_dai_market
      Names.yb_sdai_asset_without_strategy d.tsdai d.tsdai_market_oracle

-- The sGLP market, likewise
unfoldable pub init_sglp_market :
    Hre → Shared → List Deployed → World → Mapping ℕ → Outcome (List Call)
unfolding load_deployments_arb init_sgl_market
init_sglp_market hre s deployed w penrose_of = do
  d ← load_deployments_arb hre
  config ← present (post_lbp hre.e_chain_id)
  sgl_config ← present config.tsglp_market_config
  init_sgl_market s deployed w penrose_of sgl_config Names.sgl_s_glp_market
      Names.yb_sglp_asset_without_strategy d.tsglp d.tsglp_market_oracle

unfoldable pub setup_init_and_register_market :
    Hre → List Deployed → World → Mapping ℕ → Outcome (List Call)
unfolding load_shared init_big_bangs init_sdai_market init_sglp_market
setup_init_and_register_market hre deployed w penrose_of = do
  s ← load_shared hre deployed
  bb ← if is_arbitrum hre then init_big_bangs hre s deployed w penrose_of else ok []
  sdai ← if is_ethereum hre then init_sdai_market hre s deployed w penrose_of else ok []
  sglp ← if is_arbitrum hre then init_sglp_market hre s deployed w penrose_of else ok []
  ok (bb ++ sdai ++ sglp)

unfoldable pub setup_phase2 : Hre → List Deployed → World → Mapping ℕ → Outcome (List Call)
unfolding setup_init_and_register_market setup_register_bb_as_minter_burner_in_usdo pending
setup_phase2 hre deployed w penrose_of = do
  markets ← setup_init_and_register_market hre deployed w penrose_of
  roles ← setup_register_bb_as_minter_burner_in_usdo hre deployed
  ok (markets ++ pending roles w)
