-- ===== src/Deploy/Task1.antt =====
-- Phase 1 (`tapiocaDeployTask` of tasks/deploy/1-1-deployPostLbp.ts): the builds, in the order of the
-- calls of `VM.add`.
use tapioca_lending_engine.Base.{
  ℕ, String, none, some, List, [], ◌∷◌, ◌++◌, Outcome, ok, ◌>>=◌, present, if◌then◌else◌,
}
use tapioca_lending_engine.Sdk.{Hre, Build, Dependency, addr, text, struct, end, field}
use tapioca_lending_engine.Deploy.Names
use tapioca_lending_engine.Deploy.Config.{post_lbp, misc_weth}
use tapioca_lending_engine.Deploy.Loads.{
  GenericDeployments, ArbDeployments, EthDeployments, is_arbitrum, is_ethereum,
  load_deployments_generic, load_deployments_arb, load_deployments_eth,
}
use tapioca_lending_engine.Deploy.Builds.{
  build_bb_medium_risk_mc, build_sgl_medium_risk_mc, build_bb_modules, build_sgl_modules,
  build_erc20_without_strategy, build_glp_strategy, build_sdai_strategy, build_market_helper,
  build_sgl_interest_helper, build_usdo_ext_exec, build_simple_leverage_executor, build_penrose,
  build_usdo, build_usdo_flashloan_helper, build_usdo_modules,
}

-- The address of `deployment_name` replaces the field `key_name` of the argument.
abbrev keyed : ℕ → String → String → Dependency
keyed pos key name = record { arg_position = pos; key_name = some key; deployment_name = name }

abbrev usdo_build : Hre → GenericDeployments → Build
usdo_build hre g =
    build_usdo
      (struct (
        field "endpoint" (addr hre.endpoint) (
          field "delegate" (addr hre.multicall_addr) (
            field "extExec" (text "0x") (
              field "cluster" (addr g.cluster)
                (field "pearlmit" (addr g.pearlmit) (field "yieldBox" (addr g.yield_box) end)))))))
      (struct (
        field "marketReceiverModule" (text "0x") (
          field "optionReceiverModule" (text "0x")
            (field "usdoReceiverModule" (text "0x") (field "usdoSenderModule" (text "0x") end)))))
      (keyed 0 "extExec" Names.usdo_ext_exec
        ∷ keyed 1 "marketReceiverModule" Names.usdo_market_receiver_module
        ∷ keyed 1 "optionReceiverModule" Names.usdo_option_receiver_module
        ∷ keyed 1 "usdoReceiverModule" Names.usdo_receiver_module
        ∷ keyed 1 "usdoSenderModule" Names.usdo_sender_module
        ∷ [])

-- What every chain gets, Penrose's build and WETH's address given.
abbrev pub common_builds : Hre → GenericDeployments → ℕ → Build → List Build
common_builds hre g weth penrose_build =
    build_usdo_modules hre
    ++ (build_usdo_ext_exec
        ∷ build_simple_leverage_executor g.zero_x_swapper g.cluster weth g.pearlmit
        ∷ usdo_build hre g
        ∷ build_usdo_flashloan_helper (text "0x") hre.multicall_addr
            (record { arg_position = 0; key_name = none; deployment_name = Names.usdo } ∷ [])
        ∷ [])
    ++ build_sgl_modules
    ++ (penrose_build
        ∷ build_sgl_medium_risk_mc Names.sgl_medium_risk_mc
        ∷ build_sgl_interest_helper
        ∷ build_market_helper
        ∷ [])

-- `meta.ybAssetId` is passed on as it is; that it is there is the type's claim.
unfoldable pub generic_builds : Hre → Outcome (List Build)
unfolding load_deployments_generic build_penrose
generic_builds hre = do
  g ← load_deployments_generic hre
  weth ← present (misc_weth hre.e_chain_id)
  tap_id ← present g.tap_strat_with_asset.yb_asset_id
  weth_id ← present g.weth_strat_with_asset.yb_asset_id
  p ←
      build_penrose hre g.yield_box g.cluster g.tap_token g.pearlmit tap_id weth_id
        hre.multicall_addr
  ok (common_builds hre g weth p)

-- The strategy of sGLP: an empty one on a test network, `GlpStrategy` otherwise.
unfoldable pub sglp_strategy : Hre → ArbDeployments → Outcome Build
sglp_strategy hre d =
    if hre.is_testnet
    then ok (
        build_erc20_without_strategy Names.yb_sglp_asset_without_strategy d.generic.yield_box
          d.tsglp)
    else do
      config ← present (post_lbp hre.e_chain_id)
      strat ← present config.glp_strat
      ok (
          build_glp_strategy (
            addr d.generic.yield_box
            ∷ addr strat.gmx_reward_router
            ∷ addr strat.glp_reward_router
            ∷ addr d.tsglp
            ∷ addr d.weth_glp_oracle
            ∷ text "0x"
            ∷ addr hre.multicall_addr
            ∷ []))

unfoldable pub arb_builds : Hre → Outcome (List Build)
unfolding load_deployments_arb sglp_strategy
arb_builds hre = do
  d ← load_deployments_arb hre
  glp ← sglp_strategy hre d
  let yb = d.generic.yield_box
  ok (
      build_bb_modules
      ++ build_erc20_without_strategy Names.yb_mt_eth_asset_without_strategy yb d.mteth
        ∷ build_erc20_without_strategy Names.yb_t_eth_asset_without_strategy yb d.teth
        ∷ build_erc20_without_strategy Names.yb_t_reth_asset_without_strategy yb d.treth
        ∷ build_erc20_without_strategy Names.yb_t_wst_eth_asset_without_strategy yb d.twsteth
        ∷ build_bb_medium_risk_mc Names.bb_medium_risk_mc
        ∷ build_bb_medium_risk_mc Names.bb_mt_eth_market
        ∷ build_bb_medium_risk_mc Names.bb_t_reth_market
        ∷ build_bb_medium_risk_mc Names.bb_t_wst_eth_market
        ∷ glp
        ∷ build_sgl_medium_risk_mc Names.sgl_s_glp_market
        ∷ [])

-- The strategy of sDAI: an empty one on a test network, `SDaiStrategy` otherwise.
unfoldable pub sdai_strategy : Hre → EthDeployments → Outcome Build
sdai_strategy hre d =
    if hre.is_testnet
    then ok (
        build_erc20_without_strategy Names.yb_sdai_asset_without_strategy d.generic.yield_box
          d.tsdai)
    else do
      config ← present (post_lbp hre.e_chain_id)
      sdai ← present config.sdai
      ok (
          build_sdai_strategy
            (addr d.generic.yield_box ∷ addr d.tsdai ∷ addr sdai ∷ addr hre.multicall_addr ∷ []))

unfoldable pub eth_builds : Hre → Outcome (List Build)
unfolding load_deployments_eth sdai_strategy
eth_builds hre = do
  d ← load_deployments_eth hre
  sdai ← sdai_strategy hre d
  ok (sdai ∷ build_sgl_medium_risk_mc Names.sgl_s_dai_market ∷ [])

unfoldable pub deploy_task : Hre → Outcome (List Build)
unfolding generic_builds arb_builds eth_builds
deploy_task hre = do
  common ← generic_builds hre
  arb ← if is_arbitrum hre then arb_builds hre else ok []
  eth ← if is_ethereum hre then eth_builds hre else ok []
  ok (common ++ arb ++ eth)
