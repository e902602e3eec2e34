-- ===== src/Deploy/Builds.antt =====
-- tasks/deployBuilds: what the deployer is asked to deploy.
use tapioca_lending_engine.Base.{ℕ, String, ◌^◌, List, [], ◌∷◌, Outcome, ok, ◌>>=◌, present}
use tapioca_lending_engine.Sdk.{Hre, Build, Dependency, Value, addr, num, struct, end, field}
use tapioca_lending_engine.Deploy.Names.{
  penrose, usdo, usdo_ext_exec, usdo_flashloan_helper, simple_leverage_executor, market_helper,
  yb_sdai_asset_with_strategy, yb_sglp_asset_with_strategy, sgl_interest_helper,
  sgl_liquidation_module, sgl_borrow_module, sgl_collateral_module, sgl_leverage_module,
  bb_liquidation_module, bb_borrow_module, bb_collateral_module, bb_leverage_module,
  usdo_sender_module, usdo_receiver_module, usdo_market_receiver_module,
  usdo_option_receiver_module,
}
use tapioca_lending_engine.Deploy.Config.{misc_weth}

-- A build with no dependency
abbrev plain_build : String → String → List Value → Build
plain_build contract name args = record {
  contract = contract;
  deployment_name = name;
  args = args;
  depends_on = [];
}

abbrev pub build_bb_medium_risk_mc : String → Build
build_bb_medium_risk_mc name = plain_build "BigBang" name []

abbrev pub build_sgl_medium_risk_mc : String → Build
build_sgl_medium_risk_mc name = plain_build "Singularity" name []

abbrev pub build_bb_modules : List Build
build_bb_modules =
    plain_build "BBLiquidation" bb_liquidation_module []
    ∷ plain_build "BBBorrow" bb_borrow_module []
    ∷ plain_build "BBCollateral" bb_collateral_module []
    ∷ plain_build "BBLeverage" bb_leverage_module []
    ∷ []

abbrev pub build_sgl_modules : List Build
build_sgl_modules =
    plain_build "SGLLiquidation" sgl_liquidation_module []
    ∷ plain_build "SGLBorrow" sgl_borrow_module []
    ∷ plain_build "SGLCollateral" sgl_collateral_module []
    ∷ plain_build "SGLLeverage" sgl_leverage_module []
    ∷ []

abbrev pub build_erc20_without_strategy : String → ℕ → ℕ → Build
build_erc20_without_strategy name yield_box token =
    plain_build "ERC20WithoutStrategy" name (addr yield_box ∷ addr token ∷ [])

abbrev pub build_glp_strategy : List Value → Build
build_glp_strategy args = plain_build "GlpStrategy" yb_sglp_asset_with_strategy args

abbrev pub build_sdai_strategy : List Value → Build
build_sdai_strategy args = plain_build "SDaiStrategy" yb_sdai_asset_with_strategy args

abbrev pub build_market_helper : Build
build_market_helper = plain_build "MarketHelper" market_helper []

abbrev pub build_sgl_interest_helper : Build
build_sgl_interest_helper = plain_build "SGLInterestHelper" sgl_interest_helper []

abbrev pub build_usdo_ext_exec : Build
build_usdo_ext_exec = plain_build "TapiocaOmnichainExtExec" usdo_ext_exec []

abbrev pub build_simple_leverage_executor : ℕ → ℕ → ℕ → ℕ → Build
build_simple_leverage_executor zero_x_swapper cluster weth pearlmit =
    plain_build "SimpleLeverageExecutor" simple_leverage_executor
      (addr zero_x_swapper ∷ addr cluster ∷ addr weth ∷ addr pearlmit ∷ [])

-- The argument of Penrose's constructor that `DEPLOY_CONFIG.MISC[...]!.WETH` gives is looked up here.
unfoldable pub build_penrose : Hre → ℕ → ℕ → ℕ → ℕ → ℕ → ℕ → ℕ → Outcome Build
build_penrose hre yield_box cluster tap_token pearlmit tap_asset_id weth_asset_id owner = do
  weth ← present (misc_weth hre.e_chain_id)
  ok (
      plain_build "Penrose" penrose (
        addr yield_box
        ∷ addr cluster
        ∷ addr tap_token
        ∷ addr weth
        ∷ addr pearlmit
        ∷ num tap_asset_id
        ∷ num weth_asset_id
        ∷ addr owner
        ∷ []))

abbrev pub build_usdo : Value → Value → List Dependency → Build
build_usdo init_data modules depends_on = record {
  contract = "Usdo";
  deployment_name = usdo;
  args = init_data ∷ modules ∷ [];
  depends_on = depends_on;
}

abbrev pub build_usdo_flashloan_helper : Value → ℕ → List Dependency → Build
build_usdo_flashloan_helper usdo_addr owner depends_on = record {
  contract = "USDOFlashloanHelper";
  deployment_name = usdo_flashloan_helper;
  args = usdo_addr ∷ addr owner ∷ [];
  depends_on = depends_on;
}

-- `initStruct` of `buildUSDOModules`
abbrev module_init_struct : Hre → Value
module_init_struct hre = struct (
    field "cluster" (addr 1) (
      field "delegate" (addr 1) (
        field "endpoint" (addr hre.endpoint)
          (field "extExec" (addr 1) (field "pearlmit" (addr 1) (field "yieldBox" (addr 1) end))))))

abbrev pub build_usdo_modules : Hre → List Build
build_usdo_modules hre =
    plain_build "UsdoSender" usdo_sender_module (module_init_struct hre ∷ [])
    ∷ plain_build "UsdoReceiver" usdo_receiver_module (module_init_struct hre ∷ [])
    ∷ plain_build "UsdoMarketReceiverModule" usdo_market_receiver_module
        (module_init_struct hre ∷ [])
    ∷ plain_build "UsdoOptionReceiverModule" usdo_option_receiver_module
        (module_init_struct hre ∷ [])
    ∷ []

-- `ids` is the reading of YieldBox's `ids`; the precision of the rate is 1e18.
abbrev pub build_origins : (ℕ → ℕ → ℕ → ℕ → ℕ → ℕ) → String → ℕ → ℕ → ℕ → ℕ → ℕ → ℕ → ℕ → ℕ → Build
build_origins ids name owner yield_box asset asset_strategy collateral collateral_strategy oracle
      collateralization_rate =
    plain_build "Origins" name (
      addr owner
      ∷ addr yield_box
      ∷ addr asset
      ∷ num (ids yield_box 1 asset asset_strategy 0)
      ∷ addr collateral
      ∷ num (ids yield_box 1 collateral collateral_strategy 0)
      ∷ addr oracle
      ∷ num (10 ^ 18)
      ∷ num collateralization_rate
      ∷ [])
