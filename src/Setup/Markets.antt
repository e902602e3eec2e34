-- ===== src/Setup/Markets.antt =====
-- `setupInitAndRegisterMarket` of tasks/deploy/postDepSetup/setupInitAndRegisterMarket.ts: the markets'
-- `init` calls. `penrose_of` is what the markets answer to `_penrose()`; the YieldBox ids are the world's.
pub mod All
pub mod Laws
pub mod Prepared
pub mod Follows
pub mod Phases
pub mod MainNet
use tapioca_lending_engine.Base.{
  ℕ, ◌==◌, ◌*◌, ◌^◌, String, str_eq, Bool, true, not, ◌||◌, List, [], ◌∷◌, ◌++◌, Outcome, ok, ◌>>=◌,
  ◌>>◌, fail_if, present, Mapping, if◌then◌else◌,
}
use tapioca_lending_engine.Sdk.{
  Value, addr, num, flag, seq, struct, encoded, Values, nil, ◌⸴◌, Fields, end, field, Call, Hre,
  Deployed,
}
use tapioca_lending_engine.Deploy.Names
use tapioca_lending_engine.Deploy.Config.{BbMarketConfig, SglMarketConfig, PostLbp, post_lbp}
use tapioca_lending_engine.Deploy.Loads.{
  GenericDeployments, EthDeployments, ArbDeployments, is_arbitrum, is_ethereum,
  load_deployments_generic, load_deployments_eth, load_deployments_arb,
}
use tapioca_lending_engine.Setup.World.{World}
use tapioca_lending_engine.Setup.Register.{find_address, call}

-- What all markets are set up with: the addresses that the task looks up first
pub record Shared : Type 0 where
  pub leverage_executor : ℕ
  pub penrose : ℕ
  pub usdo : ℕ
  pub usdo_strategy : ℕ
  pub interest_helper : ℕ
  pub yield_box : ℕ

-- `loadModule`
abbrev pub load_module : List Deployed → String → Outcome ℕ
load_module deployed name = find_address deployed name

-- `modulesData`, from the names of the four modules
unfoldable pub modules_data : List Deployed → String → String → String → String → Outcome Value
unfolding find_address
modules_data deployed liquidation borrow collateral leverage = do
  l ← load_module deployed liquidation
  b ← load_module deployed borrow
  c ← load_module deployed collateral
  v ← load_module deployed leverage
  ok (
      struct (
        field "_liquidationModule" (addr l) (
          field "_borrowModule" (addr b)
            (field "_collateralModule" (addr c) (field "_leverageModule" (addr v) end)))))

-- `yieldBox.ids(1, collateral, strategy, 0)`, an error if it is 0
unfoldable pub collateral_id : World → ℕ → ℕ → ℕ → Outcome ℕ
collateral_id w yield_box collateral strategy = do
  let id = w.ids_at yield_box 1 collateral strategy 0
  fail_if (id == 0) "Collateral id is 0"
  ok id

abbrev exchange_rate_precision : Value
exchange_rate_precision = num (10 ^ 18)

-- The argument of BigBang's `init`
abbrev bb_data : Shared → BbMarketConfig → Value → ℕ → ℕ → ℕ → Value
bb_data s config modules collateral id oracle = seq (
    modules
    ⸴ struct (
        field "_debtRateAgainstEth" (num config.debt_rate_against_eth) (
          field "_debtRateMin" (num config.debt_rate_min)
            (field "_debtRateMax" (num config.debt_rate_max) end)))
    ⸴ struct (
        field "_penrose" (addr s.penrose) (
          field "_collateral" (addr collateral) (
            field "_collateralId" (num id) (
              field "_oracle" (addr oracle) (
                field "_exchangeRatePrecision" exchange_rate_precision (
                  field "_collateralizationRate" (num config.collateralization_rate) (
                    field "_liquidationCollateralizationRate"
                      (num config.liquidation_collateralization_rate)
                      (field "_leverageExecutor" (addr s.leverage_executor) end))))))))
    ⸴ nil)

-- `initBBMarket` where the market has another Penrose than the deployed one
unfoldable pub bb_init_calls :
    Shared → List Deployed → World → ℕ → BbMarketConfig → String → ℕ → ℕ → Outcome (List Call)
unfolding find_address modules_data collateral_id
bb_init_calls s deployed w market config strategy_name collateral oracle = do
  strategy ← find_address deployed strategy_name
  id ← collateral_id w s.yield_box collateral strategy
  modules ←
      modules_data deployed Names.bb_liquidation_module Names.bb_borrow_module
        Names.bb_collateral_module Names.bb_leverage_module
  ok (call market "init" (bb_data s config modules collateral id oracle ⸴ nil) ∷ [])

-- `initBBMarket`: the configuration, the names of the market and of its strategy, the collateral and
-- the oracle
unfoldable pub init_bb_market :
    Shared
    → List Deployed
    → World
    → Mapping ℕ
    → BbMarketConfig
    → String
    → String
    → ℕ
    → ℕ
    → Outcome (List Call)
unfolding find_address bb_init_calls
init_bb_market s deployed w penrose_of config market_name strategy_name collateral oracle = do
  market ← find_address deployed market_name
  if penrose_of market == s.penrose
      then ok []
      else bb_init_calls s deployed w market config strategy_name collateral oracle

-- The argument of Singularity's `init`
abbrev sgl_data : Shared → SglMarketConfig → Value → ℕ → ℕ → ℕ → ℕ → Value
sgl_data s config modules asset_id collateral id oracle = seq (
    modules
    ⸴ struct (
        field "_asset" (addr s.usdo) (
          field "_assetId" (num asset_id)
            (field "_collateral" (addr collateral) (field "_collateralId" (num id) end))))
    ⸴ struct (
        field "penrose_" (addr s.penrose) (
          field "_oracle" (addr oracle) (
            field "_exchangeRatePrecision" exchange_rate_precision (
              field "_collateralizationRate" (num config.collateralization_rate) (
                field "_liquidationCollateralizationRate"
                  (num config.liquidation_collateralization_rate)
                  (field "_leverageExecutor" (addr s.leverage_executor) end))))))
    ⸴ nil)

-- `setSingularityConfig` with the interest helper, the other arguments zero
abbrev interest_helper_data : ℕ → Value
interest_helper_data helper =
    encoded "setSingularityConfig"
      (addr 0 ⸴ addr 0 ⸴ addr 0 ⸴ addr 0 ⸴ addr 0 ⸴ addr 0 ⸴ addr 0 ⸴ addr helper ⸴ nil)

-- `initSGLMarket` where the market has another Penrose than the deployed one
unfoldable pub sgl_init_calls :
    Shared → List Deployed → World → ℕ → SglMarketConfig → String → ℕ → ℕ → Outcome (List Call)
unfolding find_address modules_data collateral_id
sgl_init_calls s deployed w market config strategy_name collateral oracle = do
  let asset_id = w.ids_at s.yield_box 1 s.usdo s.usdo_strategy 0
  strategy ← find_address deployed strategy_name
  id ← collateral_id w s.yield_box collateral strategy
  modules ←
      modules_data deployed Names.sgl_liquidation_module Names.sgl_borrow_module
        Names.sgl_collateral_module Names.sgl_leverage_module
  ok (
      call market "init" (sgl_data s config modules asset_id collateral id oracle ⸴ nil)
      ∷ call s.penrose "executeMarketFn" (
          seq (addr market ⸴ nil)
          ⸴ seq (interest_helper_data s.interest_helper ⸴ nil)
          ⸴ flag true
          ⸴ nil)
      ∷ [])

unfoldable pub init_sgl_market :
    Shared
    → List Deployed
    → World
    → Mapping ℕ
    → SglMarketConfig
    → String
    → String
    → ℕ
    → ℕ
    → Outcome (List Call)
unfolding find_address sgl_init_calls
init_sgl_market s deployed w penrose_of config market_name strategy_name collateral oracle = do
  market ← find_address deployed market_name
  if penrose_of market == s.penrose
      then ok []
      else sgl_init_calls s deployed w market config strategy_name collateral oracle

unfoldable pub load_shared : Hre → List Deployed → Outcome Shared
unfolding find_address load_deployments_generic
load_shared hre deployed = do
  executor ← find_address deployed Names.simple_leverage_executor
  p ← find_address deployed Names.penrose
  u ← find_address deployed Names.usdo
  strategy ← hre.load_local Names.yb_usdo_asset_without_strategy
  helper ← find_address deployed Names.sgl_interest_helper
  g ← load_deployments_generic hre
  ok (record {
    leverage_executor = executor;
    penrose = p;
    usdo = u;
    usdo_strategy = strategy.address;
    interest_helper = helper;
    yield_box = g.yield_box;
  })
