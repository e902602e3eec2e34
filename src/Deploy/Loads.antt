-- ===== src/Deploy/Loads.antt =====
-- The deployments of other repositories that the tasks read
-- (`deploy__LoadDeployments_*` of tasks/deploy/1-1-deployPostLbp.ts), in the order of the reads.
use tapioca_lending_engine.Base.{ℕ, Bool, ◌||◌, str_eq, ok, ◌>>=◌, Outcome}
use tapioca_lending_engine.Sdk.{
  Hre, Contract, GlobalName, tap_token, yield_box, cluster, pearlmit, zero_x_swapper,
  tap_token_yb_empty_strat, weth_yb_empty_strat, market_sdai_oracle, tsdai, mteth, teth, treth,
  twsteth, market_teth_oracle, market_reth_oracle, market_wsteth_oracle, market_glp_oracle,
  eth_glp_oracle, tsglp,
}

-- `loadGlobalContract(...).address`
abbrev pub global_address : Hre → GlobalName → Outcome ℕ
global_address hre name = do c ← hre.load_global name; ok c.address

-- The two tests on `chainInfo.name` that the tasks make
abbrev pub is_arbitrum : Hre → Bool
is_arbitrum hre = str_eq hre.chain_name "arbitrum" || str_eq hre.chain_name "arbitrum_sepolia"

abbrev pub is_ethereum : Hre → Bool
is_ethereum hre =
    str_eq hre.chain_name "ethereum"
    || (str_eq hre.chain_name "sepolia" || str_eq hre.chain_name "optimism_sepolia")

pub record GenericDeployments : Type 0 where
  pub tap_token : ℕ
  pub yield_box : ℕ
  pub cluster : ℕ
  pub pearlmit : ℕ
  pub zero_x_swapper : ℕ
  pub tap_strat_with_asset : Contract
  pub weth_strat_with_asset : Contract

pub record EthDeployments : Type 0 where
  pub generic : GenericDeployments
  pub tsdai_market_oracle : ℕ
  pub tsdai : ℕ

pub record ArbDeployments : Type 0 where
  pub generic : GenericDeployments
  pub mteth : ℕ
  pub teth : ℕ
  pub treth : ℕ
  pub twsteth : ℕ
  pub eth_market_oracle : ℕ
  pub treth_market_oracle : ℕ
  pub twsteth_market_oracle : ℕ
  pub tsglp_market_oracle : ℕ
  pub tsglp : ℕ
  pub weth_glp_oracle : ℕ

unfoldable pub load_deployments_generic : Hre → Outcome GenericDeployments
load_deployments_generic hre = do
  tap ← global_address hre tap_token
  yb ← global_address hre yield_box
  cl ← global_address hre cluster
  pm ← global_address hre pearlmit
  zx ← global_address hre zero_x_swapper
  tap_strat ← hre.load_global tap_token_yb_empty_strat
  weth_strat ← hre.load_global weth_yb_empty_strat
  ok (record {
    tap_token = tap;
    yield_box = yb;
    cluster = cl;
    pearlmit = pm;
    zero_x_swapper = zx;
    tap_strat_with_asset = tap_strat;
    weth_strat_with_asset = weth_strat;
  })

unfoldable pub load_deployments_eth : Hre → Outcome EthDeployments
unfolding load_deployments_generic
load_deployments_eth hre = do
  oracle ← global_address hre market_sdai_oracle
  token ← global_address hre tsdai
  g ← load_deployments_generic hre
  ok (record { generic = g; tsdai_market_oracle = oracle; tsdai = token })

unfoldable pub load_deployments_arb : Hre → Outcome ArbDeployments
unfolding load_deployments_generic
load_deployments_arb hre = do
  mt ← global_address hre mteth
  t ← global_address hre teth
  r ← global_address hre treth
  wst ← global_address hre twsteth
  mt_oracle ← global_address hre market_teth_oracle
  r_oracle ← global_address hre market_reth_oracle
  wst_oracle ← global_address hre market_wsteth_oracle
  glp_oracle ← global_address hre market_glp_oracle
  weth_oracle ← global_address hre eth_glp_oracle
  glp ← global_address hre tsglp
  g ← load_deployments_generic hre
  ok (record {
    generic = g;
    mteth = mt;
    teth = t;
    treth = r;
    twsteth = wst;
    eth_market_oracle = mt_oracle;
    treth_market_oracle = r_oracle;
    twsteth_market_oracle = wst_oracle;
    tsglp_market_oracle = glp_oracle;
    tsglp = glp;
    weth_glp_oracle = weth_oracle;
  })
