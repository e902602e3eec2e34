-- ===== src/Setup/Phase1.antt =====
-- The first multicall of `setupPostLbp1` (tasks/deploy/1-1-setupPostLbp.ts). All of its steps read the
-- chain before any of the calls is made.
pub mod Converges
use tapioca_lending_engine.Base.{ℕ, String, List, [], ◌∷◌, ◌++◌, Outcome, ok, ◌>>=◌}
use tapioca_lending_engine.Sdk.{Hre, Deployed, Call}
use tapioca_lending_engine.Setup.World.{World}
use tapioca_lending_engine.Setup.Item.{Item, pending}
use tapioca_lending_engine.Setup.Register.{
  setup_usdo_in_penrose, setup_register_mc_in_penrose, setup_register_bb_and_sgl_markets_in_penrose,
  setup_register_big_bang_eth_market, setup_usdo_flashloan_helper_in_usdo,
}
use tapioca_lending_engine.Setup.YbAssets.{setup_create_yb_assets}

-- The steps, in order
unfoldable pub setup_items :
    (Hre → String → ℕ → Outcome Hre) → Hre → List Deployed → Outcome (Hre × List Item)
unfolding setup_usdo_in_penrose setup_register_mc_in_penrose
    setup_register_bb_and_sgl_markets_in_penrose setup_register_big_bang_eth_market
    setup_usdo_flashloan_helper_in_usdo setup_create_yb_assets
setup_items create hre deployed = do
  r ← setup_usdo_in_penrose create hre deployed
  mcs ← setup_register_mc_in_penrose r.0 deployed
  markets ← setup_register_bb_and_sgl_markets_in_penrose r.0 deployed
  main_market ← setup_register_big_bang_eth_market r.0 deployed
  helper ← setup_usdo_flashloan_helper_in_usdo r.0 deployed
  assets ← setup_create_yb_assets r.0 deployed
  ok (r.0, r.1 ++ (mcs ++ (markets ++ (main_market ++ (helper ++ assets)))))

-- The environment afterwards, and the calls of the multicall
unfoldable pub setup_phase1 :
    (Hre → String → ℕ → Outcome Hre) → Hre → List Deployed → World → Outcome (Hre × List Call)
unfolding setup_items pending
setup_phase1 create hre deployed w = do r ← setup_items create hre deployed; ok (r.0, pending r.1 w)
