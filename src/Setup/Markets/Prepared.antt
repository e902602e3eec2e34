-- ===== src/Setup/Markets/Prepared.antt =====
-- The assets of YieldBox between the two phases of `setupPostLbp1` (tasks/deploy/1-1-setupPostLbp.ts).
use tapioca_lending_engine.Base.{
  ℕ, String, ◌≡◌, sym, ◌∙◌, subst, Bool, true, false, List, [], ◌∷◌, ◌++◌, Outcome, ok, if-true,
  >>=-eq-ok, ok-injective, if◌then◌else◌,
}
use tapioca_lending_engine.Sdk.{Hre, Deployed}
use tapioca_lending_engine.Deploy.Names
use tapioca_lending_engine.Deploy.Loads.{
  GenericDeployments, ArbDeployments, is_arbitrum, is_ethereum, load_deployments_generic,
  load_deployments_arb,
}
use tapioca_lending_engine.Setup.World.{World}
use tapioca_lending_engine.Setup.Item.{Item}
use tapioca_lending_engine.Setup.Register.{
  setup_usdo_in_penrose, setup_register_mc_in_penrose, setup_register_bb_and_sgl_markets_in_penrose,
  setup_register_big_bang_eth_market, setup_usdo_flashloan_helper_in_usdo,
}
use tapioca_lending_engine.Setup.YbAssets.{
  add_new_asset, create_eth_assets, create_arb_assets, setup_create_yb_assets,
}
use tapioca_lending_engine.Setup.Converge.{AllMet, AllMet-append}
use tapioca_lending_engine.Setup.Phase1.{setup_items}
use tapioca_lending_engine.Setup.Markets.Laws.{Registered, add_new_asset-Registered}

abbrev pub glp_strategy_name : Bool → String
glp_strategy_name testnet =
    if testnet then Names.yb_sglp_asset_without_strategy else Names.yb_sglp_asset_with_strategy

-- Arbitrum's collaterals, each with its strategy
abbrev pub ArbRegistered : Hre → List Deployed → World → ℕ → ArbDeployments → Type 0
ArbRegistered hre deployed w yb d =
    Registered deployed w yb d.tsglp (glp_strategy_name hre.is_testnet)
    × Registered deployed w yb d.mteth Names.yb_mt_eth_asset_without_strategy
    × Registered deployed w yb d.treth Names.yb_t_reth_asset_without_strategy
    × Registered deployed w yb d.twsteth Names.yb_t_wst_eth_asset_without_strategy

create_arb_assets-ArbRegistered :
    (hre : Hre) (yb : ℕ) (deployed : List Deployed) (w : World) {is : List Item}
    → create_arb_assets hre yb deployed ≡ ok is
    → AllMet is w
    → (d : ArbDeployments) × (load_deployments_arb hre ≡ ok d) × ArbRegistered hre deployed w yb d
unfolding create_arb_assets
create_arb_assets-ArbRegistered hre yb deployed w h all =
    let (d, hd, h1) = >>=-eq-ok (load_deployments_arb hre) _ h in
    let (glp, hg, h2) =
      >>=-eq-ok (add_new_asset yb deployed d.tsglp (glp_strategy_name hre.is_testnet)) _ h1 in
    let (t, ht, h3) =
      >>=-eq-ok (add_new_asset yb deployed d.teth Names.yb_t_eth_asset_without_strategy) _ h2 in
    let (mt, hmt, h4) =
      >>=-eq-ok (add_new_asset yb deployed d.mteth Names.yb_mt_eth_asset_without_strategy) _ h3 in
    let (r, hr, h5) =
      >>=-eq-ok (add_new_asset yb deployed d.treth Names.yb_t_reth_asset_without_strategy) _ h4 in
    let (wst, hw, h6) =
      >>=-eq-ok (add_new_asset yb deployed d.twsteth Names.yb_t_wst_eth_asset_without_strategy) _
        h5 in
    let met : AllMet (glp ∷ t ∷ mt ∷ r ∷ wst ∷ []) w =
      subst (λ is. AllMet is w) (sym (ok-injective h6)) all in
    (
      d,
      hd,
      (
        add_new_asset-Registered deployed w yb d.tsglp (glp_strategy_name hre.is_testnet) hg met.0,
        add_new_asset-Registered deployed w yb d.mteth Names.yb_mt_eth_asset_without_strategy hmt
            met.1.1.0,
        add_new_asset-Registered deployed w yb d.treth Names.yb_t_reth_asset_without_strategy hr
            met.1.1.1.0,
        add_new_asset-Registered deployed w yb d.twsteth Names.yb_t_wst_eth_asset_without_strategy
            hw met.1.1.1.1.0,
      ),
    )

-- What the steps of phase 1 leave: the reads of the other deployments succeed and the collaterals are
-- registered.
abbrev pub Prepared : Hre → List Deployed → World → Type 0
Prepared hre deployed w =
    (g : GenericDeployments) × (load_deployments_generic hre ≡ ok g)
    × (d : ArbDeployments) × (load_deployments_arb hre ≡ ok d)
    × ArbRegistered hre deployed w g.yield_box d

pub setup_create_yb_assets-Prepared :
    (hre : Hre) (deployed : List Deployed) (w : World) {is : List Item}
    → is_arbitrum hre ≡ true
    → is_ethereum hre ≡ false
    → setup_create_yb_assets hre deployed ≡ ok is
    → AllMet is w
    → Prepared hre deployed w
unfolding setup_create_yb_assets
setup_create_yb_assets-Prepared hre deployed w arb eth h all =
    let (g, hg, h1) = >>=-eq-ok (load_deployments_generic hre) _ h in
    let (x, hx, h2) =
      >>=-eq-ok (if is_ethereum hre then create_eth_assets hre g.yield_box deployed else ok []) _
        h1 in
    let (y, hy, h3) =
      >>=-eq-ok (if is_arbitrum hre then create_arb_assets hre g.yield_box deployed else ok []) _
        h2 in
    let made : create_arb_assets hre g.yield_box deployed ≡ ok y =
      sym (if-true (is_arbitrum hre) (create_arb_assets hre g.yield_box deployed) (ok []) arb)
      ∙ hy in
    let met : AllMet (x ++ y) w = subst (λ is. AllMet is w) (sym (ok-injective h3)) all in
    let (d, hd, reg) =
      create_arb_assets-ArbRegistered hre g.yield_box deployed w made (AllMet-append x y w met) in
    (g, hg, d, hd, reg)

-- The steps of phase 1 end with the assets.
pub setup_items-assets :
    (create : Hre → String → ℕ → Outcome Hre) (hre : Hre) (deployed : List Deployed) (w : World)
    {r : Hre × List Item}
    → setup_items create hre deployed ≡ ok r
    → AllMet r.1 w
    → (is : List Item) × (setup_create_yb_assets r.0 deployed ≡ ok is) × AllMet is w
unfolding setup_items
setup_items-assets create hre deployed w h all =
    let (a, ha, h1) = >>=-eq-ok (setup_usdo_in_penrose create hre deployed) _ h in
    let (b, hb, h2) = >>=-eq-ok (setup_register_mc_in_penrose a.0 deployed) _ h1 in
    let (c, hc, h3) = >>=-eq-ok (setup_register_bb_and_sgl_markets_in_penrose a.0 deployed) _ h2 in
    let (d, hd, h4) = >>=-eq-ok (setup_register_big_bang_eth_market a.0 deployed) _ h3 in
    let (f, hf, h5) = >>=-eq-ok (setup_usdo_flashloan_helper_in_usdo a.0 deployed) _ h4 in
    let (g, hg, h6) = >>=-eq-ok (setup_create_yb_assets a.0 deployed) _ h5 in
    let met : AllMet (a.1 ++ (b ++ (c ++ (d ++ (f ++ g))))) w =
      subst (λ (r : Hre × List Item). AllMet r.1 w) (sym (ok-injective h6)) all in
    let last : AllMet g w = AllMet-append f g w (
      AllMet-append d _ w
        (AllMet-append c _ w (AllMet-append b _ w (AllMet-append a.1 _ w met)))) in
    (
      g,
      subst (λ (r : Hre × List Item). setup_create_yb_assets r.0 deployed ≡ ok g) (ok-injective h6)
          hg,
      last,
    )
