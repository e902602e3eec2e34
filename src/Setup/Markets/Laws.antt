-- ===== src/Setup/Markets/Laws.antt =====
-- When the initialisation of a market throws, and what it calls: `initBBMarket` and `initSGLMarket`.
use tapioca_lending_engine.Base.{
  Succeeds, >>=-Succeeds, ℕ, ◌==◌, ◌≡◌, refl, String, true, List, [], ok, arith, >>=-eq-ok,
  ok-injective, subst, Mapping, Bool-cases, inl, inr, sym,
}
use tapioca_lending_engine.Sdk.{Deployed}
use tapioca_lending_engine.Deploy.Names
use tapioca_lending_engine.Deploy.Config.{BbMarketConfig, SglMarketConfig}
use tapioca_lending_engine.Setup.World.{World}
use tapioca_lending_engine.Setup.Item.{Item, has_asset, met}
use tapioca_lending_engine.Setup.Register.{find_address}
use tapioca_lending_engine.Setup.YbAssets.{add_new_asset}
use tapioca_lending_engine.Setup.Markets.{
  Shared, modules_data, collateral_id, bb_init_calls, init_bb_market, sgl_init_calls,
  init_sgl_market,
}

collateral_id-met :
    (w : World) (yb c s : ℕ)
    → met (has_asset yb c s) w ≡ true
    → collateral_id w yb c s ≡ ok (w.ids_at yb 1 c s 0)
unfolding collateral_id
collateral_id-met w yb c s h = ground arith

collateral_id-only_met :
    (w : World) (yb c s : ℕ) {id : ℕ}
    → collateral_id w yb c s ≡ ok id
    → met (has_asset yb c s) w ≡ true
unfolding collateral_id
collateral_id-only_met w yb c s h = ground arith

-- The name was deployed.
abbrev pub Found : List Deployed → String → Type 0
Found deployed n = Succeeds (find_address deployed n)

-- The strategy was deployed and YieldBox has the collateral with it.
abbrev pub Registered : List Deployed → World → ℕ → ℕ → String → Type 0
Registered deployed w yb c name =
    (s : ℕ) × (find_address deployed name ≡ ok s) × (met (has_asset yb c s) w ≡ true)

pub add_new_asset-Registered :
    (deployed : List Deployed) (w : World) (yb c : ℕ) (name : String) {i : Item}
    → add_new_asset yb deployed c name ≡ ok i
    → met i.goal w ≡ true
    → Registered deployed w yb c name
unfolding add_new_asset
add_new_asset-Registered deployed w yb c name h m =
    let (s, hs, e) = >>=-eq-ok (find_address deployed name) _ h in
    (s, hs, subst (λ i. met i.goal w ≡ true) (sym (ok-injective e)) m)

module _ (deployed : List Deployed) where
  pub modules_data-Found :
      (l b c v : String)
      → Found deployed l
      → Found deployed b
      → Found deployed c
      → Found deployed v
      → Succeeds (modules_data deployed l b c v)
  unfolding modules_data
  modules_data-Found l b c v fl fb fc fv = >>=-Succeeds (find_address deployed l) _ fl (
      >>=-Succeeds (find_address deployed b) _ fb (
        >>=-Succeeds (find_address deployed c) _ fc
          (>>=-Succeeds (find_address deployed v) _ fv (_, refl))))

-- The four modules of a kind of market were deployed.
abbrev pub BbModules : List Deployed → Type 0
BbModules deployed =
    Found deployed Names.bb_liquidation_module
    × Found deployed Names.bb_borrow_module
    × Found deployed Names.bb_collateral_module
    × Found deployed Names.bb_leverage_module

abbrev pub SglModules : List Deployed → Type 0
SglModules deployed =
    Found deployed Names.sgl_liquidation_module
    × Found deployed Names.sgl_borrow_module
    × Found deployed Names.sgl_collateral_module
    × Found deployed Names.sgl_leverage_module

module _ (s : Shared) (deployed : List Deployed) (w : World) (penrose_of : Mapping ℕ) where
  -- With its collateral registered, a BigBang market is initialised or it was before.
  pub init_bb_market-ok :
      (config : BbMarketConfig) (name strategy : String) (c o : ℕ)
      → BbModules deployed
      → Found deployed name
      → Registered deployed w s.yield_box c strategy
      → Succeeds (init_bb_market s deployed w penrose_of config name strategy c o)
  unfolding init_bb_market bb_init_calls
  init_bb_market-ok config name strategy c o ms (m, hm) (t, ht, reg) =
      let d =
        modules_data-Found deployed Names.bb_liquidation_module Names.bb_borrow_module
          Names.bb_collateral_module Names.bb_leverage_module ms.0 ms.1 ms.2 ms.3 in
      >>=-Succeeds (find_address deployed name) _ (m, hm)
        (elim (Bool-cases (penrose_of m == s.penrose)) [
          | inl here ↦ rw here ([], refl)
          | inr new ↦ rw new (
              >>=-Succeeds (find_address deployed strategy) _ (t, ht)
                (>>=-Succeeds (collateral_id w s.yield_box c t) _
                  (w.ids_at s.yield_box 1 c t 0, collateral_id-met w s.yield_box c t reg)
                  (>>=-Succeeds (modules_data deployed _ _ _ _) _ d (_, refl))))
        ])

  pub init_sgl_market-ok :
      (config : SglMarketConfig) (name strategy : String) (c o : ℕ)
      → SglModules deployed
      → Found deployed name
      → Registered deployed w s.yield_box c strategy
      → Succeeds (init_sgl_market s deployed w penrose_of config name strategy c o)
  unfolding init_sgl_market sgl_init_calls
  init_sgl_market-ok config name strategy c o ms (m, hm) (t, ht, reg) =
      let d =
        modules_data-Found deployed Names.sgl_liquidation_module Names.sgl_borrow_module
          Names.sgl_collateral_module Names.sgl_leverage_module ms.0 ms.1 ms.2 ms.3 in
      >>=-Succeeds (find_address deployed name) _ (m, hm)
        (elim (Bool-cases (penrose_of m == s.penrose)) [
          | inl here ↦ rw here ([], refl)
          | inr new ↦ rw new (
              >>=-Succeeds (find_address deployed strategy) _ (t, ht)
                (>>=-Succeeds (collateral_id w s.yield_box c t) _
                  (w.ids_at s.yield_box 1 c t 0, collateral_id-met w s.yield_box c t reg)
                  (>>=-Succeeds (modules_data deployed _ _ _ _) _ d (_, refl))))
        ])
