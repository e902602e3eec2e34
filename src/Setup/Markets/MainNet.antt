-- ===== src/Setup/Markets/MainNet.antt =====
-- The sGLP market on Arbitrum itself: the strategy's name that `setupInitAndRegisterMarket` looks up is
-- that of a test network.
use tapioca_lending_engine.Base.{
  ℕ, ◌==◌, String, ◌≡◌, refl, sym, ap, ◌∙◌, Bool, true, false, List, [], ok, fail, >>=-eq-ok,
  ok-injective, Outcome-cases, inl, inr, contains, Mapping, if-true, if-false, present,
  if◌then◌else◌,
}
use mathlib.Core.Bool.{false≢true}
use tapioca_lending_engine.Sdk.{Hre, Deployed, Call, Build}
use tapioca_lending_engine.Deploy.Names
use tapioca_lending_engine.Deploy.Config.{post_lbp}
use tapioca_lending_engine.Deploy.Loads.{
  is_arbitrum, is_ethereum, load_deployments_generic, load_deployments_arb,
}
use tapioca_lending_engine.Deploy.Task1.{deploy_task}
use tapioca_lending_engine.Deploy.Queue.{outline, entry_names, queue_outline, deploy_task-outline}
use tapioca_lending_engine.Setup.World.{World}
use tapioca_lending_engine.Setup.Register.{find_address}
use tapioca_lending_engine.Setup.Served.{deployed_names, find_address-only_contains}
use tapioca_lending_engine.Setup.Markets.{Shared, load_shared, init_sgl_market, sgl_init_calls}
use tapioca_lending_engine.Setup.Markets.All.{
  init_big_bangs, init_sdai_market, init_sglp_market, setup_init_and_register_market,
}

-- Off the test networks the name of sGLP's empty strategy is queued nowhere.
no_empty_strategy :
    (a e : Bool)
    → contains Names.yb_sglp_asset_without_strategy (entry_names (queue_outline a e false)) ≡ false
no_empty_strategy true true = refl
no_empty_strategy true false = refl
no_empty_strategy false true = refl
no_empty_strategy false false = refl

module _ (hre : Hre) (deployed : List Deployed) (w : World) (penrose_of : Mapping ℕ) where
  load_shared-penrose :
      {s : Shared}
      → load_shared hre deployed ≡ ok s
      → find_address deployed Names.penrose ≡ ok s.penrose
  unfolding load_shared
  load_shared-penrose h =
      let (x, _, h1) = >>=-eq-ok (find_address deployed Names.simple_leverage_executor) _ h in
      let (p, hp, h2) = >>=-eq-ok (find_address deployed Names.penrose) _ h1 in
      let (u, _, h3) = >>=-eq-ok (find_address deployed Names.usdo) _ h2 in
      let (l, _, h4) = >>=-eq-ok (hre.load_local Names.yb_usdo_asset_without_strategy) _ h3 in
      let (i, _, h5) = >>=-eq-ok (find_address deployed Names.sgl_interest_helper) _ h4 in
      let (g, _, h6) = >>=-eq-ok (load_deployments_generic hre) _ h5 in
      hp ∙ ap (λ (s : Shared). ok s.penrose) (ok-injective h6)

  -- The market is initialised only if its strategy was deployed under that name.
  init_sglp_market-contains :
      (s : Shared) {cs : List Call}
      → ((m : ℕ) → (penrose_of m == s.penrose) ≡ false)
      → init_sglp_market hre s deployed w penrose_of ≡ ok cs
      → contains Names.yb_sglp_asset_without_strategy (deployed_names deployed) ≡ true
  unfolding init_sglp_market init_sgl_market sgl_init_calls
  init_sglp_market-contains s new h =
      let (d, _, h1) = >>=-eq-ok (load_deployments_arb hre) _ h in
      let (c, _, h2) = >>=-eq-ok (present (post_lbp hre.e_chain_id)) _ h1 in
      let (k, _, h3) = >>=-eq-ok (present c.tsglp_market_config) _ h2 in
      let (m, _, h4) = >>=-eq-ok (find_address deployed Names.sgl_s_glp_market) _ h3 in
      let h5 = sym (if-false (penrose_of m == s.penrose) _ _ (new m)) ∙ h4 in
      let (t, ht, _) =
        >>=-eq-ok (find_address deployed Names.yb_sglp_asset_without_strategy) _ h5 in
      find_address-only_contains deployed Names.yb_sglp_asset_without_strategy ht

  -- On Arbitrum itself, where what was deployed is what the deploy task queued and no market has the
  -- deployed Penrose yet, the initialisation of the markets throws.
  pub setup_init_and_register_market_off_testnet :
      {q : List Build}
      → deploy_task hre ≡ ok q
      → deployed_names deployed ≡ entry_names (outline q)
      → is_arbitrum hre ≡ true
      → hre.is_testnet ≡ false
      → ((m p : ℕ) → find_address deployed Names.penrose ≡ ok p → (penrose_of m == p) ≡ false)
      → (e : String) × (setup_init_and_register_market hre deployed w penrose_of ≡ fail e)
  unfolding setup_init_and_register_market
  setup_init_and_register_market_off_testnet queued names arb net new =
      elim (Outcome-cases (setup_init_and_register_market hre deployed w penrose_of)) [
        | inr f ↦ f
        | inl (r, h) ↦
            let (s, hs, h1) = >>=-eq-ok (load_shared hre deployed) _ h in
            let (x, _, h2) =
              >>=-eq-ok
                (if is_arbitrum hre then init_big_bangs hre s deployed w penrose_of else ok []) _
                h1 in
            let (y, _, h3) =
              >>=-eq-ok
                (if is_ethereum hre then init_sdai_market hre s deployed w penrose_of else ok []) _
                h2 in
            let (z, hz, _) =
              >>=-eq-ok
                (if is_arbitrum hre then init_sglp_market hre s deployed w penrose_of else ok []) _
                h3 in
            let there =
              init_sglp_market-contains s (λ m. new m s.penrose (load_shared-penrose hs))
                (sym (if-true (is_arbitrum hre) _ _ arb) ∙ hz) in
            let absent = no_empty_strategy (is_arbitrum hre) (is_ethereum hre) in
            let same = names ∙ ap entry_names (deploy_task-outline hre queued) in
            absurd (
              false≢true (
                sym absent
                ∙ ap
                    (λ t.
                      contains Names.yb_sglp_asset_without_strategy
                        (entry_names (queue_outline (is_arbitrum hre) (is_ethereum hre) t)))
                    (sym net)
                ∙ ap (contains Names.yb_sglp_asset_without_strategy) (sym same)
                ∙ there))
      ]
