-- ===== src/Setup/Markets/Follows.antt =====
-- The lookups of phase 2 of `setupPostLbp1` on Arbitrum's test network (tasks/deploy/postDepSetup).
use tapioca_lending_engine.Base.{
  ℕ, String, ◌≡◌, refl, sym, ap, ◌∙◌, subst, Bool, true, false, List, [], ok, present, if-true,
  if-false, Succeeds, >>=-Succeeds, contains, Mapping, if◌then◌else◌,
}
use tapioca_lending_engine.Sdk.{Hre, Deployed, arbitrum_sepolia}
use tapioca_lending_engine.Deploy.Names
use tapioca_lending_engine.Deploy.Loads.{
  GenericDeployments, ArbDeployments, is_arbitrum, is_ethereum, load_deployments_generic,
  load_deployments_arb,
}
use tapioca_lending_engine.Deploy.Queue.{entry_names, queue_outline}
use tapioca_lending_engine.Setup.World.{World}
use tapioca_lending_engine.Setup.Register.{
  find_address, register_minter_burner, setup_register_bb_as_minter_burner_in_usdo,
}
use tapioca_lending_engine.Setup.Served.{deployed_names, find_address-contains}
use tapioca_lending_engine.Setup.Markets.{Shared, load_shared, init_bb_market}
use tapioca_lending_engine.Deploy.Config.{post_lbp, post_lbp_arbitrum_sepolia}
use tapioca_lending_engine.Setup.Markets.Laws.{
  BbModules, SglModules, Registered, init_bb_market-ok, init_sgl_market-ok,
}
use tapioca_lending_engine.Setup.Markets.All.{
  init_big_bangs, init_sdai_market, init_sglp_market, setup_init_and_register_market, setup_phase2,
}
use tapioca_lending_engine.Setup.Markets.Prepared.{glp_strategy_name, ArbRegistered, Prepared}

-- The names that the deploy task queues on Arbitrum's test network
abbrev pub queued_names : Bool → List String
queued_names e = entry_names (queue_outline true e true)

module _ (hre : Hre) (deployed : List Deployed) (w : World) (penrose_of : Mapping ℕ) (e : Bool)
    (names : deployed_names deployed ≡ queued_names e) (chain : hre.e_chain_id ≡ arbitrum_sepolia)
    (testnet : hre.is_testnet ≡ true) where
  queued : (n : String) → contains n (queued_names e) ≡ true → Succeeds (find_address deployed n)
  queued n h = find_address-contains deployed n (ap (contains n) names ∙ h)

  config : present (post_lbp hre.e_chain_id) ≡ ok post_lbp_arbitrum_sepolia
  config = rw chain refl

  bb_modules : BbModules deployed
  bb_modules = (
    queued Names.bb_liquidation_module refl,
    queued Names.bb_borrow_module refl,
    queued Names.bb_collateral_module refl,
    queued Names.bb_leverage_module refl,
  )

  sgl_modules : SglModules deployed
  sgl_modules = (
    queued Names.sgl_liquidation_module refl,
    queued Names.sgl_borrow_module refl,
    queued Names.sgl_collateral_module refl,
    queued Names.sgl_leverage_module refl,
  )

  -- The shared addresses are found.
  load_shared-Succeeds :
      (g : GenericDeployments)
      → load_deployments_generic hre ≡ ok g
      → Succeeds (hre.load_local Names.yb_usdo_asset_without_strategy)
      → (s : Shared) × (load_shared hre deployed ≡ ok s) × (s.yield_box ≡ g.yield_box)
  unfolding load_shared
  load_shared-Succeeds g hg hl =
      let executor = queued Names.simple_leverage_executor refl in
      let p = queued Names.penrose refl in
      let u = queued Names.usdo refl in
      let helper = queued Names.sgl_interest_helper refl in
      (
        record {
          leverage_executor = executor.0;
          penrose = p.0;
          usdo = u.0;
          usdo_strategy = hl.0.address;
          interest_helper = helper.0;
          yield_box = g.yield_box;
        },
        rw (executor.1, p.1, u.1, hl.1, helper.1, hg) refl,
        refl,
      )

  init_big_bangs-Succeeds :
      (s : Shared) (d : ArbDeployments)
      → load_deployments_arb hre ≡ ok d
      → ArbRegistered hre deployed w s.yield_box d
      → Succeeds (init_big_bangs hre s deployed w penrose_of)
  unfolding init_big_bangs
  init_big_bangs-Succeeds s d hd reg =
      >>=-Succeeds (load_deployments_arb hre) _ (d, hd)
        (>>=-Succeeds (present (post_lbp hre.e_chain_id)) _ (post_lbp_arbitrum_sepolia, config)
          (>>=-Succeeds (init_bb_market s deployed w penrose_of _ _ _ _ _) _
            (init_bb_market-ok s deployed w penrose_of _ Names.bb_mt_eth_market _ d.mteth
              d.eth_market_oracle bb_modules (queued Names.bb_mt_eth_market refl) reg.1)
            (>>=-Succeeds (init_bb_market s deployed w penrose_of _ _ _ _ _) _
              (init_bb_market-ok s deployed w penrose_of _ Names.bb_t_reth_market _ d.treth
                d.treth_market_oracle bb_modules (queued Names.bb_t_reth_market refl) reg.2)
              (>>=-Succeeds (init_bb_market s deployed w penrose_of _ _ _ _ _) _
                (init_bb_market-ok s deployed w penrose_of _ Names.bb_t_wst_eth_market _ d.twsteth
                  d.twsteth_market_oracle bb_modules (queued Names.bb_t_wst_eth_market refl) reg.3)
                (_, refl)))))

  init_sglp_market-Succeeds :
      (s : Shared) (d : ArbDeployments)
      → load_deployments_arb hre ≡ ok d
      → ArbRegistered hre deployed w s.yield_box d
      → Succeeds (init_sglp_market hre s deployed w penrose_of)
  unfolding init_sglp_market
  init_sglp_market-Succeeds s d hd reg =
      >>=-Succeeds (load_deployments_arb hre) _ (d, hd)
        (>>=-Succeeds (present (post_lbp hre.e_chain_id)) _ (post_lbp_arbitrum_sepolia, config)
          (init_sgl_market-ok s deployed w penrose_of _ Names.sgl_s_glp_market
            Names.yb_sglp_asset_without_strategy d.tsglp d.tsglp_market_oracle sgl_modules
            (queued Names.sgl_s_glp_market refl)
            (subst (λ t. Registered deployed w s.yield_box d.tsglp (glp_strategy_name t)) testnet
              reg.0)))

  setup_init_and_register_market-Succeeds :
      is_arbitrum hre ≡ true
      → is_ethereum hre ≡ false
      → Succeeds (hre.load_local Names.yb_usdo_asset_without_strategy)
      → Prepared hre deployed w
      → Succeeds (setup_init_and_register_market hre deployed w penrose_of)
  unfolding setup_init_and_register_market
  setup_init_and_register_market-Succeeds arb eth hl (g, hg, d, hd, reg) =
      let (s, hs, yb) = load_shared-Succeeds g hg hl in
      let reg_s : ArbRegistered hre deployed w s.yield_box d =
        subst (λ y. ArbRegistered hre deployed w y d) (sym yb) reg in
      let (bb, hbb) = init_big_bangs-Succeeds s d hd reg_s in
      let (sgl, hsgl) = init_sglp_market-Succeeds s d hd reg_s in
      >>=-Succeeds (load_shared hre deployed) _ (s, hs)
        (>>=-Succeeds
          (if is_arbitrum hre then init_big_bangs hre s deployed w penrose_of else ok []) _
          (bb, if-true (is_arbitrum hre) _ _ arb ∙ hbb)
          (>>=-Succeeds
            (if is_ethereum hre then init_sdai_market hre s deployed w penrose_of else ok []) _
            ([], if-false (is_ethereum hre) _ _ eth)
            (>>=-Succeeds
              (if is_arbitrum hre then init_sglp_market hre s deployed w penrose_of else ok []) _
              (sgl, if-true (is_arbitrum hre) _ _ arb ∙ hsgl) (_, refl))))

  setup_register_bb_as_minter_burner_in_usdo-Succeeds :
      is_arbitrum hre ≡ true → Succeeds (setup_register_bb_as_minter_burner_in_usdo hre deployed)
  unfolding setup_register_bb_as_minter_burner_in_usdo
  setup_register_bb_as_minter_burner_in_usdo-Succeeds arb =
      let mt = queued Names.bb_mt_eth_market refl in
      let r = queued Names.bb_t_reth_market refl in
      let wst = queued Names.bb_t_wst_eth_market refl in
      let u = queued Names.usdo refl in
      let one : (m : ℕ) → Succeeds (register_minter_burner hre deployed m) =
        λ m. >>=-Succeeds (find_address deployed Names.usdo) _ u (_, refl) in
      rw arb (
        >>=-Succeeds (find_address deployed Names.bb_mt_eth_market) _ mt (
          >>=-Succeeds (find_address deployed Names.bb_t_reth_market) _ r (
            >>=-Succeeds (find_address deployed Names.bb_t_wst_eth_market) _ wst (
              >>=-Succeeds (register_minter_burner hre deployed mt.0) _ (one mt.0) (
                >>=-Succeeds (register_minter_burner hre deployed r.0) _ (one r.0) (
                  >>=-Succeeds (register_minter_burner hre deployed wst.0) _ (one wst.0)
                    (_, refl)))))))

  pub setup_phase2-Succeeds :
      is_arbitrum hre ≡ true
      → is_ethereum hre ≡ false
      → Succeeds (hre.load_local Names.yb_usdo_asset_without_strategy)
      → Prepared hre deployed w
      → Succeeds (setup_phase2 hre deployed w penrose_of)
  unfolding setup_phase2
  setup_phase2-Succeeds arb eth hl pre =
      >>=-Succeeds (setup_init_and_register_market hre deployed w penrose_of) _
        (setup_init_and_register_market-Succeeds arb eth hl pre)
        (>>=-Succeeds (setup_register_bb_as_minter_burner_in_usdo hre deployed) _
          (setup_register_bb_as_minter_burner_in_usdo-Succeeds arb) (_, refl))
