-- ===== src/Setup/Phase1/Converges.antt =====
-- Phase 1 of `setupPostLbp1` (tasks/deploy/1-1-setupPostLbp.ts), run a second time.
use tapioca_lending_engine.Base.{
  ℕ, String, ◌≡◌, List, [], Outcome, ok, fail, arith, >>=-eq-ok, ok-injective, subst, ap, sym, ◌∙◌,
}
use mathlib.Core.Path.{ap₂}
use tapioca_lending_engine.Sdk.{Hre, Deployed, Call}
use tapioca_lending_engine.Deploy.Names
use tapioca_lending_engine.Setup.World.{World, Outside, run_calls}
use tapioca_lending_engine.Setup.Item.{Item, pending}
use tapioca_lending_engine.Setup.Register.{
  find_address, setup_usdo_in_penrose, setup_register_mc_in_penrose,
  setup_register_bb_and_sgl_markets_in_penrose, setup_register_big_bang_eth_market,
  setup_usdo_flashloan_helper_in_usdo,
}
use tapioca_lending_engine.Setup.YbAssets.{setup_create_yb_assets}
use tapioca_lending_engine.Setup.Stable.{Plan, Registers}
use tapioca_lending_engine.Setup.Converge.{Fits, Fits-append, run_pending}
use tapioca_lending_engine.Setup.Phase1.{setup_items, setup_phase1}

-- The address found, or 0
abbrev pub found : Outcome ℕ → ℕ
found (ok a) = a
found (fail _) = 0

-- The values of a setup: the addresses of the deployment, and the chain's id.
abbrev pub plan : List Deployed → ℕ → Plan
plan deployed chain = record {
  usdo = found (find_address deployed Names.usdo);
  main_market = found (find_address deployed Names.bb_mt_eth_market);
  helper = found (find_address deployed Names.usdo_flashloan_helper);
  chain = chain;
}

module _ (hre : Hre) (deployed : List Deployed) where
  usdo-Fits :
      (create : Hre → String → ℕ → Outcome Hre) (chain : ℕ) {r : Hre × List Item}
      → setup_usdo_in_penrose create hre deployed ≡ ok r
      → Fits (plan deployed chain) r.1
  unfolding setup_usdo_in_penrose
  usdo-Fits create chain h = ground arith

  mc-Fits :
      (chain : ℕ) {is : List Item}
      → setup_register_mc_in_penrose hre deployed ≡ ok is
      → Fits (plan deployed chain) is
  unfolding setup_register_mc_in_penrose
  mc-Fits chain h = ground arith

  markets-Fits :
      (chain : ℕ) {is : List Item}
      → setup_register_bb_and_sgl_markets_in_penrose hre deployed ≡ ok is
      → Fits (plan deployed chain) is
  unfolding setup_register_bb_and_sgl_markets_in_penrose
  markets-Fits chain h = ground arith

  main_market-Fits :
      (chain : ℕ) {is : List Item}
      → setup_register_big_bang_eth_market hre deployed ≡ ok is
      → Fits (plan deployed chain) is
  unfolding setup_register_big_bang_eth_market
  main_market-Fits chain h = ground arith

  flashloan-Fits :
      {is : List Item}
      → setup_usdo_flashloan_helper_in_usdo hre deployed ≡ ok is
      → Fits (plan deployed hre.lz_chain_id) is
  unfolding setup_usdo_flashloan_helper_in_usdo
  flashloan-Fits h = ground arith

  assets-Fits :
      (chain : ℕ) {is : List Item}
      → setup_create_yb_assets hre deployed ≡ ok is
      → Fits (plan deployed chain) is
  unfolding setup_create_yb_assets
  assets-Fits chain h = ground arith

-- The steps of phase 1 agree on the addresses of the deployment.
pub setup_items-Fits :
    (create : Hre → String → ℕ → Outcome Hre) (hre : Hre) (deployed : List Deployed)
    {r : Hre × List Item}
    → setup_items create hre deployed ≡ ok r
    → Fits (plan deployed r.0.lz_chain_id) r.1
unfolding setup_items
setup_items-Fits create hre deployed h =
    let (a, ha, h1) = >>=-eq-ok (setup_usdo_in_penrose create hre deployed) _ h in
    let (b, hb, h2) = >>=-eq-ok (setup_register_mc_in_penrose a.0 deployed) _ h1 in
    let (c, hc, h3) = >>=-eq-ok (setup_register_bb_and_sgl_markets_in_penrose a.0 deployed) _ h2 in
    let (d, hd, h4) = >>=-eq-ok (setup_register_big_bang_eth_market a.0 deployed) _ h3 in
    let (f, hf, h5) = >>=-eq-ok (setup_usdo_flashloan_helper_in_usdo a.0 deployed) _ h4 in
    let (g, hg, h6) = >>=-eq-ok (setup_create_yb_assets a.0 deployed) _ h5 in
    let e = plan deployed a.0.lz_chain_id in
    let n = a.0.lz_chain_id in
    subst (λ (r : Hre × List Item). Fits (plan deployed r.0.lz_chain_id) r.1) (ok-injective h6)
      (Fits-append e a.1 _ (usdo-Fits hre deployed create n ha) (
        Fits-append e b _ (mc-Fits a.0 deployed n hb) (
          Fits-append e c _ (markets-Fits a.0 deployed n hc) (
            Fits-append e d _ (main_market-Fits a.0 deployed n hd) (
              Fits-append e f g (flashloan-Fits a.0 deployed hf)
                (assets-Fits a.0 deployed n hg))))))

-- If the setup of phase 1 has produced its calls and the multicall went through, then the setup run
-- again produces no call. Assumed of the chain: YieldBox registers an asset under an id that is not 0
-- and takes no id away, and the contracts know the chain by the id that the tasks use.
pub setup_phase1_again :
    (outside : Outside)
    → Registers outside
    → (sender : ℕ) (create : Hre → String → ℕ → Outcome Hre) (hre : Hre) (deployed : List Deployed)
      (w : World) {hre' : Hre} {calls : List Call} {w' : World}
    → setup_phase1 create hre deployed w ≡ ok (hre', calls)
    → ((u : ℕ) → (w.usdo_at u).chain_id ≡ hre'.lz_chain_id)
    → run_calls outside sender calls w ≡ ok w'
    → setup_phase1 create hre deployed w' ≡ ok (hre', [])
unfolding setup_phase1
setup_phase1_again outside law sender create hre deployed w {hre'} {calls} {w'} h ch run =
    let (r, items, h1) = >>=-eq-ok (setup_items create hre deployed) _ h in
    let same_hre : r.0 ≡ hre' = ap (λ (x : Hre × List Call). x.0) (ok-injective h1) in
    let same_calls : pending r.1 w ≡ calls = ap (λ (x : Hre × List Call). x.1) (ok-injective h1) in
    let none_left : pending r.1 w' ≡ [] =
      run_pending outside law sender (plan deployed r.0.lz_chain_id) r.1 w
        (setup_items-Fits create hre deployed items)
        (λ u. ch u ∙ sym (ap (λ (x : Hre). x.lz_chain_id) same_hre)) (rw same_calls run) in
    rw items (ap₂ (λ (x : Hre) (l : List Call). ok (x, l)) same_hre none_left)
