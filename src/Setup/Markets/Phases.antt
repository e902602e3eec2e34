-- ===== src/Setup/Markets/Phases.antt =====
-- The two multicalls of `setupPostLbp1`, one after the other.
use tapioca_lending_engine.Base.{
  ℕ, String, ◌≡◌, refl, sym, ap, ◌∙◌, subst, Bool, true, false, List, Outcome, ok, Succeeds,
  >>=-eq-ok, ok-injective, Mapping,
}
use tapioca_lending_engine.Sdk.{Hre, Deployed, Call, arbitrum_sepolia}
use tapioca_lending_engine.Deploy.Names
use tapioca_lending_engine.Deploy.Loads.{is_arbitrum, is_ethereum}
use tapioca_lending_engine.Setup.World.{World, Outside, run_calls}
use tapioca_lending_engine.Setup.Item.{pending}
use tapioca_lending_engine.Setup.YbAssets.{setup_create_yb_assets}
use tapioca_lending_engine.Setup.Served.{deployed_names}
use tapioca_lending_engine.Setup.Stable.{Registers}
use tapioca_lending_engine.Setup.Converge.{AllMet, run_pending_met}
use tapioca_lending_engine.Setup.Phase1.{setup_items, setup_phase1}
use tapioca_lending_engine.Setup.Phase1.Converges.{plan, setup_items-Fits}
use tapioca_lending_engine.Setup.Markets.All.{setup_phase2}
use tapioca_lending_engine.Setup.Markets.Prepared.{
  setup_create_yb_assets-Prepared, setup_items-assets,
}
use tapioca_lending_engine.Setup.Markets.Follows.{queued_names, setup_phase2-Succeeds}

-- On Arbitrum's test network, where what was deployed is what the deploy task queues there: if phase 1
-- has produced its calls and the multicall went through, then phase 2 throws nowhere and has its calls,
-- whatever the markets answer to `_penrose()`. Assumed are a YieldBox that registers an asset under an id
-- that is not 0 and takes no id away, that the contracts know the chain by the id that the tasks use,
-- and that the database holds USDO's strategy.
pub setup_phase2_follows :
    (outside : Outside)
    → Registers outside
    → (sender : ℕ) (create : Hre → String → ℕ → Outcome Hre) (hre : Hre) (deployed : List Deployed)
      (w : World) (penrose_of : Mapping ℕ) (e : Bool) {hre' : Hre} {calls : List Call} {w' : World}
    → setup_phase1 create hre deployed w ≡ ok (hre', calls)
    → ((u : ℕ) → (w.usdo_at u).chain_id ≡ hre'.lz_chain_id)
    → run_calls outside sender calls w ≡ ok w'
    → deployed_names deployed ≡ queued_names e
    → hre'.chain_name ≡ "arbitrum_sepolia"
    → hre'.e_chain_id ≡ arbitrum_sepolia
    → hre'.is_testnet ≡ true
    → Succeeds (hre'.load_local Names.yb_usdo_asset_without_strategy)
    → Succeeds (setup_phase2 hre' deployed w' penrose_of)
unfolding setup_phase1
setup_phase2_follows outside law sender create hre deployed w penrose_of e {hre'} {calls} {w'} h ch
      run names name chain testnet local =
    let (r, items, h1) = >>=-eq-ok (setup_items create hre deployed) _ h in
    let same_hre : r.0 ≡ hre' = ap (λ (x : Hre × List Call). x.0) (ok-injective h1) in
    let same_calls : pending r.1 w ≡ calls = ap (λ (x : Hre × List Call). x.1) (ok-injective h1) in
    let all : AllMet r.1 w' =
      run_pending_met outside law sender (plan deployed r.0.lz_chain_id) r.1 w
        (setup_items-Fits create hre deployed items)
        (λ u. ch u ∙ sym (ap (λ (x : Hre). x.lz_chain_id) same_hre))
        (subst (λ c. run_calls outside sender c w ≡ ok w') (sym same_calls) run) in
    let (is, made, met) = setup_items-assets create hre deployed w' items all in
    let made' : setup_create_yb_assets hre' deployed ≡ ok is =
      subst (λ x. setup_create_yb_assets x deployed ≡ ok is) same_hre made in
    let arb : is_arbitrum hre' ≡ true = rw name refl in
    let eth : is_ethereum hre' ≡ false = rw name refl in
    setup_phase2-Succeeds hre' deployed w' penrose_of e names chain testnet arb eth local
      (setup_create_yb_assets-Prepared hre' deployed w' arb eth made' met)
