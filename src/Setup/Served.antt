-- ===== src/Setup/Served.antt =====
-- The names by which the setup looks up what was deployed, against the names that the deploy task queues.
use tapioca_lending_engine.Base.{
  ℕ, String, str_eq, ◌≡◌, refl, sym, ◌∙◌, ap, Bool, true, false, Bool-cases, inl, inr, List, [],
  ◌∷◌, Outcome, ok, fail, >>=-eq-ok, contains, Outcome-cases,
}
use mathlib.Core.Bool.{false≢true}
use tapioca_lending_engine.Sdk.{Hre, Deployed, Build}
use tapioca_lending_engine.Deploy.Names
use tapioca_lending_engine.Deploy.Loads.{is_arbitrum, is_ethereum}
use tapioca_lending_engine.Deploy.Task1.{deploy_task}
use tapioca_lending_engine.Deploy.Queue.{outline, entry_names, queue_outline, deploy_task-outline}
use tapioca_lending_engine.Setup.Register.{
  find_address, setup_usdo_in_penrose, setup_register_mc_in_penrose,
  setup_register_bb_and_sgl_markets_in_penrose, setup_register_big_bang_eth_market,
}
use tapioca_lending_engine.Setup.Phase1.{setup_items}

abbrev pub deployed_names : List Deployed → List String
deployed_names [] = []
deployed_names (d ∷ ds) = d.name ∷ deployed_names ds

-- A name is found if it is there, and only then.
pub find_address-contains :
    (ds : List Deployed) (n : String)
    → contains n (deployed_names ds) ≡ true
    → (a : ℕ) × (find_address ds n ≡ ok a)
unfolding find_address
find_address-contains [] n h = cc
find_address-contains (d ∷ ds) n h = elim (Bool-cases (str_eq d.name n)) [
  | inl here ↦ (d.address, rw here)
  | inr there ↦ let (a, e) = find_address-contains ds n (rw there at h) in (a, rw (there, e))
]

pub find_address-only_contains :
    (ds : List Deployed) (n : String) {a : ℕ}
    → find_address ds n ≡ ok a
    → contains n (deployed_names ds) ≡ true
unfolding find_address
find_address-only_contains [] n h = cc
find_address-only_contains (d ∷ ds) n h = elim (Bool-cases (str_eq d.name n)) [
  | inl here ↦ rw here
  | inr there ↦ rw there (find_address-only_contains ds n (rw there at h))
]

-- Off Arbitrum the name of the main market is queued nowhere.
no_main_market :
    (e t : Bool) → contains Names.bb_mt_eth_market (entry_names (queue_outline false e t)) ≡ false
no_main_market true true = refl
no_main_market true false = refl
no_main_market false true = refl
no_main_market false false = refl

-- On a chain that is not Arbitrum or its test network, where what was deployed is what the deploy task
-- queued, the setup of phase 1 throws: it looks up a market that only Arbitrum has.
pub setup_items_off_arbitrum :
    (create : Hre → String → ℕ → Outcome Hre) (hre : Hre) (deployed : List Deployed)
    {q : List Build}
    → deploy_task hre ≡ ok q
    → deployed_names deployed ≡ entry_names (outline q)
    → is_arbitrum hre ≡ false
    → (e : String) × (setup_items create hre deployed ≡ fail e)
unfolding setup_items setup_register_big_bang_eth_market
setup_items_off_arbitrum create hre deployed {q} queued names off =
    elim (Outcome-cases (setup_items create hre deployed)) [
      | inr f ↦ f
      | inl (r, h) ↦
          let (a, ha, h1) = >>=-eq-ok (setup_usdo_in_penrose create hre deployed) _ h in
          let (b, hb, h2) = >>=-eq-ok (setup_register_mc_in_penrose a.0 deployed) _ h1 in
          let (c, hc, h3) =
            >>=-eq-ok (setup_register_bb_and_sgl_markets_in_penrose a.0 deployed) _ h2 in
          let (d, hd, h4) = >>=-eq-ok (setup_register_big_bang_eth_market a.0 deployed) _ h3 in
          let (p, hp, h5) = >>=-eq-ok (find_address deployed Names.penrose) _ hd in
          let (m, hm, h6) = >>=-eq-ok (find_address deployed Names.bb_mt_eth_market) _ h5 in
          let there : contains Names.bb_mt_eth_market (deployed_names deployed) ≡ true =
            find_address-only_contains deployed Names.bb_mt_eth_market hm in
          let same : deployed_names deployed
              ≡ entry_names (queue_outline (is_arbitrum hre) (is_ethereum hre) hre.is_testnet) =
            names ∙ ap entry_names (deploy_task-outline hre queued) in
          absurd (
            false≢true (
              sym (no_main_market (is_ethereum hre) hre.is_testnet)
              ∙ ap
                  (λ b.
                    contains Names.bb_mt_eth_market
                      (entry_names (queue_outline b (is_ethereum hre) hre.is_testnet)))
                  (sym off)
              ∙ ap (contains Names.bb_mt_eth_market) (sym same)
              ∙ there))
    ]
