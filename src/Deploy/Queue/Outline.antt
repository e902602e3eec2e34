-- ===== src/Deploy/Queue/Outline.antt =====
-- The names and the dependencies of the builds of tasks/deploy/1-1-deployPostLbp.ts, by chain.
use tapioca_lending_engine.Base.{
  String, ◌≡◌, refl, Bool, true, false, ◌&&◌, List, [], ◌∷◌, ◌++◌, if◌then◌else◌, distinct, subset,
}
use tapioca_lending_engine.Sdk.{Build, Dependency}
use tapioca_lending_engine.Deploy.Names

-- A build as the order sees it: its name and the names that it depends on.
abbrev pub Entry : Type 0
Entry = String × List String

abbrev pub dependency_names : List Dependency → List String
dependency_names [] = []
dependency_names (d ∷ ds) = d.deployment_name ∷ dependency_names ds

abbrev pub outline : List Build → List Entry
outline [] = []
outline (b ∷ bs) = (b.deployment_name, dependency_names b.depends_on) ∷ outline bs

abbrev pub entry_names : List Entry → List String
entry_names [] = []
entry_names (e ∷ es) = e.0 ∷ entry_names es

-- Each entry comes after all that it depends on; `before` is what comes before them all.
abbrev pub ordered : List String → List Entry → Bool
ordered before [] = true
ordered before (e ∷ es) = subset e.1 before && ordered (e.0 ∷ before) es

pub outline-append : (xs ys : List Build) → outline (xs ++ ys) ≡ outline xs ++ outline ys
outline-append [] ys = refl
outline-append (x ∷ xs) ys = rw (outline-append xs ys)

-- An entry with no dependency
abbrev plain : String → Entry
plain s = (s, [])

abbrev pub common_outline : List Entry
common_outline =
    plain Names.usdo_sender_module
    ∷ plain Names.usdo_receiver_module
    ∷ plain Names.usdo_market_receiver_module
    ∷ plain Names.usdo_option_receiver_module
    ∷ plain Names.usdo_ext_exec
    ∷ plain Names.simple_leverage_executor
    ∷ (
      Names.usdo,
      Names.usdo_ext_exec ∷ Names.usdo_market_receiver_module ∷ Names.usdo_option_receiver_module
          ∷ Names.usdo_receiver_module ∷ Names.usdo_sender_module ∷ [],
    )
    ∷ (Names.usdo_flashloan_helper, Names.usdo ∷ [])
    ∷ plain Names.sgl_liquidation_module
    ∷ plain Names.sgl_borrow_module
    ∷ plain Names.sgl_collateral_module
    ∷ plain Names.sgl_leverage_module
    ∷ plain Names.penrose
    ∷ plain Names.sgl_medium_risk_mc
    ∷ plain Names.sgl_interest_helper
    ∷ plain Names.market_helper
    ∷ []

abbrev pub arb_outline : Bool → List Entry
arb_outline testnet =
    plain Names.bb_liquidation_module
    ∷ plain Names.bb_borrow_module
    ∷ plain Names.bb_collateral_module
    ∷ plain Names.bb_leverage_module
    ∷ plain Names.yb_mt_eth_asset_without_strategy
    ∷ plain Names.yb_t_eth_asset_without_strategy
    ∷ plain Names.yb_t_reth_asset_without_strategy
    ∷ plain Names.yb_t_wst_eth_asset_without_strategy
    ∷ plain Names.bb_medium_risk_mc
    ∷ plain Names.bb_mt_eth_market
    ∷ plain Names.bb_t_reth_market
    ∷ plain Names.bb_t_wst_eth_market
    ∷ plain (
        if testnet then Names.yb_sglp_asset_without_strategy else Names.yb_sglp_asset_with_strategy)
    ∷ plain Names.sgl_s_glp_market
    ∷ []

abbrev pub eth_outline : Bool → List Entry
eth_outline testnet =
    plain
      (if testnet then Names.yb_sdai_asset_without_strategy else Names.yb_sdai_asset_with_strategy)
    ∷ plain Names.sgl_s_dai_market
    ∷ []

-- What is queued, by the three tests on the chain
abbrev pub queue_outline : Bool → Bool → Bool → List Entry
queue_outline arb eth testnet =
    common_outline
    ++ (if arb then arb_outline testnet else [])
    ++ (if eth then eth_outline testnet else [])

pub queue_outline-ordered : (a e t : Bool) → ordered [] (queue_outline a e t) ≡ true
queue_outline-ordered true true true = refl
queue_outline-ordered true true false = refl
queue_outline-ordered true false true = refl
queue_outline-ordered true false false = refl
queue_outline-ordered false true true = refl
queue_outline-ordered false true false = refl
queue_outline-ordered false false true = refl
queue_outline-ordered false false false = refl

pub queue_outline-distinct : (a e t : Bool) → distinct (entry_names (queue_outline a e t)) ≡ true
queue_outline-distinct true true true = refl
queue_outline-distinct true true false = refl
queue_outline-distinct true false true = refl
queue_outline-distinct true false false = refl
queue_outline-distinct false true true = refl
queue_outline-distinct false true false = refl
queue_outline-distinct false false true = refl
queue_outline-distinct false false false = refl
