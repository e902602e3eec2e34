-- ===== src/Deploy/Queue.antt =====
-- The order of the builds of `tapiocaDeployTask` of tasks/deploy/1-1-deployPostLbp.ts, and an outline of it by
-- chain.
mod Outline
pub use Outline.*
use tapioca_lending_engine.Base.{
  ℕ, String, ◌≡◌, refl, Bool, true, false, ◌&&◌, List, [], ◌∷◌, ◌++◌, Outcome, ok, >>=-eq-ok,
  ok-injective, present, if◌then◌else◌, distinct, subset, ap, ◌∙◌, subst, arith,
}
use mathlib.Core.Path.{ap₂}
use tapioca_lending_engine.Sdk.{Hre, Build, Dependency}
use tapioca_lending_engine.Deploy.Names
use tapioca_lending_engine.Deploy.Config.{misc_weth}
use tapioca_lending_engine.Deploy.Loads.{
  GenericDeployments, ArbDeployments, EthDeployments, is_arbitrum, is_ethereum,
  load_deployments_generic, load_deployments_arb, load_deployments_eth,
}
use tapioca_lending_engine.Deploy.Builds.{build_penrose}
use tapioca_lending_engine.Deploy.Task1.{
  common_builds, generic_builds, arb_builds, eth_builds, sglp_strategy, sdai_strategy, deploy_task,
}

-- The build of Penrose is as the order wants it.
abbrev IsPenrose : Build → Type 0
IsPenrose p = (p.deployment_name ≡ Names.penrose) × (p.depends_on ≡ [])

build_penrose-IsPenrose :
    (hre : Hre) (yb cl tap pm t w o : ℕ) {p : Build}
    → build_penrose hre yb cl tap pm t w o ≡ ok p
    → IsPenrose p
unfolding build_penrose
build_penrose-IsPenrose hre yb cl tap pm t w o h =
    let (weth, hw, e) = >>=-eq-ok (present (misc_weth hre.e_chain_id)) _ h in
    subst IsPenrose (ok-injective e) (refl, refl)

common_builds-outline :
    (hre : Hre) (g : GenericDeployments) (weth : ℕ) (p : Build)
    → IsPenrose p
    → outline (common_builds hre g weth p) ≡ common_outline
common_builds-outline hre g weth p h =
    ap₂
      (λ (n : String) (d : List Dependency).
        outline (common_builds hre g weth (record p { deployment_name = n; depends_on = d })))
      h.0 h.1

generic_builds-outline :
    (hre : Hre) {q : List Build} → generic_builds hre ≡ ok q → outline q ≡ common_outline
unfolding generic_builds
generic_builds-outline hre h =
    let (g, hg, h1) = >>=-eq-ok (load_deployments_generic hre) _ h in
    let (weth, hw, h2) = >>=-eq-ok (present (misc_weth hre.e_chain_id)) _ h1 in
    let (t, ht, h3) = >>=-eq-ok (present g.tap_strat_with_asset.yb_asset_id) _ h2 in
    let (v, hv, h4) = >>=-eq-ok (present g.weth_strat_with_asset.yb_asset_id) _ h3 in
    let (p, hp, h5) =
      >>=-eq-ok
        (build_penrose hre g.yield_box g.cluster g.tap_token g.pearlmit t v hre.multicall_addr) _
        h4 in
    subst (λ l. outline l ≡ common_outline) (ok-injective h5)
      (common_builds-outline hre g weth p (
        build_penrose-IsPenrose hre g.yield_box g.cluster g.tap_token g.pearlmit t v
          hre.multicall_addr hp))

-- The outline of one build with no dependency
abbrev IsPlain : String → Build → Type 0
IsPlain n b = (b.deployment_name ≡ n) × (b.depends_on ≡ [])

sglp_strategy-IsPlain :
    (hre : Hre) (d : ArbDeployments) {b : Build}
    → sglp_strategy hre d ≡ ok b
    → IsPlain
        (if hre.is_testnet
          then Names.yb_sglp_asset_without_strategy
          else Names.yb_sglp_asset_with_strategy)
        b
unfolding sglp_strategy
sglp_strategy-IsPlain hre d h = ground arith

sdai_strategy-IsPlain :
    (hre : Hre) (d : EthDeployments) {b : Build}
    → sdai_strategy hre d ≡ ok b
    → IsPlain
        (if hre.is_testnet
          then Names.yb_sdai_asset_without_strategy
          else Names.yb_sdai_asset_with_strategy)
        b
unfolding sdai_strategy
sdai_strategy-IsPlain hre d h = ground arith

arb_builds-outline :
    (hre : Hre) {q : List Build} → arb_builds hre ≡ ok q → outline q ≡ arb_outline hre.is_testnet
unfolding arb_builds
arb_builds-outline hre h =
    let (d, hd, h1) = >>=-eq-ok (load_deployments_arb hre) _ h in
    let (glp, hg, h2) = >>=-eq-ok (sglp_strategy hre d) _ h1 in
    let is = sglp_strategy-IsPlain hre d hg in
    subst (λ l. outline l ≡ arb_outline hre.is_testnet) (ok-injective h2) (rw (is.0, is.1) refl)

eth_builds-outline :
    (hre : Hre) {q : List Build} → eth_builds hre ≡ ok q → outline q ≡ eth_outline hre.is_testnet
unfolding eth_builds
eth_builds-outline hre h =
    let (d, hd, h1) = >>=-eq-ok (load_deployments_eth hre) _ h in
    let (sdai, hg, h2) = >>=-eq-ok (sdai_strategy hre d) _ h1 in
    let is = sdai_strategy-IsPlain hre d hg in
    subst (λ l. outline l ≡ eth_outline hre.is_testnet) (ok-injective h2) (rw (is.0, is.1) refl)

-- A part that a test on the chain chooses
choice-outline :
    (b : Bool) (m : Outcome (List Build)) (es : List Entry)
    → ((q : List Build) → m ≡ ok q → outline q ≡ es)
    → {q : List Build} → (if b then m else ok []) ≡ ok q
    → outline q ≡ (if b then es else [])
choice-outline true m es f {q} h = f q h
choice-outline false m es f h = subst (λ l. outline l ≡ []) (ok-injective h) refl

append3-outline :
    (c a e : List Build) {x y z : List Entry}
    → outline c ≡ x
    → outline a ≡ y
    → outline e ≡ z
    → outline (c ++ a ++ e) ≡ x ++ y ++ z
append3-outline c a e p q r = rw (outline-append (c ++ a) e, outline-append c a, p, q, r) refl

-- If the task queues its builds, then the queue has the names and the dependencies of the chain's
-- outline: the common ones, those of Arbitrum and those of the chains with sDAI.
pub deploy_task-outline :
    (hre : Hre) {q : List Build}
    → deploy_task hre ≡ ok q
    → outline q ≡ queue_outline (is_arbitrum hre) (is_ethereum hre) hre.is_testnet
unfolding deploy_task
deploy_task-outline hre h =
    let (c, hc, h1) = >>=-eq-ok (generic_builds hre) _ h in
    let (a, ha, h2) = >>=-eq-ok (if is_arbitrum hre then arb_builds hre else ok []) _ h1 in
    let (e, he, h3) = >>=-eq-ok (if is_ethereum hre then eth_builds hre else ok []) _ h2 in
    let pa =
      choice-outline (is_arbitrum hre) (arb_builds hre) (arb_outline hre.is_testnet)
        (λ q k. arb_builds-outline hre k) ha in
    let pe =
      choice-outline (is_ethereum hre) (eth_builds hre) (eth_outline hre.is_testnet)
        (λ q k. eth_builds-outline hre k) he in
    subst (λ l. outline l ≡ queue_outline (is_arbitrum hre) (is_ethereum hre) hre.is_testnet)
      (ok-injective h3) (append3-outline c a e (generic_builds-outline hre hc) pa pe)

-- If the task queues its builds, then each build comes after all of the builds that it depends on.
pub deploy_task-ordered :
    (hre : Hre) {q : List Build} → deploy_task hre ≡ ok q → ordered [] (outline q) ≡ true
deploy_task-ordered hre h =
    ap (ordered []) (deploy_task-outline hre h)
    ∙ queue_outline-ordered (is_arbitrum hre) (is_ethereum hre) hre.is_testnet

-- If the task queues its builds, then no two of them have the same name.
pub deploy_task-distinct :
    (hre : Hre) {q : List Build}
    → deploy_task hre ≡ ok q
    → distinct (entry_names (outline q)) ≡ true
deploy_task-distinct hre h =
    ap (λ (es : List Entry). distinct (entry_names es)) (deploy_task-outline hre h)
    ∙ queue_outline-distinct (is_arbitrum hre) (is_ethereum hre) hre.is_testnet
