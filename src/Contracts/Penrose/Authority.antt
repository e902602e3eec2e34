-- ===== src/Contracts/Penrose/Authority.antt =====
-- The callers of contracts/Penrose.sol, and a market that is unregistered and added again.
use tapioca_lending_engine.Base.{
  ℕ, suc, ◌≡◌, ◌⊎◌, List, [], ◌∷◌, ◌++◌, ok, arith, ==_iff, ==_refl, ◌+◌, sym, ap, ◌∙◌, >>=-eq-ok,
  ok-injective,
}
use tapioca_lending_engine.Contracts.Penrose.{
  Penrose, only_owner, set_cluster, set_conservator, update_pause, set_usdo_token,
  register_singularity_master_contract, register_big_bang_master_contract, deploy,
  register_singularity, register_big_bang, add_singularity, add_big_bang, add_origins_market,
  remove_listed, unregister_contract, set_big_bang_eth_market, set_big_bang_eth_market_debt_rate,
}
use tapioca_lending_engine.Contracts.Penrose.Arrays.{swap_remove}
use tapioca_lending_engine.Contracts.Penrose.Remove.{count}
use tapioca_lending_engine.Contracts.Penrose.Invariant.{
  Step, by_set_cluster, by_set_conservator, by_update_pause, by_set_usdo_token, by_register_sgl_mc,
  by_register_bb_mc, by_deploy, by_register_sgl, by_register_bb, by_add_sgl, by_add_bb,
  by_add_origins, by_unregister, by_set_main, by_set_rate,
}

-- The caller of a step
abbrev pub sender_of : {p p' : Penrose} → Step p p' → ℕ
sender_of (by_set_cluster s c e) = s
sender_of (by_set_conservator s c e) = s
sender_of (by_update_pause s b e) = s
sender_of (by_set_usdo_token s t i e) = s
sender_of (by_register_sgl_mc s mc k e) = s
sender_of (by_register_bb_mc s mc k e) = s
sender_of (by_deploy s mc a e) = s
sender_of (by_register_sgl s mc a c e) = s
sender_of (by_register_bb s mc a c e) = s
sender_of (by_add_sgl s mc a e) = s
sender_of (by_add_bb s mc a e) = s
sender_of (by_add_origins s a e) = s
sender_of (by_unregister s a t e) = s
sender_of (by_set_main s a l e) = s
sender_of (by_set_rate s a l e) = s

-- A step keeps the owner, and either the owner makes it, or the conservator makes it and no market is
-- registered or unregistered by it.
abbrev pub IsAllowed : Penrose → Penrose → ℕ → Type 0
IsAllowed p p' s =
    (p'.owner ≡ p.owner)
    × ((s ≡ p.owner) ⊎ (s ≡ p.conservator) × (p'.is_market_registered ≡ p.is_market_registered))

unregister_contract-IsAllowed :
    (s a t : ℕ) (p : Penrose) {p' : Penrose}
    → unregister_contract s a t p ≡ ok p'
    → IsAllowed p p' s
unfolding unregister_contract
unregister_contract-IsAllowed s a t p e =
    let (_, own, e1) = >>=-eq-ok (only_owner s p) _ e in
    let (_, _, e2) = >>=-eq-ok (remove_listed a t p) _ e1 in
    let (l, _, e3) = >>=-eq-ok (swap_remove (p.clones_of (p.master_contract_of a)) a) _ e2 in
    (ap (λ (q : Penrose). q.owner) (sym (ok-injective e3)), ground (arith, ==_iff s p.owner))

-- Each call that changes the registry keeps the owner, and is made by the owner, or by the conservator
-- who then changes the registration of no market.
pub Step-IsAllowed : {p p' : Penrose} (st : Step p p') → IsAllowed p p' (sender_of st)
unfolding set_cluster set_conservator update_pause set_usdo_token
    register_singularity_master_contract register_big_bang_master_contract deploy
    register_singularity register_big_bang add_singularity add_big_bang add_origins_market
    set_big_bang_eth_market set_big_bang_eth_market_debt_rate
Step-IsAllowed {p} (by_unregister s a t e) = unregister_contract-IsAllowed s a t p e
Step-IsAllowed {p} (by_set_cluster s c e) = ground (arith, ==_iff s p.owner)
Step-IsAllowed {p} (by_set_conservator s c e) = ground (arith, ==_iff s p.owner)
Step-IsAllowed {p} (by_update_pause s b e) = ground (arith, ==_iff s p.conservator)
Step-IsAllowed {p} (by_set_usdo_token s t i e) = ground (arith, ==_iff s p.owner)
Step-IsAllowed {p} (by_register_sgl_mc s mc k e) = ground (arith, ==_iff s p.owner)
Step-IsAllowed {p} (by_register_bb_mc s mc k e) = ground (arith, ==_iff s p.owner)
Step-IsAllowed {p} (by_deploy s mc a e) = ground (arith, ==_iff s p.owner)
Step-IsAllowed {p} (by_register_sgl s mc a c e) = ground (arith, ==_iff s p.owner)
Step-IsAllowed {p} (by_register_bb s mc a c e) = ground (arith, ==_iff s p.owner)
Step-IsAllowed {p} (by_add_sgl s mc a e) = ground (arith, ==_iff s p.owner)
Step-IsAllowed {p} (by_add_bb s mc a e) = ground (arith, ==_iff s p.owner)
Step-IsAllowed {p} (by_add_origins s a e) = ground (arith, ==_iff s p.owner)
Step-IsAllowed {p} (by_set_main s a l e) = ground (arith, ==_iff s p.owner)
Step-IsAllowed {p} (by_set_rate s a l e) = ground (arith, ==_iff s p.owner)

count-append : (b : ℕ) (xs ys : List ℕ) → count b (xs ++ ys) ≡ count b xs + count b ys
count-append b [] ys = omega arith
count-append b (x ∷ xs) ys = omega (arith, count-append b xs ys)

unregister_contract-all_big_bang_markets :
    (s m : ℕ) (p : Penrose) {q : Penrose}
    → unregister_contract s m 0 p ≡ ok q
    → q.all_big_bang_markets ≡ p.all_big_bang_markets
unfolding unregister_contract
unregister_contract-all_big_bang_markets s m p e =
    let (_, own, e1) = >>=-eq-ok (only_owner s p) _ e in
    let (l, _, e3) = >>=-eq-ok (swap_remove (p.clones_of (p.master_contract_of m)) m) _ e1 in
    ap (λ (q : Penrose). q.all_big_bang_markets) (sym (ok-injective e3))

-- A BigBang market that is unregistered as type 0 and added again stands in the list of BigBang markets
-- once more than before.
pub unregister_contract-add_big_bang :
    (s t mc m : ℕ) (p : Penrose) {q r : Penrose}
    → unregister_contract s m 0 p ≡ ok q
    → add_big_bang t mc m q ≡ ok r
    → count m r.all_big_bang_markets ≡ suc (count m p.all_big_bang_markets)
unfolding add_big_bang
unregister_contract-add_big_bang s t mc m p {q} {r} e f =
    let listed : r.all_big_bang_markets ≡ q.all_big_bang_markets ++ m ∷ [] = ground arith in
    rw (listed, unregister_contract-all_big_bang_markets s m p e)
      (count-append m p.all_big_bang_markets (m ∷ []) ∙ rw (==_refl m) (omega arith))
