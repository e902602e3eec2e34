-- ===== src/Contracts/Penrose/Origins.antt =====
-- Origins markets in the registry of contracts/Penrose.sol: what `addOriginsMarket` adds stays.
use tapioca_lending_engine.Base.{
  String, fail, ℕ, ◌==◌, ◌≡◌, refl, Bool, true, false, List, [], ◌∷◌, ◌++◌, ok, arith, elem, update,
  >>=-eq-ok, ok-injective, subst, ap, sym, ◌∙◌, fail_if, ==_refl, if-true, ==_iff,
}
use tapioca_lending_engine.Contracts.Penrose.Arrays.{swap_remove}
use tapioca_lending_engine.Contracts.Penrose.Remove.{count, swap_remove-count}
use tapioca_lending_engine.Contracts.Penrose.{
  Penrose, only_owner, set_cluster, set_conservator, update_pause, set_usdo_token,
  register_singularity_master_contract, register_big_bang_master_contract, deploy,
  register_singularity, register_big_bang, add_singularity, add_big_bang, add_origins_market,
  remove_listed, unregister_contract, set_big_bang_eth_market, set_big_bang_eth_market_debt_rate,
}
use tapioca_lending_engine.Contracts.Penrose.Invariant.{
  Step, Reach, here, next, by_set_cluster, by_set_conservator, by_update_pause, by_set_usdo_token,
  by_register_sgl_mc, by_register_bb_mc, by_deploy, by_register_sgl, by_register_bb, by_add_sgl,
  by_add_bb, by_add_origins, by_unregister, by_set_main, by_set_rate, unregister_contract_stranger,
}

-- A call that makes the address a market of another kind, or deploys it as a clone
abbrev pub Adopts : ℕ → {p q : Penrose} → Step p q → Type 0
Adopts m (by_deploy s mc a e) = a ≡ m
Adopts m (by_register_sgl s mc a c e) = a ≡ m
Adopts m (by_register_bb s mc a c e) = a ≡ m
Adopts m (by_add_sgl s mc a e) = a ≡ m
Adopts m (by_add_bb s mc a e) = a ≡ m
Adopts m _ = ⊥

abbrev pub NeverAdopts : ℕ → {p q : Penrose} → Reach p q → Type 0
NeverAdopts m here = Unit {0}
NeverAdopts m (next r s) = NeverAdopts m r × (Adopts m s → ⊥)

-- The address is no clone of any master contract.
abbrev pub IsNoClone : ℕ → Penrose → Type 0
IsNoClone m p = (mc : ℕ) → elem m (p.clones_of mc) ≡ false

elem-append_ne :
    (a b : ℕ) (xs : List ℕ) → (b ≡ a → ⊥) → elem a xs ≡ false → elem a (xs ++ b ∷ []) ≡ false
elem-append_ne a b [] ne h = ground (arith, ==_iff b a)
elem-append_ne a b (x ∷ xs) ne h = ground (arith, elem-append_ne a b xs ne)

count-elem : (a : ℕ) (xs : List ℕ) → elem a xs ≡ false → count a xs ≡ 0
count-elem a [] h = refl
count-elem a (x ∷ xs) h = ground (arith, count-elem a xs)

elem-count : (a : ℕ) (xs : List ℕ) → count a xs ≡ 0 → elem a xs ≡ false
elem-count a [] h = refl
elem-count a (x ∷ xs) h = ground (arith, elem-count a xs)

swap_remove_no_elem :
    (xs : List ℕ) (a m : ℕ) {ys : List ℕ}
    → swap_remove xs a ≡ ok ys
    → elem m xs ≡ false
    → elem m ys ≡ false
swap_remove_no_elem xs a m {ys} h none =
    let zero_before = count-elem m xs none in
    elem-count m ys (omega (arith, swap_remove-count xs a m h, zero_before))

grown-IsNoClone :
    (m mc a : ℕ) (p : Penrose) (c : ℕ)
    → (a ≡ m → ⊥)
    → IsNoClone m p
    → elem m (update p.clones_of mc (p.clones_of mc ++ a ∷ []) c) ≡ false
grown-IsNoClone m mc a p c ne h =
    ground (arith, h c, h mc, elem-append_ne m a (p.clones_of mc) ne (h mc))

unregister_contract-IsNoClone :
    (m s a t : ℕ) (p : Penrose) {q : Penrose}
    → unregister_contract s a t p ≡ ok q
    → IsNoClone m p
    → IsNoClone m q
unfolding unregister_contract
unregister_contract-IsNoClone m s a t p e h c =
    let (_, _, e1) = >>=-eq-ok (only_owner s p) _ e in
    let (_, _, e2) = >>=-eq-ok (remove_listed a t p) _ e1 in
    let mc = p.master_contract_of a in
    let (l, found, e3) = >>=-eq-ok (swap_remove (p.clones_of mc) a) _ e2 in
    let left : elem m (update p.clones_of mc l c) ≡ false =
      ground (arith, h c, swap_remove_no_elem (p.clones_of mc) a m found (h mc)) in
    subst (λ (x : Penrose). elem m (x.clones_of c) ≡ false) (ok-injective e3) left

Step-IsNoClone :
    (m : ℕ) {p q : Penrose} (s : Step p q) → (Adopts m s → ⊥) → IsNoClone m p → IsNoClone m q
unfolding set_cluster set_conservator update_pause set_usdo_token
    register_singularity_master_contract register_big_bang_master_contract deploy
    register_singularity register_big_bang add_singularity add_big_bang add_origins_market
    set_big_bang_eth_market set_big_bang_eth_market_debt_rate
Step-IsNoClone m (by_set_cluster s c e) ne h k = ground (arith, h k)
Step-IsNoClone m (by_set_conservator s c e) ne h k = ground (arith, h k)
Step-IsNoClone m (by_update_pause s b e) ne h k = ground (arith, h k)
Step-IsNoClone m (by_set_usdo_token s t i e) ne h k = ground (arith, h k)
Step-IsNoClone m (by_register_sgl_mc s mc r e) ne h k = ground (arith, h k)
Step-IsNoClone m (by_register_bb_mc s mc r e) ne h k = ground (arith, h k)
Step-IsNoClone m {p} (by_deploy s mc a e) ne h k = ground (arith, grown-IsNoClone m mc a p k ne h)
Step-IsNoClone m {p} (by_register_sgl s mc a c e) ne h k =
    ground (arith, grown-IsNoClone m mc a p k ne h)
Step-IsNoClone m {p} (by_register_bb s mc a c e) ne h k =
    ground (arith, grown-IsNoClone m mc a p k ne h)
Step-IsNoClone m {p} (by_add_sgl s mc a e) ne h k = ground (arith, grown-IsNoClone m mc a p k ne h)
Step-IsNoClone m {p} (by_add_bb s mc a e) ne h k = ground (arith, grown-IsNoClone m mc a p k ne h)
Step-IsNoClone m (by_add_origins s a e) ne h k = ground (arith, h k)
Step-IsNoClone m {p} (by_unregister s a t e) ne h k = unregister_contract-IsNoClone m s a t p e h k
Step-IsNoClone m (by_set_main s a l e) ne h k = ground (arith, h k)
Step-IsNoClone m (by_set_rate s a l e) ne h k = ground (arith, h k)

unregister_contract_same_origins :
    (s a t : ℕ) (p : Penrose) {q : Penrose}
    → unregister_contract s a t p ≡ ok q
    → q.is_origin_registered ≡ p.is_origin_registered
unfolding unregister_contract
unregister_contract_same_origins s a t p e =
    let (_, _, e1) = >>=-eq-ok (only_owner s p) _ e in
    let (_, _, e2) = >>=-eq-ok (remove_listed a t p) _ e1 in
    let (_, _, e3) = >>=-eq-ok (swap_remove (p.clones_of (p.master_contract_of a)) a) _ e2 in
    ap (λ (x : Penrose). x.is_origin_registered) (sym (ok-injective e3))

-- No call takes the mark of an Origins market away.
Step-is_origin_registered :
    (m : ℕ) {p q : Penrose}
    → Step p q
    → p.is_origin_registered m ≡ true
    → q.is_origin_registered m ≡ true
unfolding set_cluster set_conservator update_pause set_usdo_token
    register_singularity_master_contract register_big_bang_master_contract deploy
    register_singularity register_big_bang add_singularity add_big_bang add_origins_market
    set_big_bang_eth_market set_big_bang_eth_market_debt_rate
Step-is_origin_registered m (by_set_cluster s c e) h = ground (arith, h)
Step-is_origin_registered m (by_set_conservator s c e) h = ground (arith, h)
Step-is_origin_registered m (by_update_pause s b e) h = ground (arith, h)
Step-is_origin_registered m (by_set_usdo_token s t i e) h = ground (arith, h)
Step-is_origin_registered m (by_register_sgl_mc s mc r e) h = ground (arith, h)
Step-is_origin_registered m (by_register_bb_mc s mc r e) h = ground (arith, h)
Step-is_origin_registered m (by_deploy s mc a e) h = ground (arith, h)
Step-is_origin_registered m (by_register_sgl s mc a c e) h = ground (arith, h)
Step-is_origin_registered m (by_register_bb s mc a c e) h = ground (arith, h)
Step-is_origin_registered m (by_add_sgl s mc a e) h = ground (arith, h)
Step-is_origin_registered m (by_add_bb s mc a e) h = ground (arith, h)
Step-is_origin_registered m (by_add_origins s a e) h = ground (arith, h)
Step-is_origin_registered m {p} (by_unregister s a t e) h =
    ap (λ (f : ℕ → Bool). f m) (unregister_contract_same_origins s a t p e) ∙ h
Step-is_origin_registered m (by_set_main s a l e) h = ground (arith, h)
Step-is_origin_registered m (by_set_rate s a l e) h = ground (arith, h)

Reach-IsNoClone :
    (m : ℕ) {p q : Penrose} (r : Reach p q) → NeverAdopts m r → IsNoClone m p → IsNoClone m q
Reach-IsNoClone m here n h = h
Reach-IsNoClone m (next r s) n h = Step-IsNoClone m s n.1 (Reach-IsNoClone m r n.0 h)

Reach-is_origin_registered :
    (m : ℕ) {p q : Penrose}
    → Reach p q
    → p.is_origin_registered m ≡ true
    → q.is_origin_registered m ≡ true
Reach-is_origin_registered m here h = h
Reach-is_origin_registered m (next r s) h =
    Step-is_origin_registered m s (Reach-is_origin_registered m r h)

added_is_registered :
    (s m : ℕ) (p : Penrose) {q : Penrose}
    → add_origins_market s m p ≡ ok q
    → (q.is_origin_registered m ≡ true) × (q.clones_of ≡ p.clones_of)
unfolding add_origins_market
added_is_registered s m p e =
    let (_, _, e1) = >>=-eq-ok (only_owner s p) _ e in
    let (_, _, e2) = >>=-eq-ok (fail_if (p.is_origin_registered m) "AlreadyAdded") _ e1 in
    subst (λ (x : Penrose). (x.is_origin_registered m ≡ true) × (x.clones_of ≡ p.clones_of))
      (ok-injective e2) (if-true (m == m) _ _ (==_refl m), refl)

-- An address that is no clone of a master contract, and that the owner adds as an Origins market, cannot
-- be unregistered, whatever calls are made after that, as long as none of them deploys it as a clone or
-- makes it a market of another kind: unregisterContract reverts for every caller and type, and the
-- address is still registered as an Origins market.
pub origins_market_stays :
    (s m sender market_type : ℕ) (p : Penrose) {q r : Penrose}
    → IsNoClone m p
    → add_origins_market s m p ≡ ok q
    → (calls : Reach q r) → NeverAdopts m calls
    → ((e : String) × (unregister_contract sender m market_type r ≡ fail e))
      × (r.is_origin_registered m ≡ true)
origins_market_stays s m sender market_type p {q} {r} none added calls never =
    let (marked, same) = added_is_registered s m p added in
    let none_then : IsNoClone m q = λ mc. ap (λ (f : ℕ → List ℕ). elem m (f mc)) same ∙ none mc in
    (
      unregister_contract_stranger sender m market_type r
          (Reach-IsNoClone m calls never none_then (r.master_contract_of m)),
      Reach-is_origin_registered m calls marked,
    )
