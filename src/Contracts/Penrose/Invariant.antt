-- ===== src/Contracts/Penrose/Invariant.antt =====
-- Sequences of the calls that change the registry of contracts/Penrose.sol, and `unregisterContract` after
-- them.
use tapioca_lending_engine.Base.{
  String, fail, Outcome-cases, inl, inr, ℕ, ◌≡◌, Bool, true, false, List, [], ◌∷◌, ◌++◌, ok, arith,
  elem, elem-append_left, elem-append_last, Mapping, update, ==_refl, >>=-eq-ok, ok-injective,
  subst, sym, ◌∙◌,
}
use mathlib.Core.Bool.{false≢true}
use tapioca_lending_engine.Contracts.Penrose.Arrays.{swap_remove}
use tapioca_lending_engine.Contracts.Penrose.{
  Penrose, only_owner, set_cluster, set_conservator, update_pause, set_usdo_token,
  register_singularity_master_contract, register_big_bang_master_contract, deploy,
  register_singularity, register_big_bang, add_singularity, add_big_bang, add_origins_market,
  remove_listed, unregister_contract, set_big_bang_eth_market, set_big_bang_eth_market_debt_rate,
}
use tapioca_lending_engine.Contracts.Penrose.Remove.{
  swap_remove-elem_ne, swap_remove-elem, swap_remove-only_elem,
}

-- Registered markets, the clones of each master contract, and the master contract of each market
abbrev pub IsListed : Mapping Bool → Mapping (List ℕ) → Mapping ℕ → Type 0
IsListed registered clones master =
    (m : ℕ) → registered m ≡ true → elem m (clones (master m)) ≡ true

module _ (registered : Mapping Bool) (clones : Mapping (List ℕ)) (master : Mapping ℕ) where
  adopt-IsListed :
      (mc a : ℕ)
      → IsListed registered clones master
      → IsListed
          (update registered a true)
          (update clones mc (clones mc ++ a ∷ []))
          (update master a mc)
  adopt-IsListed mc a h m r =
      ground (
        arith,
        h m,
        elem-append_last a (clones mc),
        elem-append_left m (clones (master m)) (a ∷ []),
      )

  deploy-IsListed :
      (mc a : ℕ)
      → IsListed registered clones master
      → IsListed registered (update clones mc (clones mc ++ a ∷ [])) (update master a mc)
  deploy-IsListed mc a h m r =
      ground (
        arith,
        h m,
        elem-append_last a (clones mc),
        elem-append_left m (clones (master m)) (a ∷ []),
      )

  unregister-IsListed :
      (a : ℕ) {l : List ℕ}
      → swap_remove (clones (master a)) a ≡ ok l
      → IsListed registered clones master
      → IsListed (update registered a false) (update clones (master a) l) (update master a 0)
  unregister-IsListed a {l} e h m r =
      ground (arith, h m, swap_remove-elem_ne (clones (master a)) a m e)

-- A call that changes the registry and does not revert, by any caller
pub data Step (p p' : Penrose) : Type 0 where
  by_set_cluster : (s c : ℕ) → set_cluster s c p ≡ ok p' → Step p p'
  by_set_conservator : (s c : ℕ) → set_conservator s c p ≡ ok p' → Step p p'
  by_update_pause : (s : ℕ) (b : Bool) → update_pause s b p ≡ ok p' → Step p p'
  by_set_usdo_token : (s t i : ℕ) → set_usdo_token s t i p ≡ ok p' → Step p p'
  by_register_sgl_mc :
      (s mc r : ℕ) → register_singularity_master_contract s mc r p ≡ ok p' → Step p p'
  by_register_bb_mc : (s mc r : ℕ) → register_big_bang_master_contract s mc r p ≡ ok p' → Step p p'
  by_deploy : (s mc a : ℕ) → deploy s mc a p ≡ ok p' → Step p p'
  by_register_sgl : (s mc a : ℕ) (c : Bool) → register_singularity s mc a c p ≡ ok p' → Step p p'
  by_register_bb : (s mc a : ℕ) (c : Bool) → register_big_bang s mc a c p ≡ ok p' → Step p p'
  by_add_sgl : (s mc a : ℕ) → add_singularity s mc a p ≡ ok p' → Step p p'
  by_add_bb : (s mc a : ℕ) → add_big_bang s mc a p ≡ ok p' → Step p p'
  by_add_origins : (s a : ℕ) → add_origins_market s a p ≡ ok p' → Step p p'
  by_unregister : (s a t : ℕ) → unregister_contract s a t p ≡ ok p' → Step p p'
  by_set_main : (s a : ℕ) (l : List ℕ) → set_big_bang_eth_market s a p ≡ ok (p', l) → Step p p'
  by_set_rate :
      (s a : ℕ) (l : List ℕ) → set_big_bang_eth_market_debt_rate s a p ≡ ok (p', l) → Step p p'

pub data Reach (p : Penrose) : Penrose → Type 0 where
  here : Reach p p
  next : {q r : Penrose} → Reach p q → Step q r → Reach p r

abbrev pub Listed : Penrose → Type 0
Listed p = IsListed p.is_market_registered p.clones_of p.master_contract_of

unregister_contract-Listed :
    (s a t : ℕ) (p : Penrose) {p' : Penrose}
    → unregister_contract s a t p ≡ ok p'
    → Listed p
    → Listed p'
unfolding unregister_contract
unregister_contract-Listed s a t p e h =
    let (_, _, e1) = >>=-eq-ok (only_owner s p) _ e in
    let (_, _, e2) = >>=-eq-ok (remove_listed a t p) _ e1 in
    let (l, found, e3) = >>=-eq-ok (swap_remove (p.clones_of (p.master_contract_of a)) a) _ e2 in
    subst Listed (ok-injective e3)
      (unregister-IsListed p.is_market_registered p.clones_of p.master_contract_of a found h)

Step-Listed : {p p' : Penrose} → Step p p' → Listed p → Listed p'
unfolding set_cluster set_conservator update_pause set_usdo_token
    register_singularity_master_contract register_big_bang_master_contract deploy
    register_singularity register_big_bang add_singularity add_big_bang add_origins_market
    set_big_bang_eth_market set_big_bang_eth_market_debt_rate
Step-Listed {p} (by_set_cluster s c e) h m r = ground (arith, h m)
Step-Listed {p} (by_set_conservator s c e) h m r = ground (arith, h m)
Step-Listed {p} (by_update_pause s b e) h m r = ground (arith, h m)
Step-Listed {p} (by_set_usdo_token s t i e) h m r = ground (arith, h m)
Step-Listed {p} (by_register_sgl_mc s mc k e) h m r = ground (arith, h m)
Step-Listed {p} (by_register_bb_mc s mc k e) h m r = ground (arith, h m)
Step-Listed {p} (by_deploy s mc a e) h m r =
    ground (arith, deploy-IsListed p.is_market_registered p.clones_of p.master_contract_of mc a h m)
Step-Listed {p} (by_register_sgl s mc a c e) h m r =
    ground (arith, adopt-IsListed p.is_market_registered p.clones_of p.master_contract_of mc a h m)
Step-Listed {p} (by_register_bb s mc a c e) h m r =
    ground (arith, adopt-IsListed p.is_market_registered p.clones_of p.master_contract_of mc a h m)
Step-Listed {p} (by_add_sgl s mc a e) h m r =
    ground (arith, adopt-IsListed p.is_market_registered p.clones_of p.master_contract_of mc a h m)
Step-Listed {p} (by_add_bb s mc a e) h m r =
    ground (arith, adopt-IsListed p.is_market_registered p.clones_of p.master_contract_of mc a h m)
Step-Listed {p} (by_add_origins s a e) h m r = ground (arith, h m)
Step-Listed {p} (by_unregister s a t e) h m r = unregister_contract-Listed s a t p e h m r
Step-Listed {p} (by_set_main s a l e) h m r = ground (arith, h m)
Step-Listed {p} (by_set_rate s a l e) h m r = ground (arith, h m)

-- A registered market is among the clones of its master contract, after any owner calls.
pub Reach-Listed : {p p' : Penrose} → Reach p p' → Listed p → Listed p'
Reach-Listed here h = h
Reach-Listed (next r s) h = Step-Listed s (Reach-Listed r h)

-- In a state that owner calls reach from one where no market is registered, the owner can unregister
-- each registered market as a Singularity (type 0), and it is then no longer registered.
pub unregister_contract_ok :
    {p p' : Penrose} (m : ℕ)
    → ((k : ℕ) → p.is_market_registered k ≡ false)
    → Reach p p'
    → p'.is_market_registered m ≡ true
    → (q : Penrose) × (unregister_contract p'.owner m 0 p' ≡ ok q)
      × (q.is_market_registered m ≡ false)
unfolding unregister_contract
unregister_contract_ok {p} {p'} m empty r reg =
    let (l, e) =
      swap_remove-elem (p'.clones_of (p'.master_contract_of m)) m
        (Reach-Listed r (λ k h. absurd (false≢true (sym (empty k) ∙ h))) m reg) in
    (
      record p' {
        is_market_registered = update p'.is_market_registered m false;
        master_contract_of = update p'.master_contract_of m 0;
        clones_of = update p'.clones_of (p'.master_contract_of m) l;
      },
      rw (==_refl p'.owner, e),
      rw (==_refl m),
    )

-- An address that is not among the clones of its master contract is never unregistered: the call
-- reverts, whatever the caller and the type.
pub unregister_contract_stranger :
    (s m t : ℕ) (p : Penrose)
    → elem m (p.clones_of (p.master_contract_of m)) ≡ false
    → (e : String) × (unregister_contract s m t p ≡ fail e)
unfolding unregister_contract
unregister_contract_stranger s m t p h = elim (Outcome-cases (unregister_contract s m t p)) [
  | inr f ↦ f
  | inl (q, e) ↦
      let (_, _, e1) = >>=-eq-ok (only_owner s p) _ e in
      let (_, _, e2) = >>=-eq-ok (remove_listed m t p) _ e1 in
      let (_, found, _) = >>=-eq-ok (swap_remove (p.clones_of (p.master_contract_of m)) m) _ e2 in
      absurd
        (false≢true (sym h ∙ swap_remove-only_elem (p.clones_of (p.master_contract_of m)) m found))
]
