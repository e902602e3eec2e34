-- ===== src/Contracts/BigBang/Sums.antt =====
-- The sum of a mapping over the users of a list, and what a write to one key does to it.
use tapioca_lending_engine.Base.{
  ℕ, ◌+◌, ◌==◌, ◌≡◌, ◌≢◌, refl, sym, ap, ◌∙◌, true, false, List, [], ◌∷◌, arith, elem, Bool-cases,
  inl, inr, ==_iff, ==_refl, Mapping, update, if-true, if-false, subst,
}
use mathlib.Core.Bool.{false≢true}
use tapioca_lending_engine.Contracts.Penrose.Debt.{Distinct}
use tapioca_lending_engine.Contracts.BigBang.Lending.{==_ne}

abbrev pub sum_parts : List ℕ → Mapping ℕ → ℕ
sum_parts [] f = 0
sum_parts (u ∷ us) f = f u + sum_parts us f

-- Two mappings that differ at `a` alone, where `a` is not in the list
pub sum_parts-outside :
    (us : List ℕ) (f g : Mapping ℕ) (a : ℕ)
    → elem a us ≡ false
    → ((u : ℕ) → u ≢ a → g u ≡ f u)
    → sum_parts us g ≡ sum_parts us f
sum_parts-outside [] f g a h same = refl
sum_parts-outside (u ∷ us) f g a h same = ground (arith, same u, sum_parts-outside us f g a, same)

-- and where it is in the list once.
pub sum_parts-inside :
    (us : List ℕ) (f g : Mapping ℕ) (a : ℕ)
    → Distinct us
    → elem a us ≡ true
    → ((u : ℕ) → u ≢ a → g u ≡ f u)
    → sum_parts us g + f a ≡ sum_parts us f + g a
sum_parts-inside [] f g a d h same = cc
sum_parts-inside (u ∷ us) f g a d h same = elim (Bool-cases (u == a)) [
  | inl here ↦
      let e : u ≡ a = (==_iff u a).0 here in
      let absent : elem a us ≡ false = subst (λ x. elem x us ≡ false) e d.0 in
      omega (arith, sum_parts-outside us f g a absent same, ap f e, ap g e)
  | inr there ↦
      let ne : u ≢ a = λ e. false≢true (sym there ∙ (==_iff u a).1 e) in
      let present_in : elem a us ≡ true = sym (if-false (u == a) _ _ there) ∙ h in
      omega (arith, same u ne, sum_parts-inside us f g a d.1 present_in same)
]

-- A write to one entry
pub sum_parts-update :
    (users : List ℕ)
    → Distinct users
    → (f : Mapping ℕ) (a v : ℕ) → elem a users ≡ true
    → sum_parts users (update f a v) + f a ≡ sum_parts users f + v
sum_parts-update users d f a v mem =
    sum_parts-inside users f (update f a v) a d mem (λ u ne. if-false (u == a) _ _ (==_ne u a ne))
    ∙ ap (λ x. sum_parts users f + x) (if-true (a == a) _ _ (==_refl a))

-- The two sums of a market: its base and its collateral are what the users have.
pub balance :
    (s' f s g base base' : ℕ) → s' + f ≡ s + g → base' + f ≡ base + g → s ≡ base → s' ≡ base'
balance s' f s g base base' h k e = omega arith
