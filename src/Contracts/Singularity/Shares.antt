-- ===== src/Contracts/Singularity/Shares.antt =====
-- The fractions of the lenders' side of a Singularity market: those of the users, of Penrose and of what
-- the protocol has earned but not collected make up the whole.
use tapioca_lending_engine.Base.{
  ℕ, ◌+◌, ◌-◌, ◌*◌, ◌/◌, ◌==◌, ◌≤◌, ◌≡◌, sym, ap, ◌∙◌, ltb, Bool, true, false, List, Outcome, ok,
  arith, elem, update, fail_if, if-true, if-false, >>=-eq-ok, ok-injective, Bool-cases, inl, inr,
  subst,
}
use tapioca_lending_engine.Contracts.Penrose.Debt.{Distinct}
use tapioca_lending_engine.Contracts.BigBang.{Rebase, checked, minus, checked_lem, minus_lem}
use tapioca_lending_engine.Contracts.BigBang.Sums.{sum_parts, sum_parts-update}
use tapioca_lending_engine.Contracts.Singularity.{Singularity}
use tapioca_lending_engine.Contracts.Singularity.Interest.{accrue}
use tapioca_lending_engine.Contracts.Singularity.Bounds.{InBounds}
use tapioca_lending_engine.Contracts.Singularity.Accrual.{accrue-InBounds}
use tapioca_lending_engine.Contracts.Singularity.Assets.{
  fraction_of, add_tokens, add_asset, remove_asset,
}

-- The interest is between its bounds, Penrose is one of the users, the fractions of the users and what is not
-- collected make up the base of the assets, and the parts of the users the base of the debt.
abbrev pub IsShared : List ℕ → Singularity → Type 0
IsShared users s =
    InBounds s
    × (elem s.penrose users ≡ true)
    × (sum_parts users s.balance_of + s.fees_earned_fraction ≡ s.total_asset.base)
    × (sum_parts users s.user_borrow_part ≡ s.total_borrow.base)

-- What is assumed of the function of `RebaseLibrary` that adds to both sides
abbrev pub AddsBoth : (Rebase → ℕ → ℕ → Outcome Rebase) → Type 0
AddsBoth add =
    (t : Rebase) (elastic base : ℕ) (r : Rebase)
    → add t elastic base ≡ ok r
    → (r.elastic ≡ t.elastic + elastic) × (r.base ≡ t.base + base)

pub grown :
    (s' f s v x fees base b : ℕ)
    → s' + f ≡ s + v
    → v ≡ f + x
    → b ≡ base + x
    → s + fees ≡ base
    → s' + fees ≡ b
grown s' f s v x fees base b h k l e = omega arith

pub shrunk :
    (s' f s v x fees base b y : ℕ)
    → s' + f ≡ s + v
    → (x ≤ f) × (v ≡ f - x)
    → y ≡ x
    → (y ≤ base) × (b ≡ base - y)
    → s + fees ≡ base
    → s' + fees ≡ b
shrunk s' f s v x fees base b y h k m l e = omega arith

module _ (users : List ℕ) (d : Distinct users) where
  pub accrue-IsShared :
      (to_amount : ℕ → ℕ) (now : ℕ) (s : Singularity) {t : Singularity}
      → accrue to_amount now s ≡ ok t
      → IsShared users s
      → IsShared users t
  accrue-IsShared to_amount now s {t} h (bounds, member, shares, parts) =
      let (in_t, books) = accrue-InBounds to_amount now s bounds h in
      (
        in_t,
        ap (λ x. elem x users) books.6 ∙ member,
        (let same = ap (sum_parts users) books.4 in
            let total : sum_parts users t.balance_of + t.fees_earned_fraction ≡ t.total_asset.base =
              omega (arith, same, books.0, shares) in
            total),
        ap (sum_parts users) books.5 ∙ parts ∙ sym books.2,
      )

  pub add_asset-IsShared :
      (add : Rebase → ℕ → ℕ → Outcome Rebase) (to_share : ℕ → Bool → ℕ) (balance : ℕ) (fails : Bool)
      (to : ℕ) (skim : Bool) (share : ℕ) (s : Singularity) {r : Singularity × ℕ}
      → AddsBoth add
      → elem to users ≡ true
      → add_asset add to_share balance fails to skim share s ≡ ok r
      → IsShared users s
      → IsShared users r.0
  unfolding add_asset
  add_asset-IsShared add to_share balance fails to skim share s law mem h shared =
      let (fraction, _, h1) = >>=-eq-ok (fraction_of to_share share s) _ h in
      let (fraction_128, _, h2) = >>=-eq-ok (checked 128 fraction) _ h1 in
      let (base, _, h3) = >>=-eq-ok (checked 128 (s.total_asset.base + fraction_128)) _ h2 in
      elim (Bool-cases (ltb base 1000)) [
        | inl small ↦
            subst (λ (r : Singularity × ℕ). IsShared users r.0)
              (ok-injective (sym (if-true (ltb base 1000) _ _ small) ∙ h3)) shared
        | inr enough ↦
            let (total, ht, h4) =
              >>=-eq-ok (add s.total_asset share fraction) _
                (sym (if-false (ltb base 1000) _ _ enough) ∙ h3) in
            let (mine, hm, h5) = >>=-eq-ok (checked 256 (s.balance_of to + fraction)) _ h4 in
            let (_, _, h6) =
              >>=-eq-ok (add_tokens balance fails share s.total_asset.elastic skim) _ h5 in
            subst (λ (r : Singularity × ℕ). IsShared users r.0) (ok-injective h6)
              (
                shared.0,
                shared.1,
                grown (sum_parts users (update s.balance_of to mine)) (s.balance_of to)
                    (sum_parts users s.balance_of) mine fraction s.fees_earned_fraction
                    s.total_asset.base total.base
                    (sum_parts-update users d s.balance_of to mine mem)
                    ((checked_lem 256 (s.balance_of to + fraction) hm).0)
                    ((law s.total_asset share fraction total ht).1) shared.2,
                shared.3,
              )
      ]

  pub remove_asset-IsShared :
      (to_share : ℕ → Bool → ℕ) (from fraction : ℕ) (s : Singularity) {r : Singularity × ℕ}
      → elem from users ≡ true
      → remove_asset to_share from fraction s ≡ ok r
      → IsShared users s
      → IsShared users r.0
  unfolding remove_asset
  remove_asset-IsShared to_share from fraction s mem h shared =
      elim (Bool-cases (s.total_asset.base == 0)) [
        | inl empty ↦
            subst (λ (r : Singularity × ℕ). IsShared users r.0)
              (ok-injective (sym (if-true (s.total_asset.base == 0) _ _ empty) ∙ h)) shared
        | inr some_asset ↦
            let (all, _, h1) =
              >>=-eq-ok
                (checked 256 (s.total_asset.elastic + to_share s.total_borrow.elastic false)) _
                (sym (if-false (s.total_asset.base == 0) _ _ some_asset) ∙ h) in
            let (product, _, h2) = >>=-eq-ok (checked 256 (fraction * all)) _ h1 in
            let (fraction_128, hf, h3) = >>=-eq-ok (checked 128 fraction) _ h2 in
            let (base, hb, h4) = >>=-eq-ok (minus s.total_asset.base fraction_128) _ h3 in
            let (_, _, h5) = >>=-eq-ok (fail_if (ltb base 1000) "MinLimit") _ h4 in
            let (mine, hm, h6) = >>=-eq-ok (minus (s.balance_of from) fraction) _ h5 in
            let (share_128, _, h7) = >>=-eq-ok (checked 128 (product / s.total_asset.base)) _ h6 in
            let (elastic, _, h8) = >>=-eq-ok (minus s.total_asset.elastic share_128) _ h7 in
            subst (λ (r : Singularity × ℕ). IsShared users r.0) (ok-injective h8)
              (
                shared.0,
                shared.1,
                shrunk (sum_parts users (update s.balance_of from mine)) (s.balance_of from)
                    (sum_parts users s.balance_of) mine fraction s.fees_earned_fraction
                    s.total_asset.base base fraction_128
                    (sum_parts-update users d s.balance_of from mine mem)
                    (minus_lem (s.balance_of from) fraction hm) ((checked_lem 128 fraction hf).0)
                    (minus_lem s.total_asset.base fraction_128 hb) shared.2,
                shared.3,
              )
      ]
