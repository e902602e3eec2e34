-- ===== src/Contracts/Singularity/Accrual.antt =====
-- What the accrual of a Singularity market does: the interest stays between its bounds, and what the protocol
-- earns is what the fractions of the lenders' side grow by.
use tapioca_lending_engine.Base.{
  ℕ, ◌+◌, ◌*◌, ◌/◌, ◌^◌, ◌==◌, ◌≤◌, ◌≡◌, refl, ok, arith, fail_if, if-true, if-false, >>=-eq-ok,
  ok-injective, Bool-cases, inl, inr, subst, sym, ◌∙◌,
}
use tapioca_lending_engine.Contracts.BigBang.{checked, minus, checked_lem}
use tapioca_lending_engine.Contracts.Singularity.{Singularity}
use tapioca_lending_engine.Contracts.Singularity.Interest.{
  full_asset_amount, utilization_of, next_interest, add_interest, accrue_debt, accrue,
}
use tapioca_lending_engine.Contracts.Singularity.Bounds.{InBounds, next_interest-bounds}

-- The settings that the bounds are about
abbrev SameSettings : Singularity → Singularity → Type 0
SameSettings s t =
    (t.interest_per_second ≡ s.interest_per_second)
    × (t.minimum_interest_per_second ≡ s.minimum_interest_per_second)
    × (t.maximum_interest_per_second ≡ s.maximum_interest_per_second)
    × (t.starting_interest_per_second ≡ s.starting_interest_per_second)

same-InBounds : (s t : Singularity) → SameSettings s t → InBounds s → InBounds t
same-InBounds s t (e0, e1, e2, e3) bounds = ground arith

-- The fractions grow by what the protocol earns, the debt does not fall, and nobody's part or fraction changes.
abbrev pub IsEarned : Singularity → Singularity → Type 0
IsEarned s t =
    (t.fees_earned_fraction + s.total_asset.base ≡ s.fees_earned_fraction + t.total_asset.base)
    × (s.total_borrow.elastic ≤ t.total_borrow.elastic)
    × (t.total_borrow.base ≡ s.total_borrow.base)
    × (t.total_asset.elastic ≡ s.total_asset.elastic)
    × (t.balance_of ≡ s.balance_of)
    × (t.user_borrow_part ≡ s.user_borrow_part)
    × (t.penrose ≡ s.penrose)

earned :
    (fees base fraction f b : ℕ) → f ≡ fees + fraction → b ≡ base + fraction → f + base ≡ fees + b
earned fees base fraction f b h k = omega arith

add_interest-IsEarned :
    (to_amount : ℕ → ℕ) (elapsed : ℕ) (s : Singularity) {t : Singularity}
    → add_interest to_amount elapsed s ≡ ok t
    → SameSettings s t × IsEarned s t
unfolding add_interest
add_interest-IsEarned to_amount elapsed s h =
    let (product, _, h1) =
      >>=-eq-ok (checked 256 (s.total_borrow.elastic * s.interest_per_second * elapsed)) _ h in
    let (extra, _, h2) = >>=-eq-ok (checked 128 (product / 10 ^ 18)) _ h1 in
    let (elastic, he, h3) = >>=-eq-ok (checked 128 (s.total_borrow.elastic + extra)) _ h2 in
    let (full, _, h4) =
      >>=-eq-ok
        (full_asset_amount to_amount
          (record s { total_borrow = record { elastic = elastic; base = s.total_borrow.base } }))
        _ h3 in
    let (fee, _, h5) = >>=-eq-ok (checked 256 (product / 10 ^ 18 * s.protocol_fee)) _ h4 in
    let (numerator, _, h6) = >>=-eq-ok (checked 256 (fee / 10 ^ 5 * s.total_asset.base)) _ h5 in
    let (rest, _, h7) = >>=-eq-ok (minus full (fee / 10 ^ 5)) _ h6 in
    let (_, _, h8) = >>=-eq-ok (fail_if (rest == 0) "Panic(0x12)") _ h7 in
    let (fraction, _, h9) = >>=-eq-ok (checked 128 (numerator / rest)) _ h8 in
    let (fees, hf, h10) = >>=-eq-ok (checked 128 (s.fees_earned_fraction + fraction)) _ h9 in
    let (base, hb, h11) = >>=-eq-ok (checked 128 (s.total_asset.base + fraction)) _ h10 in
    subst (λ t. SameSettings s t × IsEarned s t) (ok-injective h11)
      (
        (refl, refl, refl, refl),
        (
          earned s.fees_earned_fraction s.total_asset.base fraction fees base
              ((checked_lem 128 (s.fees_earned_fraction + fraction) hf).0)
              ((checked_lem 128 (s.total_asset.base + fraction) hb).0),
          subst (λ x. s.total_borrow.elastic ≤ x)
              (sym ((checked_lem 128 (s.total_borrow.elastic + extra) he).0)) (omega arith),
          refl,
          refl,
          refl,
          refl,
          refl,
        ),
      )

accrue_debt-InBounds :
    (to_amount : ℕ → ℕ) (elapsed : ℕ) (s : Singularity) {u : Singularity}
    → InBounds s
    → accrue_debt to_amount elapsed s ≡ ok u
    → InBounds u × IsEarned s u
unfolding accrue_debt
accrue_debt-InBounds to_amount elapsed s bounds h =
    let (t, ht, h1) = >>=-eq-ok (add_interest to_amount elapsed s) _ h in
    let (full, _, h2) = >>=-eq-ok (full_asset_amount to_amount t) _ h1 in
    let (utilization, _, h3) = >>=-eq-ok (utilization_of full t) _ h2 in
    let (rate, hr, h4) = >>=-eq-ok (next_interest utilization elapsed t) _ h3 in
    let (same, books) = add_interest-IsEarned to_amount elapsed s ht in
    let in_t = same-InBounds s t same bounds in
    let in_rate = next_interest-bounds utilization elapsed t in_t hr in
    subst (λ u. InBounds u × IsEarned s u) (ok-injective h4)
      ((in_rate.0, in_rate.1, in_t.2, in_t.3), books)

-- An accrual that does not revert keeps the interest between its bounds, if it and the one that the market
-- starts with are; the debt does not fall, the fractions grow by what the protocol earns, and no
-- part of a debt and no fraction of a lender changes.
pub accrue-InBounds :
    (to_amount : ℕ → ℕ) (now : ℕ) (s : Singularity) {u : Singularity}
    → InBounds s
    → accrue to_amount now s ≡ ok u
    → InBounds u × IsEarned s u
unfolding accrue
accrue-InBounds to_amount now s {u} bounds h =
    let (full, _, h1) = >>=-eq-ok (full_asset_amount to_amount s) _ h in
    let (_, _, h2) = >>=-eq-ok (utilization_of full s) _ h1 in
    let (elapsed, _, h3) = >>=-eq-ok (minus now s.last_accrued) _ h2 in
    elim (Bool-cases (elapsed == 0)) [
      | inl same ↦
          subst (λ u. InBounds u × IsEarned s u)
            (ok-injective (sym (if-true (elapsed == 0) _ _ same) ∙ h3))
            (bounds, (refl, omega arith, refl, refl, refl, refl, refl))
      | inr passed ↦
          let (last, _, h4) =
            >>=-eq-ok (checked 64 now) _ (sym (if-false (elapsed == 0) _ _ passed) ∙ h3) in
          elim (Bool-cases (s.total_borrow.base == 0)) [
            | inl none ↦
                subst (λ u. InBounds u × IsEarned s u)
                  (ok-injective (sym (if-true (s.total_borrow.base == 0) _ _ none) ∙ h4))
                  (
                    (bounds.2, bounds.3, bounds.2, bounds.3),
                    (refl, omega arith, refl, refl, refl, refl, refl),
                  )
            | inr debt ↦
                accrue_debt-InBounds to_amount elapsed (record s { last_accrued = last }) bounds
                  (sym (if-false (s.total_borrow.base == 0) _ _ debt) ∙ h4)
          ]
    ]
