-- ===== src/Contracts/BigBang/Keeps.antt =====
-- What leaves the books of a market of contracts/markets/bigBang as they are: the accrual, the oracle's rate
-- and the allowances.
use tapioca_lending_engine.Base.{
  ℕ, ◌==◌, ◌≡◌, refl, sym, ap, ◌∙◌, Bool, not, ◌||◌, ◌&&◌, Option, some, none, List, ok, ◌>>=◌, ltb,
  leb, Bool-cases, inl, inr, if-true, if-false, subst, >>=-eq-ok, ok-injective, fail_if,
}
use tapioca_lending_engine.Contracts.BigBang.{BigBang, SameCollateral, minus}
use tapioca_lending_engine.Contracts.BigBang.Sums.{sum_parts}
use tapioca_lending_engine.Contracts.BigBang.Rate.{accrue}
use tapioca_lending_engine.Contracts.BigBang.Accrual.{accrue_since_lem}
use tapioca_lending_engine.Contracts.BigBang.Entry.{
  update_exchange_rate, try_update_oracle_rate, allowed_borrow,
}

-- The parts of the users add up to the base, and their collateral to its sum.
abbrev pub IsBooked : List ℕ → BigBang → Type 0
IsBooked users b =
    (sum_parts users b.user_borrow_part ≡ b.total_borrow.base)
    × (sum_parts users b.user_collateral_share ≡ b.total_collateral_share)

-- What keeps the books: the base, the parts and the collateral
abbrev pub KeepsBooks : BigBang → BigBang → Type 0
KeepsBooks b c =
    (c.total_borrow.base ≡ b.total_borrow.base)
    × (c.user_borrow_part ≡ b.user_borrow_part)
    × SameCollateral b c

pub kept : (users : List ℕ) (b c : BigBang) → KeepsBooks b c → IsBooked users b → IsBooked users c
kept users b c k (p, q) =
    (ap (sum_parts users) k.1 ∙ p ∙ sym k.0, ap (sum_parts users) (k.2.0) ∙ q ∙ sym (k.2.1))

pub accrue-KeepsBooks :
    (main_rate eth_debt now : ℕ) (b : BigBang) {c : BigBang}
    → accrue main_rate eth_debt now b ≡ ok c
    → KeepsBooks b c
unfolding accrue
accrue-KeepsBooks main_rate eth_debt now b h =
    let (elapsed, _, h1) = >>=-eq-ok (minus now b.last_accrued) _ h in
    elim (Bool-cases (elapsed == 0)) [
      | inl same ↦
          subst (KeepsBooks b) (ok-injective (sym (if-true (elapsed == 0) _ _ same) ∙ h1))
            (refl, refl, (refl, refl))
      | inr passed ↦
          let books =
            (accrue_since_lem main_rate eth_debt now elapsed b
              (sym (if-false (elapsed == 0) _ _ passed) ∙ h1)).1 in
          (books.2, books.3, books.4)
    ]

pub update_exchange_rate-KeepsBooks :
    (oracle : Option (Bool × ℕ)) (now : ℕ) (b : BigBang) {c : BigBang}
    → update_exchange_rate oracle now b ≡ ok c
    → KeepsBooks b c
unfolding update_exchange_rate
update_exchange_rate-KeepsBooks none now b h = cc
update_exchange_rate-KeepsBooks (some (updated, rate)) now b h =
    let (_, _, h1) = >>=-eq-ok (fail_if (not updated) "Market: rate too old") _ h in
    let (_, _, h2) = >>=-eq-ok (fail_if (rate == 0) "Market: invalid rate") _ h1 in
    subst (KeepsBooks b) (ok-injective h2) (refl, refl, (refl, refl))

stored-KeepsBooks :
    (b : BigBang) {c : BigBang}
    → (fail_if (b.exchange_rate == 0) "ExchangeRateNotValid" >>= λ _. ok b) ≡ ok c
    → KeepsBooks b c
stored-KeepsBooks b h =
    let (_, _, h1) = >>=-eq-ok (fail_if (b.exchange_rate == 0) "ExchangeRateNotValid") _ h in
    subst (KeepsBooks b) (ok-injective h1) (refl, refl, (refl, refl))

pub try_update_oracle_rate-KeepsBooks :
    (oracle : Option (Bool × ℕ)) (now : ℕ) (b : BigBang) {c : BigBang}
    → try_update_oracle_rate oracle now b ≡ ok c
    → KeepsBooks b c
unfolding try_update_oracle_rate
try_update_oracle_rate-KeepsBooks none now b h = stored-KeepsBooks b h
try_update_oracle_rate-KeepsBooks (some (updated, rate)) now b h =
    elim (Bool-cases (updated && ltb 0 rate)) [
      | inl new ↦
          subst (KeepsBooks b) (ok-injective (sym (if-true (updated && ltb 0 rate) _ _ new) ∙ h))
            (refl, refl, (refl, refl))
      | inr old ↦ stored-KeepsBooks b (sym (if-false (updated && ltb 0 rate) _ _ old) ∙ h)
    ]

pub allowed_borrow-KeepsBooks :
    (p sender from share : ℕ) (b : BigBang) {c : BigBang}
    → allowed_borrow p sender from share b ≡ ok c
    → KeepsBooks b c
unfolding allowed_borrow
allowed_borrow-KeepsBooks p sender from share b h = elim (Bool-cases (from == sender)) [
  | inl own ↦
      subst (KeepsBooks b) (ok-injective (sym (if-true (from == sender) _ _ own) ∙ h))
        (refl, refl, (refl, refl))
  | inr foreign ↦
      let (_, _, h1) =
        >>=-eq-ok (fail_if (share == 0) "AllowanceNotValid") _
          (sym (if-false (from == sender) _ _ foreign) ∙ h) in
      let (_, _, h2) =
        >>=-eq-ok
          (fail_if (not (leb share (b.allowance_borrow from sender) || leb share p))
            "Market: not approved")
          _ h1 in
      elim (Bool-cases (leb share p)) [
        | inl enough ↦
            subst (KeepsBooks b) (sym (if-true (leb share p) _ _ enough) ∙ ok-injective h2)
              (refl, refl, (refl, refl))
        | inr spent ↦
            subst (KeepsBooks b) (sym (if-false (leb share p) _ _ spent) ∙ ok-injective h2)
              (refl, refl, (refl, refl))
      ]
]
