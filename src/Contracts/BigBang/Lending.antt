-- ===== src/Contracts/BigBang/Lending.antt =====
-- `_borrow` of contracts/markets/bigBang/BBLendingCommon.sol and `_isSolvent` of contracts/markets/Market.sol.
-- `add` is `RebaseLibrary.add` of boring-solidity and `to_amount` YieldBox's `toAmount`.
use tapioca_lending_engine.Base.{
  ℕ, ◌+◌, ◌*◌, ◌/◌, ◌^◌, ◌==◌, ◌≤◌, ◌<◌, ◌≡◌, refl, ltb, leb, Bool, true, false, ◌&&◌, Outcome, ok,
  ◌>>=◌, ◌>>◌, arith, fail_if, update, if◌then◌else◌, if-true, if-false, >>=-eq-ok, ok-injective,
  Bool-cases, inl, inr, subst, sym, ap, ◌∙◌, ◌≢◌, ==_refl, ==_iff,
}
use mathlib.Core.Path.{ap₂}
use mathlib.Core.Bool.{false≢true}
use native.Mathlib.Nat.{mul-le-mul_left}
use tapioca_lending_engine.Contracts.BigBang.{BigBang, Rebase, SameCollateral, checked, checked_lem}

-- The new state, the part, and the amount of USDO that is minted for the borrower.
unfoldable pub borrow :
    (Rebase → ℕ → Bool → Outcome (Rebase × ℕ)) → ℕ → ℕ → ℕ → BigBang → Outcome (BigBang × ℕ × ℕ)
borrow add from amount fee b = do
  debt ← checked 256 (amount + fee)
  r ← add b.total_borrow debt true
  fail_if (ltb 0 b.total_borrow_cap && ltb b.total_borrow_cap r.0.elastic) "BorrowCapReached"
  part ← checked 256 (b.user_borrow_part from + r.1)
  ok (
    record b { total_borrow = r.0; user_borrow_part = update b.user_borrow_part from part },
    r.1,
    amount,
  )

-- The comparison for a user who has a debt and a collateral
unfoldable pub covers : ℕ → ℕ → ℕ → ℕ → BigBang → Outcome Bool
covers collateral_amount part exchange_rate rate b = do
  scaled ← checked 256 (collateral_amount * (b.exchange_rate_precision / 10 ^ 5))
  value ← checked 256 (scaled * rate)
  amount ← checked 256 (part * b.total_borrow.elastic)
  owed ← checked 256 (amount * exchange_rate)
  fail_if (b.total_borrow.base == 0) "Panic(0x12)"
  ok (leb (owed / b.total_borrow.base) value)

unfoldable pub is_solvent : (ℕ → ℕ) → ℕ → ℕ → Bool → BigBang → Outcome Bool
unfolding covers
is_solvent to_amount user exchange_rate liquidation b =
    if b.user_borrow_part user == 0
    then ok true
    else (if b.user_collateral_share user == 0
        then ok false
        else covers (to_amount (b.user_collateral_share user)) (b.user_borrow_part user)
            exchange_rate
            (if liquidation then b.liquidation_collateralization_rate else b.collateralization_rate)
            b)

-- What is assumed of `RebaseLibrary.add`: it adds the amount to the elastic side and the part that it
-- returns to the base.
abbrev pub AddsUp : (Rebase → ℕ → Bool → Outcome (Rebase × ℕ)) → Type 0
AddsUp add =
    (t : Rebase) (e : ℕ) (up : Bool) (r : Rebase × ℕ)
    → add t e up ≡ ok r
    → (r.0.elastic ≡ t.elastic + e) × (r.0.base ≡ t.base + r.1)

-- The test that `covers` makes, with no bound on the numbers
abbrev pub is_covered : ℕ → ℕ → ℕ → ℕ → BigBang → Bool
is_covered c p e r b =
    leb (p * b.total_borrow.elastic * e / b.total_borrow.base)
      (c * (b.exchange_rate_precision / 10 ^ 5) * r)

covers_lem :
    (c p e r : ℕ) (b : BigBang) {v : Bool} → covers c p e r b ≡ ok v → v ≡ is_covered c p e r b
unfolding covers
covers_lem c p e r b h =
    let (s, hs, h1) = >>=-eq-ok (checked 256 (c * (b.exchange_rate_precision / 10 ^ 5))) _ h in
    let (value, hv, h2) = >>=-eq-ok (checked 256 (s * r)) _ h1 in
    let (a, ha, h3) = >>=-eq-ok (checked 256 (p * b.total_borrow.elastic)) _ h2 in
    let (o, ho, h4) = >>=-eq-ok (checked 256 (a * e)) _ h3 in
    let (_, _, h5) = >>=-eq-ok (fail_if (b.total_borrow.base == 0) "Panic(0x12)") _ h4 in
    let es = (checked_lem 256 (c * (b.exchange_rate_precision / 10 ^ 5)) hs).0 in
    let ev = (checked_lem 256 (s * r) hv).0 ∙ ap (λ x. x * r) es in
    let ea = (checked_lem 256 (p * b.total_borrow.elastic) ha).0 in
    let eo = (checked_lem 256 (a * e) ho).0 ∙ ap (λ x. x * e) ea in
    sym (ok-injective h5) ∙ ap₂ (λ x y. leb (x / b.total_borrow.base) y) eo ev

leb_mono : (x y z : ℕ) → y ≤ z → leb x y ≡ true → leb x z ≡ true
leb_mono x y z h k = ground arith

solvent_value :
    (x p e r r' : ℕ) (b : BigBang) {v : Bool}
    → r ≤ r'
    → covers x p e r b ≡ ok true
    → covers x p e r' b ≡ ok v
    → v ≡ true
solvent_value x p e r r' b le h k =
    covers_lem x p e r' b k
    ∙ leb_mono (p * b.total_borrow.elastic * e / b.total_borrow.base)
        (x * (b.exchange_rate_precision / 10 ^ 5) * r)
        (x * (b.exchange_rate_precision / 10 ^ 5) * r')
        (mul-le-mul_left (x * (b.exchange_rate_precision / 10 ^ 5)) le)
        (sym (covers_lem x p e r b h))

pub is_solvent-liquidation :
    (to_amount : ℕ → ℕ) (user exchange_rate : ℕ) (b : BigBang) {v : Bool}
    → b.collateralization_rate ≤ b.liquidation_collateralization_rate
    → is_solvent to_amount user exchange_rate false b ≡ ok true
    → is_solvent to_amount user exchange_rate true b ≡ ok v
    → v ≡ true
unfolding is_solvent
is_solvent-liquidation to_amount user x b {v} le h k =
    let part = b.user_borrow_part user in
    let share = b.user_collateral_share user in
    elim (Bool-cases (part == 0)) [
      | inl none ↦ sym (ok-injective (sym (if-true (part == 0) _ _ none) ∙ k))
      | inr debt ↦
          let h1 = sym (if-false (part == 0) _ _ debt) ∙ h in
          let k1 = sym (if-false (part == 0) _ _ debt) ∙ k in
          elim (Bool-cases (share == 0)) [
            | inl bare ↦
                absurd (false≢true (ok-injective (sym (if-true (share == 0) _ _ bare) ∙ h1)))
            | inr some_share ↦
                solvent_value (to_amount share) part x b.collateralization_rate
                  b.liquidation_collateralization_rate b le
                  (sym (if-false (share == 0) _ _ some_share) ∙ h1)
                  (sym (if-false (share == 0) _ _ some_share) ∙ k1)
          ]
    ]

-- Where the collateralization rate is no greater than the liquidation rate, a user who is solvent by the
-- first is never insolvent by the second: whoever may borrow may not be liquidated at the same rate of
-- exchange.
pub is_solvent_not_liquidatable :
    (to_amount : ℕ → ℕ) (user exchange_rate : ℕ) (b : BigBang)
    → b.collateralization_rate ≤ b.liquidation_collateralization_rate
    → is_solvent to_amount user exchange_rate false b ≡ ok true
    → is_solvent to_amount user exchange_rate true b ≢ ok false
is_solvent_not_liquidatable to_amount user x b le h k =
    false≢true (is_solvent-liquidation to_amount user x b le h k)

-- The books after a borrow, against those before
abbrev pub IsBorrow : ℕ → ℕ → ℕ → BigBang → BigBang × ℕ × ℕ → Type 0
IsBorrow from amount fee b (b', part, minted) =
    (0 < b.total_borrow_cap → b'.total_borrow.elastic ≤ b.total_borrow_cap)
    × (b'.total_borrow.elastic ≡ b.total_borrow.elastic + (amount + fee))
    × (b'.total_borrow.base + b.user_borrow_part from
        ≡ b.total_borrow.base + b'.user_borrow_part from)
    × ((u : ℕ) → u ≢ from → b'.user_borrow_part u ≡ b.user_borrow_part u)
    × (minted ≡ amount)
    × SameCollateral b b'

pub ==_ne : (a b : ℕ) → a ≢ b → (a == b) ≡ false
==_ne a b h = ground (arith, ==_iff a b)

cap_kept :
    (cap elastic : ℕ) {u : Unit {0}}
    → fail_if (ltb 0 cap && ltb cap elastic) "BorrowCapReached" ≡ ok u
    → 0 < cap
    → elastic ≤ cap
cap_kept cap elastic h p = ground arith

base_kept : (x y z w p : ℕ) → x ≡ y + p → w ≡ z + p → x + z ≡ y + w
base_kept x y z w p h k = omega arith

-- With a `RebaseLibrary` that adds up, a borrow that does not revert leaves the total debt within the cap,
-- if there is one; the debt grows by the amount and the fee, the base by what the borrower's part grows
-- by, neither another user's part nor a collateral changes, and the amount without the fee is minted.
pub borrow-IsBorrow :
    (add : Rebase → ℕ → Bool → Outcome (Rebase × ℕ))
    → AddsUp add
    → (from amount fee : ℕ) (b : BigBang) {r : BigBang × ℕ × ℕ}
    → borrow add from amount fee b ≡ ok r
    → IsBorrow from amount fee b r
unfolding borrow
borrow-IsBorrow add law from amount fee b h =
    let (debt, hd, h1) = >>=-eq-ok (checked 256 (amount + fee)) _ h in
    let (r, hr, h2) = >>=-eq-ok (add b.total_borrow debt true) _ h1 in
    let (_, cap, h3) =
      >>=-eq-ok
        (fail_if (ltb 0 b.total_borrow_cap && ltb b.total_borrow_cap r.0.elastic)
          "BorrowCapReached")
        _ h2 in
    let (part, hp, h4) = >>=-eq-ok (checked 256 (b.user_borrow_part from + r.1)) _ h3 in
    let sums = law b.total_borrow debt true r hr in
    subst (IsBorrow from amount fee b) (ok-injective h4) (
      cap_kept b.total_borrow_cap r.0.elastic cap,
      sums.0 ∙ ap (λ x. b.total_borrow.elastic + x) ((checked_lem 256 (amount + fee) hd).0),
      base_kept r.0.base b.total_borrow.base (b.user_borrow_part from)
          (update b.user_borrow_part from part from) r.1 sums.1
          (if-true (from == from) _ _ (==_refl from)
            ∙ (checked_lem 256 (b.user_borrow_part from + r.1) hp).0),
      (λ u ne. if-false (u == from) _ _ (==_ne u from ne)),
      refl,
      (refl, refl),
    )
