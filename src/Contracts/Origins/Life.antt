-- ===== src/Contracts/Origins/Life.antt =====
-- An Origins market from its construction on.
use tapioca_lending_engine.Base.{
  ℕ, ◌+◌, ◌==◌, ◌^◌, ◌≡◌, refl, ap, subst, arith, Bool, ltb, Option, List, [], ◌∷◌, Outcome, ok,
  fail_if, >>=-eq-ok, ok-injective,
}
use tapioca_lending_engine.Contracts.Penrose.Debt.{Distinct}
use tapioca_lending_engine.Contracts.BigBang.{Rebase}
use tapioca_lending_engine.Contracts.BigBang.Sums.{sum_parts}
use tapioca_lending_engine.Contracts.BigBang.Lending.{AddsUp}
use tapioca_lending_engine.Contracts.BigBang.Repaid.{SubsDown}
use tapioca_lending_engine.Contracts.BigBang.Entry.{update_exchange_rate}
use tapioca_lending_engine.Contracts.BigBang.Keeps.{IsBooked, kept, update_exchange_rate-KeepsBooks}
use tapioca_lending_engine.Contracts.Origins.{Origins, Sent, new_core, new_origins, run_origins}
use tapioca_lending_engine.Contracts.Origins.Backed.{
  SendersIn, run_origins-IsBacked, update_exchange_rate-same_debt,
}

sum_parts-zero : (users : List ℕ) → sum_parts users (λ _. 0) ≡ 0
sum_parts-zero [] = refl
sum_parts-zero (u ∷ us) = omega (arith, sum_parts-zero us)

-- A new market has no debt and no collateral.
new_origins-empty :
    (owner asset collateral oracle : ℕ) (answer : Option (Bool × ℕ)) (now precision rate : ℕ)
    (users : List ℕ) {o : Origins}
    → new_origins owner asset collateral oracle answer now precision rate ≡ ok o
    → IsBooked users o.core × (o.core.total_borrow.elastic ≡ 0)
unfolding new_origins
new_origins-empty owner asset collateral oracle answer now precision rate users {o} h =
    let fresh = new_core precision rate in
    let (_, _, h1) = >>=-eq-ok (fail_if (collateral == 0) "BadPair") _ h in
    let (_, _, h2) = >>=-eq-ok (fail_if (asset == 0) "BadPair") _ h1 in
    let (_, _, h3) = >>=-eq-ok (fail_if (oracle == 0) "BadPair") _ h2 in
    let (_, _, h4) = >>=-eq-ok (fail_if (ltb (10 ^ 5) rate) "NotValid") _ h3 in
    let (core, hc, h5) = >>=-eq-ok (update_exchange_rate answer now fresh) _ h4 in
    let booked : IsBooked users fresh = (sum_parts-zero users, sum_parts-zero users) in
    let e = ap (λ (t : Rebase). t.elastic) (update_exchange_rate-same_debt answer now fresh hc) in
    subst (λ (x : Origins). IsBooked users x.core × (x.core.total_borrow.elastic ≡ 0))
      (ok-injective h5)
      (kept users fresh core (update_exchange_rate-KeepsBooks answer now fresh hc) booked, e)

-- Whatever calls are made on a new market, each of them run or reverted, by users that the list names
-- once each and with libraries that add up: the parts of the users add up to the base of the debt and
-- their collateral to its sum, and the debt is the USDO that the market has minted less the USDO that it
-- has burned.
pub new_origins-IsBacked :
    (add sub : Rebase → ℕ → Bool → Outcome (Rebase × ℕ)) (users : List ℕ)
    (owner asset collateral oracle : ℕ) (answer : Option (Bool × ℕ)) (now precision rate : ℕ)
    (ss : List Sent) {o : Origins}
    → Distinct users
    → AddsUp add
    → SubsDown sub
    → SendersIn users ss
    → new_origins owner asset collateral oracle answer now precision rate ≡ ok o
    → let e = run_origins add sub ss o in
      IsBooked users e.after.core × (e.after.core.total_borrow.elastic + e.burned ≡ e.minted)
new_origins-IsBacked add sub users owner asset collateral oracle answer now precision rate ss {o} d
      adds subs all h =
    let (booked, none) =
      new_origins-empty owner asset collateral oracle answer now precision rate users h in
    let (k, e) = run_origins-IsBacked users d add sub adds subs ss o all booked in
    (k, omega (arith, e, none))
