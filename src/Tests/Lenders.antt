-- ===== src/Tests/Lenders.antt =====
-- A Singularity market: a deposit, a loan, a year, and the fees of Penrose.
use tapioca_lending_engine.Base.{
  ℕ, ◌+◌, ◌*◌, ◌^◌, ◌==◌, refl, true, false, [], ◌∷◌, Outcome, ok, arith, if◌then◌else◌, sym, ap,
  ok-injective,
}
use tapioca_lending_engine.Contracts.BigBang.{Rebase}
use tapioca_lending_engine.Contracts.Singularity.{Singularity}
use tapioca_lending_engine.Contracts.Singularity.Interest.{accrue}
use tapioca_lending_engine.Contracts.Singularity.Bounds.{InBounds}
use tapioca_lending_engine.Contracts.Singularity.Accrual.{accrue-InBounds, IsEarned}
use tapioca_lending_engine.Contracts.Singularity.Assets.{
  add_asset, borrow_asset, refresh_penrose_fees,
}
use tapioca_lending_engine.Contracts.Singularity.Shares.{IsShared, AddsBoth}
use tapioca_lending_engine.Contracts.Singularity.Steps.{
  AssetSteps, none_yet, then_step, by_add_asset, by_borrow, by_accrue, by_refresh_fees,
  AssetSteps-IsShared,
}
use tapioca_lending_engine.Tests.Data.{value_or}
use tapioca_lending_engine.Tests.Market.{add_one_to_one, add_one_to_one-AddsUp}

-- User 5 has lent 10000, and Penrose is 1. The interest is 1% in a year.
abbrev pool : Singularity
pool = record {
  interest_per_second = 317_097_920;
  last_accrued = 100;
  fees_earned_fraction = 0;
  total_asset = record { elastic = 10_000_000; base = 10_000_000 };
  total_borrow = record { elastic = 0; base = 0 };
  total_borrow_cap = 0;
  user_borrow_part = λ u. 0;
  balance_of = λ u. if u == 5 then 10_000_000 else 0;
  allowance = λ f s. 0;
  minimum_target_utilization = 3 * 10 ^ 17;
  maximum_target_utilization = 5 * 10 ^ 17;
  minimum_interest_per_second = 158_548_960;
  maximum_interest_per_second = 317_097_920_000;
  interest_elasticity = 28_800 * 10 ^ 36;
  starting_interest_per_second = 317_097_920;
  borrow_opening_fee = 50;
  protocol_fee = 10_000;
  penrose = 1;
}

abbrev add_both : Rebase → ℕ → ℕ → Outcome Rebase
add_both t elastic base = ok (record { elastic = t.elastic + elastic; base = t.base + base })

add_both-AddsBoth : AddsBoth add_both
add_both-AddsBoth t elastic base r h = (
  ap (λ (x : Rebase). x.elastic) (sym (ok-injective h)),
  ap (λ (x : Rebase). x.base) (sym (ok-injective h)),
)

-- User 6 lends 2000000, and user 7 borrows 9000000.
abbrev deeper : Singularity
unfolding add_asset
deeper = (value_or (pool, 0) (add_asset add_both (λ n up. n) 0 false 6 false 2_000_000 pool)).0

abbrev lent : Singularity
unfolding borrow_asset deeper
lent =
    (value_or (pool, 0, 0) (borrow_asset add_one_to_one (λ n. n) (λ n up. n) 7 9_000_000 deeper)).0

abbrev a_year_later : Singularity
unfolding accrue lent
a_year_later = value_or pool (accrue (λ n. n) 31_557_700 lent)

abbrev paid_out : Singularity
unfolding refresh_penrose_fees a_year_later accrue
paid_out =
    (value_or (pool, 0) (refresh_penrose_fees (λ n. n) (λ n up. n) 31_557_700 true a_year_later)).0

pool-InBounds : InBounds pool
pool-InBounds = (omega arith, omega arith, omega arith, omega arith)

accrue-InBounds_example : InBounds a_year_later × IsEarned lent a_year_later
unfolding accrue lent a_year_later borrow_asset deeper add_asset
accrue-InBounds_example =
    accrue-InBounds (λ n. n) 31_557_700 lent {u = a_year_later} pool-InBounds refl

steps : AssetSteps (1 ∷ 5 ∷ 6 ∷ 7 ∷ []) pool paid_out
unfolding accrue lent a_year_later borrow_asset deeper add_asset refresh_penrose_fees paid_out
steps =
    then_step {t = a_year_later}
      (then_step {t = lent}
        (then_step {t = deeper}
          (then_step {t = pool} none_yet (
            by_add_asset add_both (λ n up. n) 0 false 6 false 2_000_000 2_000_000 add_both-AddsBoth
              refl refl))
          (by_borrow add_one_to_one (λ n. n) (λ n up. n) 7 9_000_000 9_004_500 9_000_000
            add_one_to_one-AddsUp refl refl))
        (by_accrue (λ n. n) 31_557_700 refl))
      (by_refresh_fees (λ n. n) (λ n up. n) 31_557_700 true _ refl)

AssetSteps-IsShared_example : IsShared (1 ∷ 5 ∷ 6 ∷ 7 ∷ []) paid_out
AssetSteps-IsShared_example =
    AssetSteps-IsShared (1 ∷ 5 ∷ 6 ∷ 7 ∷ []) (refl, (refl, (refl, (refl, tt)))) steps
      (pool-InBounds, refl, refl, refl)
