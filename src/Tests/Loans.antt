-- ===== src/Tests/Loans.antt =====
-- A borrow, an accrual and a repayment, one after the other.
use tapioca_lending_engine.Base.{
  ℕ, ◌-◌, ◌≢◌, refl, ltb, Bool, true, [], ◌∷◌, Outcome, ok, fail, arith, if◌then◌else◌,
}
use tapioca_lending_engine.Contracts.BigBang.{BigBang, Rebase}
use tapioca_lending_engine.Contracts.BigBang.Rate.{accrue}
use tapioca_lending_engine.Contracts.BigBang.Lending.{borrow}
use tapioca_lending_engine.Contracts.BigBang.Repay.{repay, repaid_part}
use tapioca_lending_engine.Contracts.BigBang.Repaid.{SubsDown, repay-IsRepay, IsRepay}
use tapioca_lending_engine.Contracts.BigBang.Books.{
  by_borrow, by_repay, by_accrue, Loans, none_yet, then_step,
}
use tapioca_lending_engine.Tests.Data.{value_or}
use tapioca_lending_engine.Tests.Market.{market, add_one_to_one, add_one_to_one-AddsUp}

-- A library that takes as much as the part is, and reverts where there is less
abbrev pub sub_one_to_one : Rebase → ℕ → Bool → Outcome (Rebase × ℕ)
sub_one_to_one t p up =
    if ltb t.elastic p
    then fail "underflow"
    else (if ltb t.base p
        then fail "underflow"
        else ok (record { elastic = t.elastic - p; base = t.base - p }, p))

pub sub_one_to_one-SubsDown : SubsDown sub_one_to_one
sub_one_to_one-SubsDown t p up r h = ground arith

abbrev borrowed : BigBang
unfolding borrow
borrowed = (value_or (market, 0, 0) (borrow add_one_to_one 6 500 3 market)).0

abbrev later : BigBang
unfolding accrue borrowed
later = value_or market (accrue 0 13_333 200 borrowed)

-- User 5 asks to repay more than there is.
abbrev repaid : BigBang × ℕ
unfolding repay later
repaid = value_or (market, 0) (repay sub_one_to_one (λ n. n) 18 0 true 5 5 5 4000 later)

repay-IsRepay_example : IsRepay 5 1000 later repaid × (repaid_part 5 4000 later ≢ 0)
unfolding repay repaid later borrowed accrue borrow
repay-IsRepay_example =
    repay-IsRepay sub_one_to_one sub_one_to_one-SubsDown (λ n. n) 18 0 5 5 5 true 4000 later
      {r = repaid} refl

loans : Loans (5 ∷ 6 ∷ []) market repaid.0
unfolding repay repaid later borrowed accrue borrow
loans =
    then_step {c = later}
      (then_step {c = borrowed}
        (then_step {c = market} none_yet
          (by_borrow add_one_to_one 6 500 3 503 500 add_one_to_one-AddsUp refl refl))
        (by_accrue 0 13_333 200 (omega arith) refl))
      (by_repay sub_one_to_one (λ n. n) 18 0 5 5 5 true 4000 1000 sub_one_to_one-SubsDown refl refl)
