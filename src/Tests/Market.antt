-- ===== src/Tests/Market.antt =====
-- A BigBang market with one borrower.
use tapioca_lending_engine.Base.{
  ℕ, ◌+◌, ◌*◌, ◌^◌, ◌≤◌, ◌≡◌, ◌≢◌, refl, Bool, true, false, Outcome, ok, ap, sym, ◌∙◌, ok-injective,
  if◌then◌else◌, ◌==◌, arith,
}
use tapioca_lending_engine.Contracts.BigBang.{BigBang, Rebase}
use tapioca_lending_engine.Contracts.BigBang.Both.{accrue_both-accrue_view, accrue_view_before}
use tapioca_lending_engine.Contracts.BigBang.Rate.{accrue_both, get_debt_rate, accrue_view}
use tapioca_lending_engine.Contracts.BigBang.Accrual.{get_debt_rate_bounds, IsAccrual}
use tapioca_lending_engine.Contracts.BigBang.Fee.{
  compute_variable_opening_fee, compute_variable_opening_fee-IsFee, IsFee,
}
use tapioca_lending_engine.Contracts.BigBang.Lending.{
  borrow, is_solvent, AddsUp, is_solvent_not_liquidatable, borrow-IsBorrow, IsBorrow,
}
use tapioca_lending_engine.Contracts.InitRates.{big_bang_init_rates, init_rates_ordered}
use tapioca_lending_engine.Base.{leb, inl}
use tapioca_lending_engine.Tests.Data.{value_or}

-- User 5 has a debt of 1000 against a collateral of 2000.
abbrev pub market : BigBang
market = record {
  is_main_market = false;
  min_debt_rate = 5 * 10 ^ 16;
  max_debt_rate = 35 * 10 ^ 16;
  debt_rate_against_eth_market = 15 * 10 ^ 16;
  min_mint_fee = 0;
  max_mint_fee = 1000;
  min_mint_fee_start = 10 ^ 18;
  max_mint_fee_start = 975 * 10 ^ 15;
  open_interest_debt = 7;
  debt_rate = 0;
  last_accrued = 100;
  total_borrow = record { elastic = 1000; base = 1000 };
  total_borrow_cap = 5000;
  user_borrow_part = λ u. if u == 5 then 1000 else 0;
  allowance = λ _. λ _. 0;
  exchange_rate = 10 ^ 18;
  user_collateral_share = λ u. if u == 5 then 2000 else 0;
  total_collateral_share = 2000;
  rate_timestamp = 0;
  allowance_borrow = λ f s. 0;
  collateralization_rate = 87_000;
  liquidation_collateralization_rate = 93_000;
  exchange_rate_precision = 10 ^ 18;
}

-- The debt is halfway to the greatest: the main market has 13333.
abbrev rate : ℕ
unfolding get_debt_rate
rate = value_or 0 (get_debt_rate 0 13_333 market)

get_debt_rate_bounds_example : (5 * 10 ^ 16 ≤ rate) × (rate ≤ 35 * 10 ^ 16)
unfolding get_debt_rate rate
get_debt_rate_bounds_example =
    get_debt_rate_bounds 0 13_333 market {r = rate} refl (omega arith) refl

-- A year later, where the main market has accrued too: with its greater debt the rate is smaller.
abbrev main_market : BigBang
main_market = record market {
  is_main_market = true;
  total_borrow = record { elastic = 13_333; base = 13_333 };
}

abbrev a_year_later : BigBang × BigBang
unfolding accrue_both
a_year_later = value_or (market, market) (accrue_both (10 ^ 17) false 31_557_700 main_market market)

accrue_both-accrue_view_example :
    (accrue_view (10 ^ 17) a_year_later.0.total_borrow.elastic 31_557_700 market
      ≡ ok a_year_later.1.total_borrow)
    × IsAccrual main_market a_year_later.0
    × IsAccrual market a_year_later.1
unfolding accrue_both a_year_later
accrue_both-accrue_view_example =
    accrue_both-accrue_view (10 ^ 17) 31_557_700 false main_market market {r = a_year_later}
      (omega arith) (omega arith) refl

-- What the view shows before
abbrev shown_before : Rebase
unfolding accrue_view
shown_before = value_or market.total_borrow (accrue_view (10 ^ 17) 13_333 31_557_700 market)

accrue_view_before_example : a_year_later.1.total_borrow.elastic ≤ shown_before.elastic
unfolding accrue_both a_year_later accrue_view shown_before
accrue_view_before_example =
    accrue_view_before (10 ^ 17) 31_557_700 false main_market market {r = a_year_later}
      {v = shown_before} (omega arith) (omega arith) (omega arith) refl refl

-- USDO at 0.99
abbrev fee : ℕ
unfolding compute_variable_opening_fee
fee = value_or 0 (compute_variable_opening_fee true (99 * 10 ^ 16) 10_000 market)

compute_variable_opening_fee-IsFee_example : IsFee market 10_000 fee
unfolding compute_variable_opening_fee fee
compute_variable_opening_fee-IsFee_example =
    compute_variable_opening_fee-IsFee true (99 * 10 ^ 16) 10_000 market {r = fee} (omega arith)
      refl

is_solvent_not_liquidatable_example : is_solvent (λ n. n) 5 (10 ^ 18) true market ≢ ok false
unfolding is_solvent
is_solvent_not_liquidatable_example =
    is_solvent_not_liquidatable (λ n. n) 5 (10 ^ 18) market (omega arith) refl

-- A library that gives as many parts as the amount is
abbrev pub add_one_to_one : Rebase → ℕ → Bool → Outcome (Rebase × ℕ)
add_one_to_one t e up = ok (record { elastic = t.elastic + e; base = t.base + e }, e)

pub add_one_to_one-AddsUp : AddsUp add_one_to_one
add_one_to_one-AddsUp t e up r h =
    let same = sym (ok-injective h) in
    (
      ap (λ (x : Rebase × ℕ). x.0.elastic) same,
      ap (λ (x : Rebase × ℕ). x.0.base) same ∙ ap (λ (x : Rebase × ℕ). t.base + x.1) (sym same),
    )

abbrev borrowed : BigBang × ℕ × ℕ
unfolding borrow
borrowed = value_or (market, 0, 0) (borrow add_one_to_one 6 500 3 market)

borrow-IsBorrow_example : IsBorrow 6 500 3 market borrowed
unfolding borrow borrowed
borrow-IsBorrow_example =
    borrow-IsBorrow add_one_to_one add_one_to_one-AddsUp 6 500 3 market {r = borrowed} refl

-- Rates that are 0 become 75 % and 80 %.
init_rates_ordered_example : leb 75_000 80_000 ≡ true
unfolding big_bang_init_rates
init_rates_ordered_example = init_rates_ordered 0 0 {r = (75_000, 80_000)} (inl refl)
