-- ===== src/Contracts/BigBang/Books.antt =====
-- Sequences of borrows, repayments and accruals of contracts/markets/bigBang, and the parts of the users.
use tapioca_lending_engine.Base.{
  ℕ, ◌≡◌, ◌^◌, ◌<◌, sym, ap, ◌∙◌, Bool, true, List, Outcome, ok, elem,
}
use tapioca_lending_engine.Contracts.Penrose.Debt.{Distinct}
use tapioca_lending_engine.Contracts.BigBang.{BigBang, Rebase}
use tapioca_lending_engine.Contracts.BigBang.Sums.{sum_parts, sum_parts-inside, balance}
use tapioca_lending_engine.Contracts.BigBang.Rate.{accrue}
use tapioca_lending_engine.Contracts.BigBang.Accrual.{accrue-accrue_view}
use tapioca_lending_engine.Contracts.BigBang.Lending.{borrow, AddsUp, borrow-IsBorrow}
use tapioca_lending_engine.Contracts.BigBang.Repay.{repay}
use tapioca_lending_engine.Contracts.BigBang.Repaid.{SubsDown, repay-IsRepay}

-- A call of a market by which a debt changes, of a user in the list: the two libraries and the prices
-- are whatever they are at the time, and the libraries add up.
pub data LoanStep (users : List ℕ) (b b' : BigBang) : Type 0 where
  by_borrow :
      (add : Rebase → ℕ → Bool → Outcome (Rebase × ℕ)) (from amount fee part minted : ℕ)
      → AddsUp add
      → elem from users ≡ true
      → borrow add from amount fee b ≡ ok (b', part, minted)
      → LoanStep users b b'
  by_repay :
      (sub : Rebase → ℕ → Bool → Outcome (Rebase × ℕ)) (to_amount : ℕ → ℕ)
      (decimals allowed sender from to : ℕ) (check : Bool) (part amount : ℕ)
      → SubsDown sub
      → elem to users ≡ true
      → repay sub to_amount decimals allowed check sender from to part b ≡ ok (b', amount)
      → LoanStep users b b'
  by_accrue :
      (main_rate eth_debt now : ℕ)
      → b.total_borrow.elastic < 2 ^ 128
      → accrue main_rate eth_debt now b ≡ ok b'
      → LoanStep users b b'

pub data Loans (users : List ℕ) (b : BigBang) : BigBang → Type 0 where
  none_yet : Loans users b b
  then_step : {c d : BigBang} → Loans users b c → LoanStep users c d → Loans users b d

-- The parts of the users add up to the base.
abbrev pub IsBacked : List ℕ → BigBang → Type 0
IsBacked users b = sum_parts users b.user_borrow_part ≡ b.total_borrow.base

LoanStep-IsBacked :
    (users : List ℕ) {b b' : BigBang}
    → Distinct users
    → LoanStep users b b'
    → IsBacked users b
    → IsBacked users b'
LoanStep-IsBacked users {b} {b'} d (by_borrow add from amount fee part minted law mem h) backed =
    let books = borrow-IsBorrow add law from amount fee b h in
    balance (sum_parts users b'.user_borrow_part) (b.user_borrow_part from)
      (sum_parts users b.user_borrow_part) (b'.user_borrow_part from) b.total_borrow.base
      b'.total_borrow.base
      (sum_parts-inside users b.user_borrow_part b'.user_borrow_part from d mem books.3) books.2
      backed
LoanStep-IsBacked users {b} {b'} d
      (by_repay sub to_amount dec allowed sender from to check part amount law mem h) backed =
    let books = (repay-IsRepay sub law to_amount dec allowed sender from to check part b h).0 in
    balance (sum_parts users b'.user_borrow_part) (b.user_borrow_part to)
      (sum_parts users b.user_borrow_part) (b'.user_borrow_part to) b.total_borrow.base
      b'.total_borrow.base
      (sum_parts-inside users b.user_borrow_part b'.user_borrow_part to d mem books.3) books.1
      backed
LoanStep-IsBacked users {b} {b'} d (by_accrue main_rate eth_debt now small h) backed =
    let books = (accrue-accrue_view main_rate eth_debt now b small h).1 in
    ap (sum_parts users) books.3 ∙ backed ∙ sym books.2

-- After any sequence of borrows, repayments and accruals that do not revert, of users that the list names
-- once each, their parts add up to the base of the debt if they did before.
pub Loans-IsBacked :
    (users : List ℕ) {b b' : BigBang}
    → Distinct users
    → Loans users b b'
    → IsBacked users b
    → IsBacked users b'
Loans-IsBacked users d none_yet h = h
Loans-IsBacked users d (then_step steps s) h =
    LoanStep-IsBacked users d s (Loans-IsBacked users d steps h)
