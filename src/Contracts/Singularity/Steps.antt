-- ===== src/Contracts/Singularity/Steps.antt =====
-- Sequences of the operations on the fractions and the debt of a Singularity market
-- (contracts/markets/singularity, contracts/markets/MarketERC20.sol).
use tapioca_lending_engine.Base.{ℕ, ◌≡◌, Bool, true, List, Outcome, ok, elem}
use tapioca_lending_engine.Contracts.Penrose.Debt.{Distinct}
use tapioca_lending_engine.Contracts.BigBang.{Rebase}
use tapioca_lending_engine.Contracts.BigBang.Lending.{AddsUp}
use tapioca_lending_engine.Contracts.BigBang.Repaid.{SubsDown}
use tapioca_lending_engine.Contracts.Singularity.{Singularity}
use tapioca_lending_engine.Contracts.Singularity.Interest.{accrue}
use tapioca_lending_engine.Contracts.Singularity.Shares.{
  IsShared, AddsBoth, accrue-IsShared, add_asset-IsShared, remove_asset-IsShared,
}
use tapioca_lending_engine.Contracts.Singularity.Assets.{
  add_asset, remove_asset, refresh_penrose_fees, borrow_asset, repay_asset, transfer, transfer_from,
}
use tapioca_lending_engine.Contracts.Singularity.Lenders.{
  refresh_penrose_fees-IsShared, borrow_asset-IsShared, repay_asset-IsShared, transfer-IsShared,
  transfer_from-IsShared,
}

-- An operation that does not revert, for users of the list
pub data AssetStep (users : List ℕ) (s t : Singularity) : Type 0 where
  by_accrue : (to_amount : ℕ → ℕ) (now : ℕ) → accrue to_amount now s ≡ ok t → AssetStep users s t
  by_add_asset :
      (add : Rebase → ℕ → ℕ → Outcome Rebase) (to_share : ℕ → Bool → ℕ) (balance : ℕ) (fails : Bool)
      (to : ℕ) (skim : Bool) (share fraction : ℕ)
      → AddsBoth add
      → elem to users ≡ true
      → add_asset add to_share balance fails to skim share s ≡ ok (t, fraction)
      → AssetStep users s t
  by_remove_asset :
      (to_share : ℕ → Bool → ℕ) (from fraction share : ℕ)
      → elem from users ≡ true
      → remove_asset to_share from fraction s ≡ ok (t, share)
      → AssetStep users s t
  by_refresh_fees :
      (to_amount : ℕ → ℕ) (to_share : ℕ → Bool → ℕ) (now : ℕ) (is_owner : Bool) (share : ℕ)
      → refresh_penrose_fees to_amount to_share now is_owner s ≡ ok (t, share)
      → AssetStep users s t
  by_borrow :
      (add_debt : Rebase → ℕ → Bool → Outcome (Rebase × ℕ)) (to_amount : ℕ → ℕ)
      (to_share : ℕ → Bool → ℕ) (from amount part share : ℕ)
      → AddsUp add_debt
      → elem from users ≡ true
      → borrow_asset add_debt to_amount to_share from amount s ≡ ok (t, part, share)
      → AssetStep users s t
  by_repay :
      (sub_debt : Rebase → ℕ → Bool → Outcome (Rebase × ℕ)) (to_share : ℕ → Bool → ℕ) (balance : ℕ)
      (fails : Bool) (to : ℕ) (skim : Bool) (part amount : ℕ)
      → SubsDown sub_debt
      → elem to users ≡ true
      → repay_asset sub_debt to_share balance fails to skim part s ≡ ok (t, amount)
      → AssetStep users s t
  by_transfer :
      (sender to amount : ℕ)
      → elem sender users ≡ true
      → elem to users ≡ true
      → transfer sender to amount s ≡ ok t
      → AssetStep users s t
  by_transfer_from :
      (sender from to amount : ℕ)
      → elem from users ≡ true
      → elem to users ≡ true
      → transfer_from sender from to amount s ≡ ok t
      → AssetStep users s t

pub data AssetSteps (users : List ℕ) (s : Singularity) : Singularity → Type 0 where
  none_yet : AssetSteps users s s
  then_step :
      {t u : Singularity} → AssetSteps users s t → AssetStep users t u → AssetSteps users s u

AssetStep-IsShared :
    (users : List ℕ) {s t : Singularity}
    → Distinct users
    → AssetStep users s t
    → IsShared users s
    → IsShared users t
AssetStep-IsShared users {s} d (by_accrue to_amount now h) k =
    accrue-IsShared users d to_amount now s h k
AssetStep-IsShared users {s} d (by_add_asset add to_share balance fails to skim share f law mem h)
      k =
    add_asset-IsShared users d add to_share balance fails to skim share s law mem h k
AssetStep-IsShared users {s} d (by_remove_asset to_share from fraction share mem h) k =
    remove_asset-IsShared users d to_share from fraction s mem h k
AssetStep-IsShared users {s} d (by_refresh_fees to_amount to_share now is_owner share h) k =
    refresh_penrose_fees-IsShared users d to_amount to_share now is_owner s h k
AssetStep-IsShared users {s} d (by_borrow add_debt to_amount to_share from a part share law mem h)
      k =
    borrow_asset-IsShared users d add_debt to_amount to_share from a s law mem h k
AssetStep-IsShared users {s} d (by_repay sub_debt to_share balance fails to skim part a law mem h)
      k =
    repay_asset-IsShared users d sub_debt to_share balance fails to skim part s law mem h k
AssetStep-IsShared users {s} d (by_transfer sender to amount mem_from mem_to h) k =
    transfer-IsShared users d sender to amount s mem_from mem_to h k
AssetStep-IsShared users {s} d (by_transfer_from sender from to amount mem_from mem_to h) k =
    transfer_from-IsShared users d sender from to amount s mem_from mem_to h k

-- After any sequence of accruals, deposits, withdrawals, collections of fees, borrows, repayments and transfers
-- that do not revert, of users that the list names once each and with libraries that add up, the
-- fractions of the users and what is not collected make up the base of the assets, the parts of the
-- users make up the base of the debt, and the interest is between its bounds, if all this held before.
pub AssetSteps-IsShared :
    (users : List ℕ) {s t : Singularity}
    → Distinct users
    → AssetSteps users s t
    → IsShared users s
    → IsShared users t
AssetSteps-IsShared users d none_yet k = k
AssetSteps-IsShared users d (then_step before step) k =
    AssetStep-IsShared users d step (AssetSteps-IsShared users d before k)
