-- ===== src/Contracts/Singularity/Assets.antt =====
-- `_addAsset`, `_removeAsset` and `refreshPenroseFees` of contracts/markets/singularity/Singularity.sol,
-- `_borrow` and `_repay` of SGLLendingCommon.sol and the transfers of contracts/markets/MarketERC20.sol.
-- `add` is the function of `RebaseLibrary` that adds to both sides, `add_debt` and `sub_debt` the
-- ones that convert. `to_share` is YieldBox's `toShare` of the asset.
use tapioca_lending_engine.Base.{
  ℕ, ◌+◌, ◌-◌, ◌*◌, ◌/◌, ◌^◌, ◌==◌, ltb, Bool, true, false, not, ◌||◌, ◌&&◌, Outcome, ok, ◌>>=◌,
  ◌>>◌, fail_if, update, if◌then◌else◌,
}
use tapioca_lending_engine.Contracts.BigBang.{Rebase, checked, minus}
use tapioca_lending_engine.Contracts.Singularity.{Singularity}
use tapioca_lending_engine.Contracts.Singularity.Interest.{full_asset_amount, accrue}

-- `allShare == 0 ? share : (share * base) / allShare`
unfoldable pub fraction_of : (ℕ → Bool → ℕ) → ℕ → Singularity → Outcome ℕ
fraction_of to_share share s = do
  all ← checked 256 (s.total_asset.elastic + to_share s.total_borrow.elastic true)
  if all == 0
      then ok share
      else (checked 256 (share * s.total_asset.base) >>= λ product. ok (product / all))

-- `_addTokens`: the balance of the market in YieldBox is compared, or the tokens are moved.
unfoldable pub add_tokens : ℕ → Bool → ℕ → ℕ → Bool → Outcome (Unit {0})
add_tokens balance transfer_fails share total skim =
    if skim
    then (minus balance total >>= λ free. fail_if (ltb free share) "TransferFailed")
    else fail_if transfer_fails "TransferFailed"

-- `_addAsset`: the state and the fraction, which is 0 where the market would be too small
unfoldable pub add_asset :
    (Rebase → ℕ → ℕ → Outcome Rebase)
    → (ℕ → Bool → ℕ)
    → ℕ
    → Bool
    → ℕ
    → Bool
    → ℕ
    → Singularity
    → Outcome (Singularity × ℕ)
unfolding fraction_of add_tokens
add_asset add to_share balance transfer_fails to skim share s = do
  fraction ← fraction_of to_share share s
  fraction_128 ← checked 128 fraction
  base ← checked 128 (s.total_asset.base + fraction_128)
  if ltb base 1000 then ok (s, 0) else do
    total ← add s.total_asset share fraction
    mine ← checked 256 (s.balance_of to + fraction)
    add_tokens balance transfer_fails share s.total_asset.elastic skim
    ok (record s { total_asset = total; balance_of = update s.balance_of to mine }, fraction)

-- `_removeAsset`: the state and the share that is paid out
unfoldable pub remove_asset : (ℕ → Bool → ℕ) → ℕ → ℕ → Singularity → Outcome (Singularity × ℕ)
remove_asset to_share from fraction s = if s.total_asset.base == 0 then ok (s, 0) else do
  all ← checked 256 (s.total_asset.elastic + to_share s.total_borrow.elastic false)
  product ← checked 256 (fraction * all)
  fraction_128 ← checked 128 fraction
  base ← minus s.total_asset.base fraction_128
  fail_if (ltb base 1000) "MinLimit"
  mine ← minus (s.balance_of from) fraction
  share_128 ← checked 128 (product / s.total_asset.base)
  elastic ← minus s.total_asset.elastic share_128
  ok (
    record s {
      total_asset = record { elastic = elastic; base = base };
      balance_of = update s.balance_of from mine;
    },
    product / s.total_asset.base,
  )

-- The first part of `refreshPenroseFees`: what the protocol has earned becomes fractions of Penrose.
unfoldable pub collect_fees : (ℕ → ℕ) → ℕ → Singularity → Outcome Singularity
collect_fees to_amount now s =
    if ltb 0 s.fees_earned_fraction
    then (accrue to_amount now s >>= λ t.
        checked 256 (t.balance_of t.penrose + t.fees_earned_fraction) >>= λ fees.
        ok (record t { balance_of = update t.balance_of t.penrose fees; fees_earned_fraction = 0 }))
    else ok s

-- `refreshPenroseFees`
unfoldable pub refresh_penrose_fees :
    (ℕ → ℕ) → (ℕ → Bool → ℕ) → ℕ → Bool → Singularity → Outcome (Singularity × ℕ)
unfolding collect_fees remove_asset
refresh_penrose_fees to_amount to_share now is_owner s = do
  fail_if (not is_owner) "Ownable: caller is not the owner"
  t ← collect_fees to_amount now s
  remove_asset to_share t.penrose (t.balance_of t.penrose) t

-- The fraction of Penrose for the opening fee of a borrow
unfoldable pub opening_fraction : ℕ → ℕ → Singularity → Outcome Singularity
opening_fraction fee full s = if fee == 0 then ok s else do
  product ← checked 256 (fee * s.total_asset.base)
  fail_if (full == 0) "Panic(0x12)"
  fraction ← checked 128 (product / full)
  base ← checked 128 (s.total_asset.base + fraction)
  balance ← checked 256 (s.balance_of s.penrose + fraction)
  ok (record s {
    total_asset = record { elastic = s.total_asset.elastic; base = base };
    balance_of = update s.balance_of s.penrose balance;
  })

-- `_borrow`: the state, the part and the share that is paid out
unfoldable pub borrow_asset :
    (Rebase → ℕ → Bool → Outcome (Rebase × ℕ))
    → (ℕ → ℕ)
    → (ℕ → Bool → ℕ)
    → ℕ
    → ℕ
    → Singularity
    → Outcome (Singularity × ℕ × ℕ)
unfolding full_asset_amount opening_fraction
borrow_asset add_debt to_amount to_share from amount s = do
  fail_if (ltb s.total_asset.base 1000) "MinLimit"
  full ← full_asset_amount to_amount s
  share ← checked 128 (to_share amount true)
  elastic ← minus s.total_asset.elastic share
  product ← checked 256 (amount * s.borrow_opening_fee)
  debt ← checked 256 (amount + product / 10 ^ 5)
  r ← add_debt s.total_borrow debt true
  fail_if (not (s.total_borrow_cap == 0) && ltb s.total_borrow_cap r.0.elastic) "BorrowCapReached"
  part ← checked 256 (s.user_borrow_part from + r.1)
  t ← opening_fraction (product / 10 ^ 5) full (record s {
    total_asset = record { elastic = elastic; base = s.total_asset.base };
    total_borrow = r.0;
    user_borrow_part = update s.user_borrow_part from part;
  })
  ok (t, r.1, to_share amount true)

-- The part that is repaid, no more than there is
abbrev pub repaid_asset_part : ℕ → ℕ → Singularity → ℕ
repaid_asset_part to part s =
    if ltb (s.user_borrow_part to) part then s.user_borrow_part to else part

-- `_repay` by the payer itself, or after the allowance was used: the state and the amount
unfoldable pub repay_asset :
    (Rebase → ℕ → Bool → Outcome (Rebase × ℕ))
    → (ℕ → Bool → ℕ)
    → ℕ
    → Bool
    → ℕ
    → Bool
    → ℕ
    → Singularity
    → Outcome (Singularity × ℕ)
unfolding add_tokens
repay_asset sub_debt to_share balance transfer_fails to skim part s = do
  fail_if (repaid_asset_part to part s == 0) "NothingToRepay"
  r ← sub_debt s.total_borrow (repaid_asset_part to part s) true
  left ← minus (s.user_borrow_part to) (repaid_asset_part to part s)
  add_tokens balance transfer_fails (to_share r.1 true) s.total_asset.elastic skim
  share ← checked 128 (to_share r.1 true)
  elastic ← checked 128 (s.total_asset.elastic + share)
  ok (
    record s {
      total_asset = record { elastic = elastic; base = s.total_asset.base };
      total_borrow = r.0;
      user_borrow_part = update s.user_borrow_part to left;
    },
    r.1,
  )

-- The two writes of a transfer between different addresses
unfoldable pub move_balance : ℕ → ℕ → ℕ → Singularity → Outcome Singularity
move_balance from to amount s = do
  fail_if (to == 0) "ERC20: no zero address"
  left ← minus (s.balance_of from) amount
  got ← checked 256 (update s.balance_of from left to + amount)
  ok (record s { balance_of = update (update s.balance_of from left) to got })

-- `transfer`, whose caller is `sender`
unfoldable pub transfer : ℕ → ℕ → ℕ → Singularity → Outcome Singularity
unfolding move_balance
transfer sender to amount s =
    if not (amount == 0) || sender == to
    then (fail_if (ltb (s.balance_of sender) amount) "ERC20: balance too low"
        >> (if sender == to then ok s else move_balance sender to amount s))
    else ok s

-- The allowance of the spender, where it is not the greatest
unfoldable pub spend_allowance : ℕ → ℕ → ℕ → Singularity → Outcome Singularity
spend_allowance from sender amount s =
    if s.allowance from sender == 2 ^ 256 - 1
    then ok s
    else (fail_if (ltb (s.allowance from sender) amount) "ERC20: allowance too low"
        >> ok (record s {
          allowance = λ f p.
              if f == from && p == sender
              then s.allowance from sender - amount
              else s.allowance f p;
        }))

-- `transferFrom`
unfoldable pub transfer_from : ℕ → ℕ → ℕ → ℕ → Singularity → Outcome Singularity
unfolding spend_allowance move_balance
transfer_from sender from to amount s =
    if amount == 0
    then ok s
    else (fail_if (ltb (s.balance_of from) amount) "ERC20: balance too low"
        >> (if from == to
            then ok s
            else (spend_allowance from sender amount s >>= move_balance from to amount)))
