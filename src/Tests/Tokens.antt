-- ===== src/Tests/Tokens.antt =====
-- USDO's theorems at a token, and those on who may change the registry.
use tapioca_lending_engine.Base.{ℕ, suc, ◌+◌, ◌≡◌, ◌≤◌, refl, true, false, arith}
use tapioca_lending_engine.Contracts.Usdo.{
  Usdo, extract_fees, add_flashloan_fee, may_mint, may_burn,
}
use tapioca_lending_engine.Contracts.Usdo.Laws.{
  extract_fees_lem, StrangerCalls-may_mint, none_yet, then_call, by_add_flashloan_fee,
}
use tapioca_lending_engine.Contracts.Penrose.{
  Penrose, register_big_bang_master_contract, add_big_bang, unregister_contract, update_pause,
}
use tapioca_lending_engine.Contracts.Penrose.Remove.{count}
use tapioca_lending_engine.Contracts.Penrose.Invariant.{Step, by_update_pause}
use tapioca_lending_engine.Contracts.Penrose.Authority.{
  IsAllowed, Step-IsAllowed, unregister_contract-add_big_bang,
}
use tapioca_lending_engine.Tests.Data.{value_or, new_usdo, new_penrose}

-- Of the fees, 10, a balance of 4 pays 4.
abbrev paid : Usdo × ℕ
unfolding extract_fees
paid = value_or (new_usdo, 0) (extract_fees 9 4 new_usdo)

extract_fees_lem_example : (paid.1 ≤ 4) × (paid.1 + paid.0.fees ≡ 10) × (10 ≤ 4 → paid.0.fees ≡ 0)
unfolding extract_fees paid
extract_fees_lem_example = extract_fees_lem 9 4 new_usdo {r = paid} refl

-- 33, the flash loan helper, brings a fee of 5.
abbrev with_helper : Usdo
with_helper = record new_usdo { flash_loan_helper = 33 }

abbrev with_fee : Usdo
unfolding add_flashloan_fee
with_fee = value_or with_helper (add_flashloan_fee 33 5 with_helper)

StrangerCalls-may_mint_example :
    (may_mint 33 with_fee ≡ may_mint 33 with_helper)
    × (may_burn 33 with_fee ≡ may_burn 33 with_helper)
    × (with_fee.owner ≡ 9)
    × (with_fee.flash_loan_helper ≡ 33)
    × (with_fee.paused ≡ false)
    × (10 ≤ with_fee.fees)
unfolding add_flashloan_fee with_fee
StrangerCalls-may_mint_example = StrangerCalls-may_mint {u = with_helper} {v = with_fee} 33 (
    then_call {v = with_helper} 33 none_yet (λ h. absurd (omega (arith, h)))
      (by_add_flashloan_fee 5 refl))

abbrev paused_penrose : Penrose
unfolding update_pause
paused_penrose = value_or new_penrose (update_pause 8 true new_penrose)

pausing : Step new_penrose paused_penrose
unfolding update_pause paused_penrose
pausing = by_update_pause 8 true refl

Step-IsAllowed_example : IsAllowed new_penrose paused_penrose 8
unfolding pausing paused_penrose update_pause
Step-IsAllowed_example = Step-IsAllowed pausing

-- The market 61 is added, unregistered as type 0, and added again.
abbrev added : Penrose
unfolding register_big_bang_master_contract add_big_bang
added = value_or new_penrose (
    add_big_bang 9 50 61
      (value_or new_penrose (register_big_bang_master_contract 9 50 1 new_penrose)))

abbrev removed : Penrose
unfolding unregister_contract added
removed = value_or new_penrose (unregister_contract 9 61 0 added)

abbrev added_again : Penrose
unfolding add_big_bang removed
added_again = value_or new_penrose (add_big_bang 9 50 61 removed)

unregister_contract-add_big_bang_example :
    count 61 added_again.all_big_bang_markets ≡ suc (count 61 added.all_big_bang_markets)
unfolding unregister_contract add_big_bang register_big_bang_master_contract added removed
    added_again
unregister_contract-add_big_bang_example =
    unregister_contract-add_big_bang 9 9 50 61 added {q = removed} {r = added_again} refl refl
