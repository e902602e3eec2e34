-- ===== src/Tests/Registry.antt =====
-- The registry's theorems at a registry with two BigBang markets.
use tapioca_lending_engine.Base.{
  String, fail, ℕ, ◌+◌, ◌≡◌, refl, false, true, arith, [], ◌∷◌, ok, if◌then◌else◌, Mapping, ◌==◌,
}
use tapioca_lending_engine.Contracts.Penrose.{
  Penrose, register_big_bang_master_contract, add_big_bang, add_origins_market, unregister_contract,
}
use tapioca_lending_engine.Contracts.Penrose.Arrays.{swap_remove}
use tapioca_lending_engine.Contracts.Penrose.Clones.{
  get_all_master_contract_clones, get_all_master_contract_clones-all_clones,
}
use tapioca_lending_engine.Contracts.Penrose.Debt.{
  view_total_debt, mint_open_interest_debt, mint_open_interest_debt-view_total_debt,
  mint_open_interest_debt_clears,
}
use tapioca_lending_engine.Contracts.Penrose.Remove.{count, hit, swap_remove-count}
use tapioca_lending_engine.Contracts.Penrose.Invariant.{
  by_register_bb_mc, by_add_bb, by_add_origins, Reach, here, next, Listed, Reach-Listed,
  unregister_contract_ok, by_unregister,
}
use tapioca_lending_engine.Contracts.Penrose.Origins.{origins_market_stays}
use tapioca_lending_engine.Tests.Data.{value_or, new_penrose}

-- A master contract, 50, then the markets 61 and 62, then an Origins market, 63
abbrev p1 : Penrose
unfolding register_big_bang_master_contract
p1 = value_or new_penrose (register_big_bang_master_contract 9 50 1 new_penrose)

abbrev p2 : Penrose
unfolding add_big_bang
p2 = value_or new_penrose (add_big_bang 9 50 61 p1)

abbrev p3 : Penrose
unfolding add_big_bang
p3 = value_or new_penrose (add_big_bang 9 50 62 p2)

abbrev p4 : Penrose
unfolding add_origins_market
p4 = value_or new_penrose (add_origins_market 9 63 p3)

p4-Reach : Reach new_penrose p4
unfolding register_big_bang_master_contract add_big_bang add_origins_market
p4-Reach =
    next {q = p3}
      (next {q = p2}
        (next {q = p1} (next here (by_register_bb_mc 9 50 1 refl)) (by_add_bb 9 50 61 refl))
        (by_add_bb 9 50 62 refl))
      (by_add_origins 9 63 refl)

Reach-Listed_example : Listed p4
Reach-Listed_example = Reach-Listed p4-Reach (λ m r. absurd cc)

unregister_contract_ok_example :
    (q : Penrose) × (unregister_contract 9 61 0 p4 ≡ ok q) × (q.is_market_registered 61 ≡ false)
unfolding p4 p3 p1
unregister_contract_ok_example = unregister_contract_ok 61 (λ k. refl) p4-Reach refl

-- The Origins market 63 cannot be unregistered, after 61 was.
abbrev p5 : Penrose
unfolding unregister_contract
p5 = value_or new_penrose (unregister_contract 9 61 1 p4)

p5-Reach : Reach p4 p5
unfolding p5 unregister_contract p4 p3 p1
p5-Reach = next here (by_unregister 9 61 1 refl)

origins_market_stays_example :
    ((e : String) × (unregister_contract 9 63 2 p5 ≡ fail e)) × (p5.is_origin_registered 63 ≡ true)
unfolding add_origins_market p4 p3 p1 p5-Reach
origins_market_stays_example =
    origins_market_stays 9 63 9 2 p3 {q = p4} {r = p5} (λ mc. ground arith) refl p5-Reach
      (tt, λ h. h)

swap_remove-count_example : count 7 (9 ∷ 8 ∷ []) + hit 7 7 ≡ count 7 (7 ∷ 8 ∷ 9 ∷ [])
unfolding swap_remove
swap_remove-count_example = swap_remove-count (7 ∷ 8 ∷ 9 ∷ []) 7 7 refl

get_all_master_contract_clones-all_clones_example :
    get_all_master_contract_clones p4 p4.bigbang_master_contracts ≡ ok (61 ∷ 62 ∷ [])
unfolding p4 p3 p1
get_all_master_contract_clones-all_clones_example =
    get_all_master_contract_clones-all_clones p4 p4.bigbang_master_contracts

abbrev debts : Mapping ℕ
debts m = if m == 61 then 40 else 2

-- What the mint leaves
abbrev minted : ℕ × Mapping ℕ
unfolding mint_open_interest_debt
minted = value_or (0, debts) (mint_open_interest_debt 9 p4 debts)

mint_open_interest_debt-view_total_debt_example : minted.0 ≡ view_total_debt p4 debts
unfolding mint_open_interest_debt minted p4 p3 p1
mint_open_interest_debt-view_total_debt_example =
    mint_open_interest_debt-view_total_debt 9 p4 debts {r = minted} (refl, (refl, tt)) refl

mint_open_interest_debt_clears_example : view_total_debt p4 minted.1 ≡ 0
unfolding mint_open_interest_debt minted p4 p3 p1
mint_open_interest_debt_clears_example = mint_open_interest_debt_clears 9 p4 debts {r = minted} refl
