-- ===== src/Tests/Origins.antt =====
-- The calls that phase 2 makes on a new Origins market, and a repayment.
use tapioca_lending_engine.Base.{ℕ, ◌+◌, ◌*◌, ◌^◌, ◌≡◌, refl, true, false, some, List, [], ◌∷◌}
use tapioca_lending_engine.Contracts.Usdo.{Usdo}
use tapioca_lending_engine.Contracts.BigBang.Keeps.{IsBooked}
use tapioca_lending_engine.Contracts.BigBang.Lending.{is_solvent}
use tapioca_lending_engine.Contracts.Origins.{
  Origins, Request, Effect, Sent, add_collateral_of, borrow_of, repay_of, update_pause_all,
  new_origins, run_origins,
}
use tapioca_lending_engine.Contracts.Origins.Life.{new_origins-IsBacked}
use tapioca_lending_engine.Tests.Data.{new_usdo, value_or}
use tapioca_lending_engine.Tests.Market.{market, add_one_to_one, add_one_to_one-AddsUp}
use tapioca_lending_engine.Tests.Loans.{sub_one_to_one, sub_one_to_one-SubsDown}
use tapioca_lending_engine.Tests.Liquidation.{env}

-- The market is 77.
abbrev usdo : Usdo
usdo = record new_usdo { allowed_minter = λ _. λ _. true; allowed_burner = λ _. λ _. true }

abbrev by : ℕ → Request → Sent
by sender request = record {
  usdo = usdo;
  env = record env { sender = sender; oracle = some (true, 4 * 10 ^ 14) };
  request = request;
}

-- The loan of 6 is not allowed, and the second of 9 is more than the collateral is worth.
abbrev requests : List Sent
requests =
    by 9 (add_collateral_of (2 * 10 ^ 18) 0)
    ∷ by 9 (borrow_of (4_750 * 10 ^ 18))
    ∷ by 6 (borrow_of 1)
    ∷ by 9 (borrow_of (300 * 10 ^ 18))
    ∷ by 9 (repay_of (1_000 * 10 ^ 18))
    ∷ by 9 (update_pause_all true)
    ∷ by 9 (repay_of (1_000 * 10 ^ 18))
    ∷ []

abbrev unbuilt : Origins
unbuilt = record {
  owner = 0;
  conservator = 0;
  allowed_participants = λ _. false;
  pause_options = λ _. false;
  core = market;
}

abbrev built : Origins
unfolding new_origins
built = value_or unbuilt (new_origins 9 1 2 3 (some (true, 4 * 10 ^ 14)) 50 (10 ^ 18) 100_000)

abbrev result : Effect
unfolding run_origins is_solvent built
result = run_origins add_one_to_one sub_one_to_one requests built

run_origins_runs :
    (result.minted ≡ 4_750 * 10 ^ 18)
    × (result.burned ≡ 1_000 * 10 ^ 18)
    × (result.after.core.total_borrow.elastic ≡ 3_750 * 10 ^ 18)
unfolding run_origins is_solvent result built
run_origins_runs = (refl, refl, refl)

new_origins-IsBacked_example :
    IsBooked (6 ∷ 9 ∷ []) result.after.core
    × (result.after.core.total_borrow.elastic + result.burned ≡ result.minted)
unfolding new_origins built result run_origins
new_origins-IsBacked_example =
    new_origins-IsBacked add_one_to_one sub_one_to_one (6 ∷ 9 ∷ []) 9 1 2 3
      (some (true, 4 * 10 ^ 14)) 50 (10 ^ 18) 100_000 requests {o = built} (refl, (refl, tt))
      add_one_to_one-AddsUp sub_one_to_one-SubsDown
      (refl, (refl, (refl, (refl, (refl, (refl, (refl, tt))))))) refl
