-- ===== src/Tests/Pools.antt =====
-- The multicall of phase 2 on the test network, and the loans that it takes.
use tapioca_lending_engine.Base.{
  ℕ, ◌+◌, ◌*◌, ◌^◌, ◌≡◌, refl, arith, true, false, some, List, [], ok, update,
}
use tapioca_lending_engine.Base.Int.{pos}
use tapioca_lending_engine.Sdk.{CallValue, text}
use tapioca_lending_engine.Contracts.BigBang.{BigBang}
use tapioca_lending_engine.Contracts.BigBang.Lending.{is_solvent}
use tapioca_lending_engine.Deploy.Task2.{
  Reads, Contracts2, load_contracts_2, post_deploy_task_2, pool_borrow_amount,
}
use tapioca_lending_engine.Deploy.Config.{UsdoUniswapPool, usdo_uniswap_pool}
use tapioca_lending_engine.Deploy.Task2.Flows.{parties, IsClosed}
use tapioca_lending_engine.Deploy.Task2.Flows.Closed.{post_deploy_task_2-IsClosed}
use tapioca_lending_engine.Deploy.Task2.Loan.{pool_loans-is_solvent}
use tapioca_lending_engine.Tests.Data.{hre, value_or}
use tapioca_lending_engine.Tests.Market.{market}

-- 2500 USD for one ETH, and a transfer that costs 17
abbrev reads : Reads
reads = record {
  exchange_rate = 4 * 10 ^ 14;
  collateral_id = 8;
  asset_id = 6;
  remove_dust = λ n. n;
  quote_send = λ _. ok 17;
  find_multicall = λ _. ok 77;
  lz_chain_id = λ _. 40_232;
  lz_receive_option = λ _. text "0x0003";
}

abbrev calls : List CallValue × ℕ
unfolding post_deploy_task_2
calls = value_or ([], 0) (post_deploy_task_2 hre reads (pos 5) false)

post_deploy_task_2-IsClosed_example :
    (c : Contracts2) × (load_contracts_2 hre ≡ ok c)
    × (p : UsdoUniswapPool) × (usdo_uniswap_pool hre.e_chain_id ≡ some p)
    × IsClosed
        (parties hre reads c)
        calls.0
        (p.eth_amount_to_mint_for_usdc_pool + p.eth_amount_to_mint_for_dai_pool)
        calls.1
unfolding post_deploy_task_2
post_deploy_task_2-IsClosed_example = post_deploy_task_2-IsClosed hre reads (pos 5) false refl

-- 5 percent less than 2500 USDO for each of the two pools
abbrev with_loans : BigBang
with_loans = record market {
  exchange_rate_precision = 10 ^ 18;
  collateralization_rate = 100_000;
  user_borrow_part = update (λ _. 0) 9 (4_750 * 10 ^ 18);
  user_collateral_share = update (λ _. 0) 9 (2 * 10 ^ 18);
  total_borrow = record { elastic = 4_750 * 10 ^ 18; base = 4_750 * 10 ^ 18 };
}

pool_loans-is_solvent_example : is_solvent (λ s. s) 9 (4 * 10 ^ 14) false with_loans ≡ ok true
unfolding pool_borrow_amount
pool_loans-is_solvent_example =
    pool_loans-is_solvent (λ s. s) 9 (4 * 10 ^ 14) (10 ^ 18) (10 ^ 18) 5 with_loans
      {x = 2_375 * 10 ^ 18} {y = 2_375 * 10 ^ 18} refl refl refl refl refl (omega arith)
      (omega arith) refl (omega arith) (omega arith) (omega arith)
