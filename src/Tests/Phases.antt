-- ===== src/Tests/Phases.antt =====
-- The two phases of the setup, on the test network and off it.
use tapioca_lending_engine.Base.{
  ◌==◌, subst, ok-injective, String, ◌≡◌, refl, true, false, List, [], fail, Succeeds,
}
use tapioca_lending_engine.Sdk.{Hre, Build, Call, Deployed, arbitrum, sepolia}
use tapioca_lending_engine.Deploy.Task1.{deploy_task}
use tapioca_lending_engine.Deploy.Queue.{queue_outline}
use tapioca_lending_engine.Setup.World.{World, run_op, run_calls}
use tapioca_lending_engine.Setup.Register.{find_address}
use tapioca_lending_engine.Setup.Phase1.{setup_items, setup_phase1}
use tapioca_lending_engine.Setup.Served.{setup_items_off_arbitrum}
use tapioca_lending_engine.Setup.Markets.Phases.{setup_phase2_follows}
use tapioca_lending_engine.Setup.Markets.MainNet.{setup_init_and_register_market_off_testnet}
use tapioca_lending_engine.Setup.Markets.All.{setup_phase2, setup_init_and_register_market}
use tapioca_lending_engine.Tests.Data.{
  value_or, addresses_from, deployed, hre, create, world, outside, outside-Registers,
}

abbrev calls : List Call
unfolding setup_phase1
calls = (value_or (hre, []) (setup_phase1 create hre deployed world)).1

abbrev world_after : World
unfolding run_calls run_op
world_after = value_or world (run_calls outside 9 calls world)

setup_phase2_follows_example : Succeeds (setup_phase2 hre deployed world_after (λ _. 0))
unfolding setup_phase1 run_calls calls world_after run_op
setup_phase2_follows_example =
    setup_phase2_follows outside outside-Registers 9 create hre deployed world (λ _. 0) false
      {hre' = hre} {calls = calls} {w' = world_after} refl (λ u. refl) refl refl refl refl refl
      (_, refl)

-- A test network with sDAI
abbrev sepolia_hre : Hre
sepolia_hre = record hre { chain_name = "sepolia"; e_chain_id = sepolia }

abbrev sepolia_deployed : List Deployed
sepolia_deployed = addresses_from 100 (queue_outline false true true)

abbrev sepolia_queue : List Build
unfolding deploy_task
sepolia_queue = value_or [] (deploy_task sepolia_hre)

setup_items_off_arbitrum_example :
    (e : String) × (setup_items create sepolia_hre sepolia_deployed ≡ fail e)
unfolding deploy_task sepolia_queue
setup_items_off_arbitrum_example =
    setup_items_off_arbitrum create sepolia_hre sepolia_deployed {q = sepolia_queue} refl refl refl

-- Arbitrum itself
abbrev arbitrum_hre : Hre
arbitrum_hre = record hre { chain_name = "arbitrum"; e_chain_id = arbitrum; is_testnet = false }

abbrev arbitrum_deployed : List Deployed
arbitrum_deployed = addresses_from 100 (queue_outline true false false)

abbrev arbitrum_queue : List Build
unfolding deploy_task
arbitrum_queue = value_or [] (deploy_task arbitrum_hre)

setup_init_and_register_market_off_testnet_example :
    (e : String) × (setup_init_and_register_market arbitrum_hre arbitrum_deployed world
        (λ _. 112_000)
      ≡ fail e)
unfolding deploy_task arbitrum_queue find_address
setup_init_and_register_market_off_testnet_example =
    setup_init_and_register_market_off_testnet arbitrum_hre arbitrum_deployed world (λ _. 112_000)
      {q = arbitrum_queue} refl refl refl refl
      (λ m p h. subst (λ q. (112_000 == q) ≡ false) (ok-injective h) refl)
