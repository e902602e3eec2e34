-- ===== src/Tests/Setup.antt =====
-- The deployment and the setup on the test network.
use tapioca_lending_engine.Base.{◌≡◌, refl, true, List, [], ok}
use tapioca_lending_engine.Sdk.{Build, Call}
use tapioca_lending_engine.Deploy.Task1.{deploy_task}
use tapioca_lending_engine.Deploy.Queue.{
  outline, entry_names, ordered, deploy_task-ordered, deploy_task-distinct,
}
use tapioca_lending_engine.Base.{distinct}
use tapioca_lending_engine.Setup.World.{World, run_op, run_calls}
use tapioca_lending_engine.Setup.Phase1.{setup_phase1}
use tapioca_lending_engine.Setup.Phase1.Converges.{setup_phase1_again}
use tapioca_lending_engine.Tests.Data.{
  value_or, deployed, hre, create, world, outside, outside-Registers,
}

abbrev queue : List Build
unfolding deploy_task
queue = value_or [] (deploy_task hre)

deploy_task-ordered_example : ordered [] (outline queue) ≡ true
unfolding deploy_task queue
deploy_task-ordered_example = deploy_task-ordered hre {q = queue} refl

deploy_task-distinct_example : distinct (entry_names (outline queue)) ≡ true
unfolding deploy_task queue
deploy_task-distinct_example = deploy_task-distinct hre {q = queue} refl

abbrev calls : List Call
unfolding setup_phase1
calls = (value_or (hre, []) (setup_phase1 create hre deployed world)).1

abbrev world_after : World
unfolding run_calls run_op
world_after = value_or world (run_calls outside 9 calls world)

setup_phase1_again_example : setup_phase1 create hre deployed world_after ≡ ok (hre, [])
unfolding setup_phase1 run_calls calls world_after run_op
setup_phase1_again_example =
    setup_phase1_again outside outside-Registers 9 create hre deployed world {hre' = hre}
      {calls = calls} {w' = world_after} refl (λ u. refl) refl
