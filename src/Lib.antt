-- ===== src/Lib.antt =====
-- The Tapioca lending engine: its deployment and setup tasks, and the contracts that they set up.
--
-- The repository holds the markets of the engine (BigBang, which mints USDO against collateral, and
-- Singularity, which lends USDO), the registry Penrose, the token USDO, and the hardhat tasks that
-- deploy them and make them known to one another. The deploy task (tasks/deploy/1-1-deployPostLbp.ts)
-- queues one build per contract. The setup task (tasks/deploy/1-1-setupPostLbp.ts) then reads the
-- chain, builds two lists of calls and hands each to a multicall, which runs it all or not at all. The
-- first makes the markets and the roles known to Penrose and USDO and registers the collaterals in
-- YieldBox; the second initialises the markets.
--
-- Files:
-- Base: the shared names. Base/Results has `Outcome`, for code that throws or reverts; Base/Int the
--   signed numbers of 256 bits.
-- Sdk: the values that the tasks exchange with tapioca-sdk, ethers and hardhat, and `Hre`, which
--   holds what these return. None of these packages is in the repository.
-- Deploy/Names, Deploy/Config: tasks/deploy/DEPLOY_CONFIG.ts.
-- Deploy/Loads, Deploy/Task1: tasks/deploy/1-1-deployPostLbp.ts (`deploy__LoadDeployments_*` and
--   `tapiocaDeployTask`). Deploy/Builds: tasks/deployBuilds. Deploy/Queue: the order of the queue.
-- Deploy/Task2 and its children: tasks/deploy/1-2-deployPostLbp.ts and
--   postDepSetup/1-2-setupOriginsMintUSDO.ts. Deploy/Final: tasks/deploy/2-deployFinal.ts.
-- Contracts/Penrose and its children: contracts/Penrose.sol. A function takes the caller, its
--   arguments and the state, and returns the new state or the revert. Invariant: sequences of calls.
--   Origins: what becomes of an Origins market there.
-- Contracts/Usdo: the settings, the roles and the fees of contracts/usdo/Usdo.sol.
-- Contracts/BigBang and its children: contracts/markets/bigBang. BBCommon.sol (Rate, Accrual,
--   Both),
--   BBLendingCommon.sol (Fee, `_borrow` in Lending, `_repay` in Repay and Repaid), BBLiquidation.sol
--   (Closing, Liquidation), the public calls of BBBorrow.sol, BBCollateral.sol and BBLiquidation.sol
--   (Entry), and the solvency test, the allowance, the oracle's rate, the closing factor and the
--   caller's reward of contracts/markets/Market.sol. Books, Keeps, Booked and Calls: sequences of calls.
-- Contracts/Origins and its children: contracts/markets/origins/Origins.sol, from its constructor on.
-- Contracts/Singularity and its children: contracts/markets/singularity. The interest (Interest,
--   Bounds), SGLCommon.sol and SGLLendingCommon.sol (Accrual, Assets), and the transfers of
--   MarketERC20.sol (Shares). Steps and Lenders: sequences of these calls.
-- Contracts/Usdo/Codec and its children: the messages of approvals in
--   contracts/usdo/libraries/UsdoMsgCodec.sol.
-- Contracts/InitRates: the rates that `init` of BigBang.sol and Singularity.sol accepts.
-- Contracts/MarketConfig: the settings of contracts/markets/Market.sol.
-- Setup/World: the contracts by address, and the effect of a call. Setup/Item: the form of a setup
--   step. Setup/Register, Setup/YbAssets, Setup/Markets: tasks/deploy/postDepSetup. Setup/Phase1 and
--   Setup/Markets/All: the two multicalls of `setupPostLbp1`. Setup/Stable, Setup/Converge and
--   Setup/Phase1/Converges: what running the setup again does. Setup/Served: the names that the setup
--   looks up against those that are queued. The children of Setup/Markets: phase 2 after phase 1, and
--   on the main network.
-- Exec: the tasks of tasks/exec that have Penrose call one function of a market.
-- Tests: runs on concrete inputs.
--
-- A name of the source is spelled in lower case with underscores here: `setupUsdoInPenrose` is
-- `setup_usdo_in_penrose`. An address is a number. There is no fuel: each loop is a recursion on a
-- list. Amounts are natural numbers. In Contracts/BigBang each product, sum and cast that the source
-- checks is checked at its width (`checked`), and a subtraction reverts below 0 (`minus`); in the
-- registry, where debts and fees are only added, the width is left out.
--
-- Parameters stand for what is not in the repository: `encode` for `encodeFunctionData` of ethers,
-- `load_global` and `load_local` for the deployment database, `create` for
-- `createEmptyStratYbAsset__task`, `register_asset` and `to_amount` for YieldBox, `add` and `sub` for
-- `RebaseLibrary` of boring-solidity, `pearlmit_allowed` for Pearlmit's answer, and `accrue` for whether
-- the markets' accrual succeeds. In the markets' calls, the records `Terms` and `Env` hold what YieldBox,
-- `RebaseLibrary`, the oracle, Pearlmit and the liquidator's receivers answer; `Reads` holds what phase 2
-- reads, and the codec takes the byte readers of solidity-bytes-utils. `Registers` states what is
-- assumed of YieldBox, and `AddsUp` and `SubsDown` what is assumed of RebaseLibrary.
--
-- Not modelled: events and log lines, the deployer's virtual machine, the leverage calls and their
-- executors, the owner's settings of BigBang.sol and Singularity.sol, the collateral and the liquidation
-- of Singularity, the permits of MarketERC20.sol, the delivery of USDO's cross chain messages, the tasks
-- that only print values, and those of tasks/exec that are for USDO, Penrose, mocks and proxies.
pub mod Base
pub mod Sdk
pub mod Deploy
pub mod Contracts
pub mod Setup
pub mod Exec
mod Tests
