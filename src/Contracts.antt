-- ===== src/Contracts.antt =====
-- contracts: the Solidity contracts that the tasks deploy, configure and read.
pub mod Penrose
pub mod Usdo
pub mod BigBang
pub mod InitRates
pub mod MarketConfig
pub mod Singularity
pub mod Origins
