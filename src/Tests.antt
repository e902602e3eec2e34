-- ===== src/Tests.antt =====
-- Runs of the definitions on concrete inputs, and the theorems applied to them.
pub mod Data
mod Registry
mod Setup
mod Tokens
mod Phases
pub mod Market
pub mod Loans
pub mod Settings
pub mod Liquidation
mod Lenders
mod Codec
mod Pools
mod Origins
