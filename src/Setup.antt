-- ===== src/Setup.antt =====
-- tasks/deploy/postDepSetup and tasks/deploy/1-1-setupPostLbp.ts: what is called on the contracts once
-- they are deployed.
pub mod World
pub mod Item
pub mod Register
pub mod YbAssets
pub mod Stable
pub mod Converge
pub mod Served
pub mod Markets
pub mod Phase1
