-- ===== src/Deploy.antt =====
-- tasks/deploy: the names, the configuration, the builds of tasks/deployBuilds and the tasks that
-- queue them.
pub mod Queue
pub mod Names
pub mod Config
pub mod Loads
pub mod Builds
pub mod Task1
pub mod Task2
pub mod Final
