-- ===== src/Tests.antt =====
-- Concrete instances of the interfaces, and the theorems at concrete inputs.
pub mod Database
pub mod Tasks
pub mod Queues
pub mod Storages
pub mod Compositions
pub mod Healthchecks
pub mod Engines
pub mod Builds
pub mod Runners
pub mod Dockers
pub mod Builders
pub mod Sidecars
pub mod Reactors
pub mod Rpcs
