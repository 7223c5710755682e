-- ===== src/Engine.antt =====
-- pkg/engine: the engine that queues tasks, lists and kills them, and whose workers run them.
pub mod Signals
pub mod Listing
pub mod Components
pub mod Logs
pub mod Github
pub mod Worker
pub mod Builds
pub mod Runs
pub mod Queueing
