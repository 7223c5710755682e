-- ===== src/Runner.antt =====
-- pkg/runner: the outcome of a run from the events of its instances, and the data networks.
pub mod Outcomes
pub mod Networks
pub mod Printer
pub mod LocalExec
