-- ===== src/Engine.antt =====
-- internal/engine: the executor that drives one run from the queue to its end.
pub mod Acts
pub mod Attempt
pub mod Execute
pub mod Policy
pub mod Verdict
