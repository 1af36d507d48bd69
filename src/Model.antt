-- ===== src/Model.antt =====
-- internal/model: the run and step state machines as pure functions.
pub mod State
pub mod Guards
pub mod Errors
pub mod RunFsm
pub mod StepFsm
pub mod Parse
pub mod Aggregate
pub mod Apply
pub mod Moves
pub mod Safety
