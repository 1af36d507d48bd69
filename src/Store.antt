-- ===== src/Store.antt =====
-- internal/store: the tables, the transactions and the transition layer above the two machines.
pub mod Calls
pub mod Append
pub mod Invariant
pub mod Table
pub mod Rows
pub mod Tx
pub mod Writes
pub mod Claim
pub mod StepMoves
pub mod Finish
pub mod Create
pub mod Fsck
pub mod Materialize
pub mod Ending
pub mod Migrate
pub mod Jobs
pub mod Queue
pub mod Trail
pub mod Recording
pub mod Pending
