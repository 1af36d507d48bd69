-- ===== src/Store/Migrate.antt =====
-- internal/store/migrate.go: the migration of the database at every start.
pub mod Ledger
pub mod Plan
pub mod Holder
pub mod Written
pub mod Steps
pub mod Locking
pub mod Startup
pub mod Prefix
pub mod Stages
pub mod Applied
pub mod Kept
pub mod Whole
pub mod Complete
pub mod Load
pub mod Loaded
pub mod Waiting
pub mod Fits
pub mod Calm
pub mod Started
pub mod Undisturbed
