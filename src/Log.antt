-- ===== src/Log.antt =====
-- internal/logsink: what a step's log keeps when the job writes more than the quota.
pub mod Quota
