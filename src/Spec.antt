-- ===== src/Spec.antt =====
-- internal/spec: what a job file may say.
pub mod Duration
