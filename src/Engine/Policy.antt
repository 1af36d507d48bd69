-- ===== src/Engine/Policy.antt =====
-- internal/engine/retry.go: the frozen spec's retry block, filled in with the parser's defaults.
pub mod Usable
use pulseq.Prelude.{ℕ, String, Option, none, some, str_eq, if◌then◌else◌}
use pulseq.Prelude.Int.{ℤ, pos, ltb_ℤ}
use pulseq.Retry.{Policy, exponential, fixed, jitter_full, jitter_none}

-- internal/spec/spec.go: `Retry`.
pub record RetryBlock : Type 0 where
  pub max : ℤ
  pub backoff : String
  pub initial : ℤ
  pub max_delay : ℤ
  pub jitter : String

-- Thirty seconds and ten minutes, in nanoseconds.
abbrev pub default_initial : ℤ
default_initial = pos 30000000000

abbrev pub default_max_delay : ℤ
default_max_delay = pos 600000000000

-- A field that is written wins over the default; a duration that is not positive is not written.
abbrev pub positive_or : ℤ → ℤ → ℤ
positive_or default d = if ltb_ℤ (pos 0) d then d else default

unfoldable pub retry_policy_of : Option RetryBlock → Policy
retry_policy_of none = record {
  backoff = exponential;
  initial = default_initial;
  max_delay = default_max_delay;
  jitter = jitter_full;
}
retry_policy_of (some r) = record {
  backoff = if str_eq r.backoff fixed then fixed else exponential;
  initial = positive_or default_initial r.initial;
  max_delay = positive_or default_max_delay r.max_delay;
  jitter = if str_eq r.jitter jitter_none then jitter_none else jitter_full;
}
