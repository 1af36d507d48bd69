-- ===== src/Engine/Policy/Usable.antt =====
-- Whatever a retry block says, the policy that internal/engine/retry.go makes of it can be run.
use native.Mathlib.Decide.{dec_lt}
use pulseq.Prelude.{subst, sym, ℕ, ◌<◌, ◌≡◌, Option, none, some, arith, ◌-◌}
use pulseq.Prelude.Int.{ℤ, pos, negsuc, ◌≤ℤ◌, half_range}
use pulseq.Retry.{delay}
use pulseq.Retry.Bounds.{Draws, delay_bounds, delay_total}
use pulseq.Engine.Policy.{RetryBlock, positive_or, default_max_delay, retry_policy_of}

-- The caps that a block may carry: any int64 but the largest.
abbrev pub CapFits : Option RetryBlock → Type 0
CapFits none = Unit {0}
CapFits (some r) = r.max_delay ≤ℤ pos (half_range - 2)

positive_cap :
    (r : Option RetryBlock)
    → CapFits r
    → (m : ℕ) × ((retry_policy_of r).max_delay ≡ pos m) × (0 < m) × (m < half_range - 1)
unfolding retry_policy_of
positive_cap none h = (600000000000, ground arith, omega arith, omega arith)
positive_cap (some r) h = capped r.max_delay h
  where
    capped :
        (d : ℤ)
        → d ≤ℤ pos (half_range - 2)
        → (m : ℕ) × (positive_or default_max_delay d ≡ pos m) × (0 < m) × (m < half_range - 1)
    capped (negsuc n) k = (600000000000, ground arith, omega arith, omega arith)
    capped (pos n) k = elim (dec_lt 0 n) [
      | yes p ↦ (n, ground arith, p, omega arith)
      | no p ↦ (600000000000, ground arith, omega arith, omega arith)
    ]

-- The delay that the engine computes for a failed attempt always exists, whatever the retry block
-- leaves out or gets wrong, and lies between zero and the policy's cap.
pub policy_delay :
    (r : Option RetryBlock) (attempt : ℤ) (draw : ℕ → ℕ)
    → CapFits r
    → Draws draw
    → (d : ℤ) × (delay (retry_policy_of r) attempt (some draw) ≡ some d)
      × (pos 0 ≤ℤ d)
      × (d ≤ℤ (retry_policy_of r).max_delay)
policy_delay r attempt draw h law =
    let (m, e, p, f) = positive_cap r h in
    let (d, q) = delay_total (retry_policy_of r) attempt m draw e p f in
    let (low, high) = delay_bounds (retry_policy_of r) attempt m draw d e p (omega arith) law q in
    (d, q, low, subst (λ c. d ≤ℤ c) (sym e) high)
