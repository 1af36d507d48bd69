-- ===== src/Spec/Duration/Checked.antt =====
-- The checked arithmetic of internal/spec/duration.go: what fits is computed, and an answer is the true
-- product or sum, which fits.
use native.Mathlib.Nat.{mul-div_cancel}
use pulseq.Prelude.{
  ℕ, zero, suc, ◌+◌, ◌*◌, ◌/◌, ◌≤◌, ◌≡◌, ap, Bool-cases, true, ◌||◌, inl, inr, arith, ◌==◌,
}
use pulseq.Prelude.Int.{pos, wrap64, wrap64_fits, IsInt64}
use pulseq.Spec.Duration.{read, mul_checked, add_checked, max_duration_millis}

nothing_times : (a b : ℕ) → (a == 0 || b == 0) ≡ true → 0 ≡ a * b
nothing_times zero b h = omega arith
nothing_times (suc a) zero h = omega arith
nothing_times (suc a) (suc b) h = absurd (ground arith)

fits : (n : ℕ) → n ≤ max_duration_millis → wrap64 (pos n) ≡ pos n
fits n h = wrap64_fits (pos n) (IsInt64.nonneg (omega arith))

pub add_checked_fits : (a b : ℕ) → a + b ≤ max_duration_millis → add_checked a b ≡ read (a + b)
unfolding add_checked
add_checked_fits a b h = rw (add_checked, fits (a + b) h) (ground arith)

pub mul_checked_fits : (a b : ℕ) → a * b ≤ max_duration_millis → mul_checked a b ≡ read (a * b)
unfolding mul_checked
mul_checked_fits a b h = elim (Bool-cases (a == 0 || b == 0)) [
  | inl nothing ↦ rw (mul_checked, nothing) (ap read (nothing_times a b nothing))
  | inr some_of ↦
      let quotient : a * b / b ≡ a = mul-div_cancel a {n = b} (ground arith) in
      rw (mul_checked, some_of, fits (a * b) h, quotient) (ground arith)
]
