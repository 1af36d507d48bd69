-- ===== src/Retry/Bounds.antt =====
-- The delay of internal/retry/backoff.go stays between zero and the cap, whatever the attempt.
use native.Mathlib.Decide.{dec_lt}
use pulseq.Prelude.{
  Bool-cases, inl, inr, refl, min, ◌-◌, str_eq, ℕ, suc, ◌≤◌, ◌<◌, ◌≡◌, some, arith,
}
use pulseq.Prelude.Int.{ℤ, pos, negsuc, ◌+ℤ◌, ◌≤ℤ◌, wrap64, half_range}
use pulseq.Retry.{Policy, cap_at, floor_zero, int64_n, jitter_none, base_delay, delay}

-- What Go documents of `rand.Int64N`: a draw for a positive bound lies below it.
abbrev pub Draws : (ℕ → ℕ) → Type 0
Draws draw = (n : ℕ) → 0 < n → draw n < n

capped : (m : ℕ) (x : ℤ) → 0 < m → (v : ℕ) × (floor_zero (cap_at (pos m) x) ≡ pos v) × (v ≤ m)
capped m (pos n) h = (min n m, ground arith, omega arith)
capped m (negsuc n) h = (0, ground arith, omega arith)

base_delay_bounds :
    (p : Policy) (attempt : ℤ) (m : ℕ)
    → p.max_delay ≡ pos m
    → 0 < m
    → (v : ℕ) × (base_delay p attempt ≡ pos v) × (v ≤ m)
unfolding base_delay
base_delay_bounds p attempt m e h = rw e (capped m _ h)

next_fits : (v : ℕ) → v < half_range - 1 → wrap64 (pos v +ℤ pos 1) ≡ pos (suc v)
unfolding wrap64 ◌+ℤ◌
next_fits v h = ground arith

next_wraps : wrap64 (pos (half_range - 1) +ℤ pos 1) ≡ negsuc (half_range - 1)
unfolding wrap64 ◌+ℤ◌
next_wraps = refl

-- The draw for a bound above `v` is at most `v`; at the largest int64 the bound wraps and the draw
-- panics.
draw_bounds :
    (v : ℕ) (draw : ℕ → ℕ) (d : ℤ)
    → v < half_range
    → Draws draw
    → int64_n (some draw) (wrap64 (pos v +ℤ pos 1)) ≡ some d
    → (pos 0 ≤ℤ d) × (d ≤ℤ pos v)
unfolding int64_n
draw_bounds v draw d h law r = elim (dec_lt v (half_range - 1)) [
  | yes fits ↦ let r' = rw (next_fits v fits) at r in ground (arith, law (suc v) (omega arith))
  | no last ↦ let e : v ≡ half_range - 1 = omega arith in let r' = rw (e, next_wraps) at r in cc
]

-- For every policy with a positive cap, at every attempt number and for every source of randomness,
-- a delay that is returned is not negative and not above the cap.
pub delay_bounds :
    (p : Policy) (attempt : ℤ) (m : ℕ) (draw : ℕ → ℕ) (d : ℤ)
    → p.max_delay ≡ pos m
    → 0 < m
    → m < half_range
    → Draws draw
    → delay p attempt (some draw) ≡ some d
    → (pos 0 ≤ℤ d) × (d ≤ℤ pos m)
unfolding delay
delay_bounds p attempt m draw d e h f law r =
    let (v, base, le) = base_delay_bounds p attempt m e h in
    elim (Bool-cases (str_eq p.jitter jitter_none)) [
      | inl plain ↦ let r' = rw (plain, base) at r in ground arith
      | inr full ↦
          let r' = rw (full, base) at r in omega (arith, draw_bounds v draw d (omega arith) law r')
    ]

pub delay_total :
    (p : Policy) (attempt : ℤ) (m : ℕ) (draw : ℕ → ℕ)
    → p.max_delay ≡ pos m
    → 0 < m
    → m < half_range - 1
    → (d : ℤ) × (delay p attempt (some draw) ≡ some d)
unfolding delay int64_n
delay_total p attempt m draw e h f =
    let (v, base, le) = base_delay_bounds p attempt m e h in
    elim (Bool-cases (str_eq p.jitter jitter_none)) [
      | inl plain ↦ (pos v, rw (plain, base))
      | inr full ↦ (pos (draw (suc v)), rw (full, base, next_fits v (omega arith)))
    ]
