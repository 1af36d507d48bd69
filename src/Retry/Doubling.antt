-- ===== src/Retry/Doubling.antt =====
-- The delay of internal/retry/backoff.go against the formula min(initial * 2 ^ (attempt - 1), max).
use pulseq.Prelude.{
  Bool-cases, inl, inr, ℕ, zero, suc, ◌+◌, ◌-◌, ◌*◌, leb, if◌then◌else◌, ◌^◌, ◌≤◌, ◌<◌, ◌≡◌, ◌≢◌,
  min, some, str_eq, eq_iff, arith,
}
use native.Mathlib.Nat.{pow-suc, one-le-pow, pow-le-pow_right}
use native.Mathlib.Decide.{dec_le, dec_lt}
use pulseq.Prelude.Int.{pos, negsuc, ◌+ℤ◌, wrap64, ◌≤ℤ◌, half_range, full_range}
use pulseq.Retry.{Policy, Source, fixed, jitter_none, grow, cap_at, base_delay, delay}

-- Doubling an int64 that is not negative either fits or turns negative.
twice_fits : (b : ℕ) → b + b < half_range → wrap64 (pos b +ℤ pos b) ≡ pos (b + b)
unfolding wrap64 ◌+ℤ◌
twice_fits b h = ground arith

twice_wraps :
    (b : ℕ)
    → b < half_range
    → half_range ≤ b + b
    → wrap64 (pos b +ℤ pos b) ≡ negsuc (full_range - 1 - (b + b))
unfolding wrap64 ◌+ℤ◌
twice_wraps b h k = ground arith

-- One round: the doubled base, with the cap put in its place when it is reached or when the
-- doubling wraps.
pub grow-suc :
    (n b m : ℕ)
    → b < half_range
    → m < half_range
    → grow (suc n) (pos b) (pos m) ≡ (if leb m (b + b) then pos m else grow n (pos (b + b)) (pos m))
unfolding grow
grow-suc n b m hb hm = elim (dec_lt (b + b) half_range) [
  | yes fits ↦ rw (twice_fits b fits) (ground arith)
  | no wraps ↦ rw (twice_wraps b hb (omega arith)) (ground arith)
]

reached_formula : (n b m : ℕ) → m ≤ b + b → m ≤ b * 2 ^ suc n
reached_formula n b m h = rw (pow-suc 2 n) (grind (arith, one-le-pow n 2 (omega arith)))

-- The cap over the loop is the formula, although the loop stops early.
pub cap_at-grow :
    (n b m : ℕ)
    → b < half_range
    → 0 < m
    → m < half_range
    → cap_at (pos m) (grow n (pos b) (pos m)) ≡ pos (min (b * 2 ^ n) m)
unfolding grow
cap_at-grow zero b m hb hp hm = ground arith
cap_at-grow (suc n) b m hb hp hm = elim (dec_le m (b + b)) [
  | yes reached ↦ rw (grow-suc n b m hb hm) (ground (arith, reached_formula n b m))
  | no below ↦ rw (grow-suc n b m hb hm, pow-suc 2 n) (ground (arith, cap_at-grow n (b + b) m))
]

-- A policy with an initial delay that is not negative and a cap that is positive, as the parser of
-- internal/spec and the defaults of internal/engine give it; both are int64 values.
pub record IsUsual (p : Policy) : Type 0 where
  pub first : ℕ
  pub cap : ℕ
  pub initial_eq : p.initial ≡ pos first
  pub max_eq : p.max_delay ≡ pos cap
  pub first_fits : first < half_range
  pub cap_fits : cap < half_range
  pub cap_pos : 0 < cap

-- Before the jitter an exponential policy waits min(initial * 2 ^ (attempt - 1), max), and a fixed
-- one min(initial, max).
pub base_delay_formula :
    (p : Policy) (u : IsUsual p) (k : ℕ)
    → ((p.backoff ≢ fixed) → base_delay p (pos (suc k)) ≡ pos (min (u.first * 2 ^ k) u.cap))
      × ((p.backoff ≡ fixed) → base_delay p (pos (suc k)) ≡ pos (min u.first u.cap))
unfolding base_delay
base_delay_formula p u k = (
  λ e.
      rw (u.initial_eq, u.max_eq)
        (ground (
          arith,
          eq_iff p.backoff fixed,
          cap_at-grow k u.first u.cap u.first_fits u.cap_pos u.cap_fits,
        )),
  λ e. rw (u.initial_eq, u.max_eq) (ground (arith, eq_iff p.backoff fixed)),
)

-- Without jitter `Delay` returns min(initial * 2 ^ (attempt - 1), max) for a usual exponential policy,
-- at every attempt number and with the wrap-around of int64 written out.
pub delay_formula :
    (p : Policy) (u : IsUsual p) (k : ℕ) (rnd : Source)
    → p.backoff ≢ fixed
    → p.jitter ≡ jitter_none
    → delay p (pos (suc k)) rnd ≡ some (pos (min (u.first * 2 ^ k) u.cap))
unfolding delay
delay_formula p u k rnd e j =
    ground (arith, eq_iff p.jitter jitter_none, (base_delay_formula p u k).0 e)

min-pow_mono : (i m a b : ℕ) → a ≤ b → min (i * 2 ^ a) m ≤ min (i * 2 ^ b) m
min-pow_mono i m a b h = grind (arith, pow-le-pow_right {n = 2} (omega arith) h)

-- The delay before the jitter of a usual policy never falls from one attempt to a later one.
pub base_delay_mono :
    (p : Policy) (u : IsUsual p) (a b : ℕ)
    → a ≤ b
    → base_delay p (pos (suc a)) ≤ℤ base_delay p (pos (suc b))
base_delay_mono p u a b h =
    let fa = base_delay_formula p u a in
    let fb = base_delay_formula p u b in
    elim (Bool-cases (str_eq p.backoff fixed)) [
      | inl e ↦ let same = (eq_iff p.backoff fixed).0 e in rw (fa.1 same, fb.1 same) (omega arith)
      | inr e ↦
          let differs : p.backoff ≢ fixed = (λ c. ground (arith, eq_iff p.backoff fixed)) in
          rw (fa.0 differs, fb.0 differs) (omega (arith, min-pow_mono u.first u.cap a b h))
    ]
