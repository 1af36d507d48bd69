-- ===== src/Clock/Baseline.antt =====
-- The detector of internal/clock/jump.go reports a jump once.
use pulseq.Prelude.{ℕ, ◌≡◌, refl, false, ◌||◌, none, arith, Bool-cases, inl, inr}
use pulseq.Prelude.Int.{ℤ, pos, negsuc, ◌+ℤ◌, ◌-ℤ◌, ltb_ℤ}
use pulseq.Clock.{Detector, check}

-- The sample becomes the new baseline either way.
check-baseline :
    (now since mark : ℤ) (d : Detector)
    → (check now since mark d).0 ≡ record d { wall = now; mark = mark }
unfolding check
check-baseline now since mark d =
    let delta = now -ℤ d.wall -ℤ since in
    elim (Bool-cases (ltb_ℤ d.threshold delta || ltb_ℤ delta (pos 0 -ℤ d.threshold))) [
      | inl e ↦ rw e refl
      | inr e ↦ rw e refl
    ]

no_gap : (a b : ℤ) → (a +ℤ b) -ℤ a -ℤ b ≡ pos 0
unfolding ◌-ℤ◌ ◌+ℤ◌
no_gap (pos a) (pos b) = ground arith
no_gap (pos a) (negsuc b) = ground arith
no_gap (negsuc a) (pos b) = ground arith
no_gap (negsuc a) (negsuc b) = ground arith

quiet : (m : ℕ) → (ltb_ℤ (pos m) (pos 0) || ltb_ℤ (pos 0) (pos 0 -ℤ pos m)) ≡ false
unfolding ◌-ℤ◌
quiet m = ground arith

-- Whatever the first sample found, a second sample at which wall time has moved on by the monotonic
-- time since the first one reports no jump, if the threshold is not negative.
pub check_again :
    (now since mark elapsed mark' : ℤ) (m : ℕ) (d : Detector)
    → d.threshold ≡ pos m
    → (check (now +ℤ elapsed) elapsed mark' (check now since mark d).0).1 ≡ none
unfolding check
check_again now since mark elapsed mark' m d h =
    rw (check-baseline now since mark d, check, no_gap now elapsed, h, quiet m) refl
