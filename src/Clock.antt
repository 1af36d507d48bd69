-- ===== src/Clock.antt =====
-- internal/clock/jump.go: the detector of wall clock jumps. An instant and a duration are integers
-- in nanoseconds; what the clock reads is an argument.
pub mod Baseline
use pulseq.Prelude.{Bool, true, false, ◌||◌, Option, none, some, if◌then◌else◌}
use pulseq.Prelude.Int.{ℤ, pos, ◌-ℤ◌, ltb_ℤ, leb_ℤ}

pub record Jump : Type 0 where
  pub at : ℤ
  pub delta : ℤ

pub record Detector : Type 0 where
  pub threshold : ℤ
  pub wall : ℤ
  pub mark : ℤ

-- Five seconds.
abbrev pub default_jump_threshold : ℤ
default_jump_threshold = pos 5000000000

-- `NewDetector`.
abbrev pub new_detector : ℤ → ℤ → ℤ → Detector
new_detector now mark threshold = record {
  threshold = if leb_ℤ threshold (pos 0) then default_jump_threshold else threshold;
  wall = now;
  mark = mark;
}

-- `Check` on the wall time, the monotonic time since the last mark, and the new mark.
unfoldable pub check : ℤ → ℤ → ℤ → Detector → Detector × Option Jump
unfolding ◌-ℤ◌
check now since mark d =
    let delta = now -ℤ d.wall -ℤ since in
    let next : Detector = record d { wall = now; mark = mark } in
    if ltb_ℤ d.threshold delta || ltb_ℤ delta (pos 0 -ℤ d.threshold)
    then (next, some (record { at = now; delta = delta }))
    else (next, none)
