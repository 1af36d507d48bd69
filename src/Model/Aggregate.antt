-- ===== src/Model/Aggregate.antt =====
-- internal/model/aggregate.go: the run state that a set of steps implies (I10).
pub mod Meaning
use pulseq.Prelude.{Bool, true, false, List, [], ◌∷◌, if◌then◌else◌}
use pulseq.Model.State.{
  RunState, run_running, run_succeeded, run_failed, run_cancelled, StepState, step_pending,
  step_running, step_failed, step_cancelled,
}

-- The three flags of the loop.
pub record Flags : Type 0 where
  pub any_active : Bool
  pub any_failed : Bool
  pub any_cancelled : Bool

abbrev pub no_flags : Flags
no_flags = record { any_active = false; any_failed = false; any_cancelled = false }

-- The `switch` of the loop's body.
abbrev pub note : StepState → Flags → Flags
note step_pending f = record f { any_active = true }
note step_running f = record f { any_active = true }
note step_failed f = record f { any_failed = true }
note step_cancelled f = record f { any_cancelled = true }
note _ f = f

unfoldable pub note_all : Flags → List StepState → Flags
note_all f [] = f
note_all f (s ∷ rest) = note_all (note s f) rest

abbrev pub verdict : Flags → RunState
verdict f =
    if f.any_active
    then run_running
    else if f.any_failed
    then run_failed
    else if f.any_cancelled
    then run_cancelled
    else run_succeeded

unfoldable pub run_aggregate : List StepState → RunState
unfolding note_all
run_aggregate steps = verdict (note_all no_flags steps)
