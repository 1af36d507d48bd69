-- ===== src/Engine/Attempt/Plans.antt =====
-- The attempt arithmetic of `runStep` of internal/engine beside the step machine's own guard.
use pulseq.Prelude.{◌<◌, true, ◌≡◌, refl, Option, none, some, arith, eq_iff}
use pulseq.Prelude.Int.{ℤ}
use pulseq.Model.State.{StepState, step_running, step_pending}
use pulseq.Model.StepFsm.{next_step_state}
use pulseq.Store.Rows.{Step}
use pulseq.Store.StepMoves.{StepOutcome, outcome_guards}
use pulseq.Engine.Policy.{RetryBlock}
use pulseq.Engine.Verdict.{Result, verdict_for, timed_out}
use pulseq.Engine.Attempt.{Engine, StepWorld, failed_outcome, recorded_outcome, observed_outcome}

-- Where the machine takes a step that runs, on an outcome that is recorded.
abbrev pub state_after : Step → StepOutcome → StepState
state_after s out = (next_step_state s.state out.event (outcome_guards s out)).state

module _ (e : Engine) where
  -- An attempt that the run's own deadline kills goes back to pending, without a plan, if the step has
  -- an attempt left: the machine is not told that no further attempt fits.
  pub recorded_outcome_cut :
      (s : Step) (res : Result) (block : Option RetryBlock) (timeout : ℤ) (w : StepWorld)
      → s.state ≡ step_running
      → s.attempt < s.max_attempts
      → res.outcome ≡ timed_out
      → (out : StepOutcome) × (recorded_outcome e
            (observed_outcome e res w)
            res
            s.attempt
            s.max_attempts
            block
            timeout
            true
            w
          ≡ some out)
        × (out.retry ≡ none)
        × (state_after s out ≡ step_pending)
  unfolding recorded_outcome failed_outcome observed_outcome verdict_for next_step_state
  recorded_outcome_cut s res block timeout w running left killed =
      rw killed (_, refl, refl, ground (arith, eq_iff "STEP_FAILED_TIMEOUT" ""))
