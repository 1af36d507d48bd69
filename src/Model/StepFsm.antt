-- ===== src/Model/StepFsm.antt =====
-- internal/model/step_fsm.go: the step machine, in the shape of the run machine.
use pulseq.Prelude.{List, [], ◌∷◌, if◌then◌else◌}
use pulseq.Model.State.{
  StepState, step_pending, step_running, step_succeeded, step_failed, step_skipped, step_cancelled,
  of_step, Event, ev_step_started, ev_step_succeeded, ev_step_failed, ev_upstream_failed,
  ev_cancel_observed,
}
use pulseq.Model.Guards.{
  Guards, Effect, act, emit, set_started, set_finished, kill_process_group, inc_attempt,
  set_next_attempt_at,
}
use pulseq.Model.Errors.{illegal}
use pulseq.Model.RunFsm.{Outcome, moved, refused, when_allowed, require_reason}

-- A transition that needs a reason code, and one that has it.
explained : StepState → Event → StepState → List Effect → Guards → Outcome StepState
unfolding require_reason
explained cur ev to fx g =
    when_allowed cur (require_reason (of_step cur) ev (of_step to) g) (moved to fx)

on_step_failed : Guards → Outcome StepState
unfolding explained
on_step_failed g =
    if g.attempts_left
    then explained step_running ev_step_failed step_pending
        (act set_next_attempt_at ∷ emit "step.retry_scheduled" ∷ []) g
    else explained step_running ev_step_failed step_failed
        (act set_finished ∷ emit "step.failed" ∷ []) g

-- `NextStepState`: what a step may do next.
unfoldable pub next_step_state : StepState → Event → Guards → Outcome StepState
unfolding explained on_step_failed
next_step_state step_pending ev_step_started g =
    moved step_running (act inc_attempt ∷ act set_started ∷ emit "step.started" ∷ [])
next_step_state step_pending ev_upstream_failed g =
    explained step_pending ev_upstream_failed step_skipped
      (act set_finished ∷ emit "step.skipped" ∷ []) g
next_step_state step_running ev_step_succeeded g =
    explained step_running ev_step_succeeded step_succeeded
      (act set_finished ∷ emit "step.succeeded" ∷ []) g
next_step_state step_running ev_step_failed g = on_step_failed g
next_step_state step_running ev_cancel_observed g =
    explained step_running ev_cancel_observed step_cancelled
      (act kill_process_group ∷ act set_finished ∷ emit "step.cancelled" ∷ []) g
next_step_state cur ev g = refused cur (illegal (of_step cur) ev)
