-- ===== src/Model/RunFsm.antt =====
-- internal/model/run_fsm.go: the run machine. The `switch` of `NextRunState` is one clause for each
-- pair of a state and an event that it names, with the last clause for all others.
use pulseq.Prelude.{String, List, [], ◌∷◌, Option, none, some, not, if◌then◌else◌, str_eq}
use pulseq.Model.State.{
  RunState, run_queued, run_running, run_succeeded, run_failed, run_cancelled, State, of_run, Event,
  ev_claim, ev_deferred, ev_all_steps_done, ev_cancel_observed, ev_lease_expired, ev_operator_retry,
}
use pulseq.Model.Guards.{
  Guards, available, Effect, act, emit, defer_because, bump_epoch, take_lease, release_lease,
  set_started, set_finished, set_available_at, kill_process_group, inc_crash_count,
}
use pulseq.Model.Errors.{
  Error, illegal, guarded, not_available, missing_reason_code, missing_defer_reason,
  steps_not_terminal, stale_lease, lease_still_valid,
}

-- The three results of a machine: the next state, the effects, and the error if there is one.
pub record Outcome (S : Type 0) : Type 0 where
  pub state : S
  pub effects : List Effect
  pub error : Option Error

module _ {S : Type 0} where
  abbrev pub moved : S → List Effect → Outcome S
  moved s fx = record { state = s; effects = fx; error = none }

  abbrev pub refused : S → Error → Outcome S
  refused s e = record { state = s; effects = []; error = some e }

  -- The check of `requireReason` in front of a transition that needs an explanation.
  abbrev pub when_allowed : S → Option Error → Outcome S → Outcome S
  when_allowed cur none next = next
  when_allowed cur (some e) next = refused cur e

abbrev pub defer_reason_after_crash : String
defer_reason_after_crash = "reconciled_after_crash"

unfoldable pub require_reason : State → Event → State → Guards → Option Error
require_reason from ev to g =
    if not (str_eq g.reason_code "") then none else some (guarded from ev to missing_reason_code)

on_claim : Guards → Outcome RunState
unfolding require_reason available
on_claim g =
    if g.cancel_requested
    then when_allowed run_queued (needs run_cancelled)
        (moved run_cancelled (act set_finished ∷ emit "run.cancelled" ∷ []))
    else if not (available g)
    then refused run_queued
        (guarded (of_run run_queued) ev_claim (of_run run_running) not_available)
    else moved run_running
        (act bump_epoch ∷ act take_lease ∷ act set_started ∷ emit "run.started" ∷ [])
  where
    needs : RunState → Option Error
    needs to = require_reason (of_run run_queued) ev_claim (of_run to) g

on_deferred : Guards → Outcome RunState
on_deferred g =
    if str_eq g.defer_reason ""
    then refused run_queued
        (guarded (of_run run_queued) ev_deferred (of_run run_queued) missing_defer_reason)
    else moved run_queued
        (act set_available_at ∷ defer_because g.defer_reason ∷ emit "run.deferred" ∷ [])

on_all_steps_done : Guards → Outcome RunState
unfolding require_reason
on_all_steps_done g =
    let next = if g.any_step_failed then run_failed else run_succeeded in
    let name : String = if g.any_step_failed then "run.failed" else "run.succeeded" in
    if not g.lease_valid
    then refused run_running
        (guarded (of_run run_running) ev_all_steps_done (of_run next) stale_lease)
    else if not g.all_steps_terminal
    then refused run_running
        (guarded (of_run run_running) ev_all_steps_done (of_run next) steps_not_terminal)
    else when_allowed run_running
        (require_reason (of_run run_running) ev_all_steps_done (of_run next) g)
        (moved next (act set_finished ∷ act release_lease ∷ emit name ∷ []))

on_cancel_observed : Guards → Outcome RunState
unfolding require_reason
on_cancel_observed g =
    if not g.lease_valid
    then refused run_running
        (guarded (of_run run_running) ev_cancel_observed (of_run run_cancelled) stale_lease)
    else when_allowed run_running
        (require_reason (of_run run_running) ev_cancel_observed (of_run run_cancelled) g)
        (moved run_cancelled (
          act kill_process_group
          ∷ act set_finished
          ∷ act release_lease
          ∷ emit "run.cancelled"
          ∷ []))

on_lease_expired : Guards → Outcome RunState
unfolding require_reason
on_lease_expired g =
    let next = if g.crash_budget_left then run_queued else run_failed in
    if g.lease_valid
    then refused run_running
        (guarded (of_run run_running) ev_lease_expired (of_run next) lease_still_valid)
    else if g.crash_budget_left
    then moved run_queued (
        act bump_epoch
        ∷ act inc_crash_count
        ∷ defer_because defer_reason_after_crash
        ∷ emit "run.requeued"
        ∷ [])
    else when_allowed run_running
        (require_reason (of_run run_running) ev_lease_expired (of_run run_failed) g)
        (moved run_failed (act set_finished ∷ emit "run.poisoned" ∷ []))

reopened : Outcome RunState
reopened = moved run_queued (act bump_epoch ∷ emit "run.reopened" ∷ [])

-- `NextRunState`: what a run may do next.
unfoldable pub next_run_state : RunState → Event → Guards → Outcome RunState
unfolding on_claim on_deferred on_all_steps_done on_cancel_observed on_lease_expired reopened
next_run_state run_queued ev_claim g = on_claim g
next_run_state run_queued ev_deferred g = on_deferred g
next_run_state run_running ev_all_steps_done g = on_all_steps_done g
next_run_state run_running ev_cancel_observed g = on_cancel_observed g
next_run_state run_running ev_lease_expired g = on_lease_expired g
next_run_state run_succeeded ev_operator_retry g = reopened
next_run_state run_failed ev_operator_retry g = reopened
next_run_state run_cancelled ev_operator_retry g = reopened
next_run_state cur ev g = refused cur (illegal (of_run cur) ev)
