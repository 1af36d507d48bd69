-- ===== src/Examples/Machines.antt =====
-- The machines, the aggregate, the delays and the logs on concrete inputs.
use pulseq.Prelude.{
  ℕ, ◌+◌, ◌*◌, ◌^◌, min, ◌≡◌, ◌≢◌, ◌↔◌, refl, true, List, [], ◌∷◌, none, some, arith, eq_iff,
  if◌then◌else◌,
}
use pulseq.Prelude.Int.{pos, ◌≤ℤ◌}
use pulseq.Model.State.{
  run_queued, run_running, run_succeeded, run_failed, run_cancelled, StepState, step_pending,
  step_running, step_succeeded, step_failed, step_skipped, ev_claim, ev_all_steps_done,
  ev_step_failed,
}
use pulseq.Model.Guards.{Guards, no_guards}
use pulseq.Model.RunFsm.{next_run_state}
use pulseq.Model.StepFsm.{next_step_state}
use pulseq.Model.Moves.{RunMove, StepMove, run_table, step_table}
use pulseq.Model.Safety.{count_effects}
use pulseq.Model.Aggregate.{run_aggregate}
use pulseq.Model.Aggregate.Meaning.{
  some_step, is_failed, is_cancelled, is_active, run_aggregate_lem, finish_agrees,
}
use pulseq.Model.Apply.{Input, apply_run}
use pulseq.Model.Apply.Histories.{RunPath, apply_run_path}
use pulseq.Model.Apply.Leases.{lease_balance, is_take, is_release, expiries, leases_held}
use pulseq.Retry.{Policy, exponential, fixed, jitter_full, jitter_none, delay}
use pulseq.Retry.Bounds.{Draws, delay_bounds}
use pulseq.Retry.Doubling.{IsUsual, delay_formula}

-- A claim of a run that is available, and a step that failed with an attempt left.
abbrev free_guards : Guards
free_guards = record no_guards { now = 5; available_at = 3 }

abbrev retry_guards : Guards
retry_guards = record no_guards { attempts_left = true; reason_code = "STEP_FAILED_NONZERO_EXIT" }

abbrev done_guards : Guards
done_guards = record no_guards {
  lease_valid = true;
  all_steps_terminal = true;
  reason_code = "RUN_SUCCEEDED";
}

run_table_example : RunMove free_guards run_queued ev_claim run_running ↔ (
    ((next_run_state run_queued ev_claim free_guards).error ≡ none)
    × ((next_run_state run_queued ev_claim free_guards).state ≡ run_running))
run_table_example = run_table run_queued run_running ev_claim free_guards

step_table_example : StepMove retry_guards step_running ev_step_failed step_pending ↔ (
    ((next_step_state step_running ev_step_failed retry_guards).error ≡ none)
    × ((next_step_state step_running ev_step_failed retry_guards).state ≡ step_pending))
step_table_example = step_table step_running step_pending ev_step_failed retry_guards

finishes : (next_run_state run_running ev_all_steps_done done_guards).error ≡ none
unfolding next_run_state
finishes = refl

abbrev early_guards : Guards
early_guards = record no_guards { now = 3; available_at = 5 }

abbrev ended_steps : List StepState
ended_steps = step_succeeded ∷ step_failed ∷ step_skipped ∷ []

run_aggregate_lem_example : run_aggregate ended_steps ≡ (
    if some_step is_active ended_steps
    then run_running
    else if some_step is_failed ended_steps
    then run_failed
    else if some_step is_cancelled ended_steps
    then run_cancelled
    else run_succeeded)
run_aggregate_lem_example = run_aggregate_lem ended_steps

finish_agrees_example :
    (next_run_state run_running ev_all_steps_done done_guards).state
    ≡ run_aggregate (step_succeeded ∷ step_skipped ∷ [])
unfolding some_step
finish_agrees_example =
    finish_agrees (step_succeeded ∷ step_skipped ∷ []) done_guards refl refl finishes refl

abbrev history : List Input
history =
    record { event = ev_claim; guards = free_guards }
    ∷ record { event = ev_all_steps_done; guards = done_guards }
    ∷ []

apply_run_path_example : RunPath run_queued history run_succeeded ↔ (
    ((apply_run run_queued history).error ≡ none)
    × ((apply_run run_queued history).state ≡ run_succeeded))
apply_run_path_example = apply_run_path run_queued run_succeeded history

history_accepted : (apply_run run_queued history).error ≡ none
unfolding apply_run next_run_state
history_accepted = refl

lease_balance_example :
    count_effects is_take (apply_run run_queued history).effects
    ≡ count_effects is_release (apply_run run_queued history).effects
      + expiries history
      + leases_held (apply_run run_queued history).state
lease_balance_example = lease_balance history history_accepted

-- One second, doubling to a minute, in nanoseconds.
abbrev doubling : Policy
doubling = record {
  backoff = exponential;
  initial = pos 1000000000;
  max_delay = pos 60000000000;
  jitter = jitter_none;
}

abbrev jittered : Policy
jittered = record doubling { jitter = jitter_full }

abbrev lowest_draw : ℕ → ℕ
lowest_draw n = 0

draws : Draws lowest_draw
draws n h = h

usual : IsUsual doubling
usual = record {
  first = 1000000000;
  cap = 60000000000;
  initial_eq = refl;
  max_eq = refl;
  first_fits = omega arith;
  cap_fits = omega arith;
  cap_pos = omega arith;
}

drawn : delay jittered (pos 4) (some lowest_draw) ≡ some (pos 0)
unfolding delay
drawn = refl

delay_bounds_example : (pos 0 ≤ℤ pos 0) × (pos 0 ≤ℤ pos 60000000000)
delay_bounds_example =
    delay_bounds jittered (pos 4) 60000000000 lowest_draw (pos 0) refl (omega arith) (omega arith)
      draws drawn

not_fixed : exponential ≢ fixed
not_fixed e = ground (arith, eq_iff exponential fixed)

delay_formula_example :
    delay doubling (pos 4) none ≡ some (pos (min (usual.first * 2 ^ 3) usual.cap))
delay_formula_example = delay_formula doubling usual 3 none not_fixed refl
