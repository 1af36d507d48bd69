-- ===== src/Examples/Executions.antt =====
-- The executor on the tables of `Examples.Runs`: a run that succeeds, and one whose step is killed by the
-- run's own deadline with an attempt left.
use pulseq.Prelude.{◌≡◌, ◌<◌, ℕ, refl, true, false, [], ◌∷◌, none, some, String, ◌&&◌, arith}
use pulseq.Prelude.Int.{pos}
use pulseq.Model.State.{
  run_succeeded, is_terminal_run, is_terminal_step, StepState, step_pending, step_running,
  step_skipped,
}
use pulseq.Store.Rows.{Db, Run, Step, find_run}
use pulseq.Store.Tx.{Attempt, goes}
use pulseq.Store.Trail.{run_state, step_state}
use pulseq.Store.Create.Queued.{create_run_with_steps-Sound}
use pulseq.Store.Invariant.{Sound}
use pulseq.Store.Calls.{HeedfulCalls}
use pulseq.Engine.Acts.{went}
use pulseq.Engine.Attempt.{Engine, FrozenJob, StepWorld, recorded_outcome, observed_outcome}
use pulseq.Engine.Attempt.Plans.{state_after, recorded_outcome_cut}
use pulseq.Engine.Verdict.{Result, succeeded, failed, timed_out}
use pulseq.Engine.Execute.{execute_run, ended, World, Round}
use pulseq.Engine.Execute.Ended.{tables, execute_run-Sound, execute_run_lem}
use pulseq.Examples.Runs as Runs
use pulseq.Examples.Tables.{sound, step_named}

abbrev calm : ℕ → Attempt
calm n = record { fate = goes; context_done = false }

abbrev job : FrozenJob
job = record {
  timeout = pos 0;
  steps = record { name = "s1"; timeout = pos 5000000; retry = none } ∷ [];
}

abbrev me : Engine
me = record {
  owner = "me";
  lease_ttl = pos 1000;
  writable = true;
  marshal = λ facts. some "{\"facts\":1}";
  unmarshal = λ text. none;
  frozen_spec = λ version. some job;
}

abbrev exits_0 : Result
exits_0 = record {
  exit_code = pos 0;
  signal = "";
  finished_at = 20;
  outcome = succeeded;
  reason_data = [];
}

abbrev killed : Result
killed = record {
  exit_code = pos 0;
  signal = "killed";
  finished_at = 20;
  outcome = timed_out;
  reason_data = [];
}

abbrev exits_1 : Result
exits_1 = record {
  exit_code = pos 1;
  signal = "";
  finished_at = 20;
  outcome = failed;
  reason_data = [];
}

abbrev attempt_with : Result → StepWorld
attempt_with res = record {
  reads = true;
  started_at = 11;
  start_weather = calm;
  log_opens = true;
  clock = 11000000;
  meanwhile = [];
  process = λ timeout. res;
  spawns = true;
  seen_by = "";
  tail = "";
  bytes = 12;
  truncated = false;
  rel_path = "r1/s1.log";
  log_closes = true;
  random = some (λ n. 0);
  clock_after = 20000000;
  recorded_at = 20;
  record_weather = calm;
}

abbrev quiet_round : Result → ℕ → Round
quiet_round res n = record {
  before = [];
  poll_answers = true;
  cancelled_at = 25;
  cancel_weather = calm;
  next_answers = true;
  next-At = 11;
  wait_answers = true;
  wait_at = 25;
  context_done = false;
  attempt = attempt_with res;
}

abbrev quiet : Result → World
quiet res = record {
  run_answers = true;
  clock = 9000000;
  early = [];
  claimed_at = 10;
  claim_weather = calm;
  rounds = quiet_round res;
  closing = record {
    before = [];
    pending_answers = true;
    skipped_at = 29;
    skip_weather = λ i. calm;
    steps_answer = true;
    finished_at = 30;
    finish_weather = calm;
  };
}

abbrev after_success : Db
after_success = tables (execute_run me 2 "r1" (quiet exits_0) Runs.tables)

executes :
    execute_run me 2 "r1" (quiet exits_0) Runs.tables ≡ went (ended run_succeeded) after_success
unfolding execute_run pulseq.Engine.Acts.◌>>=◌ pulseq.Store.Table.find pulseq.Engine.Acts.others
    pulseq.Engine.Acts.transact pulseq.Store.Tx.with_tx pulseq.Store.Tx.attempts_from
    pulseq.Store.Writes.read_run_tx pulseq.Store.Writes.read_step_tx
    pulseq.Store.Writes.read_steps_tx pulseq.Store.Writes.finish_transition
    pulseq.Store.Writes.exec_run pulseq.Store.Writes.exec_step pulseq.Store.Writes.order_by_idx
    pulseq.Store.Writes.append_run_event pulseq.Store.Rows.check_run pulseq.Store.Rows.check_step
    pulseq.Store.Rows.find_step pulseq.Store.Rows.null_if_empty pulseq.Store.Table.update
    pulseq.Store.Table.select pulseq.Model.Parse.parse_run_state pulseq.Model.Parse.parse_step_state
    pulseq.Model.RunFsm.next_run_state pulseq.Model.StepFsm.next_step_state
    pulseq.Store.Finish.scan_flags pulseq.Store.Finish.holds_lease pulseq.Store.Finish.finish_run
    pulseq.Store.Finish.cancel_requested pulseq.Store.Queue.next_runnable_step
    pulseq.Store.Queue.next_retry_wait pulseq.Store.Queue.pending_steps recorded_outcome
    observed_outcome pulseq.Retry.delay pulseq.Engine.Policy.retry_policy_of
    pulseq.Engine.Verdict.finish_reason
executes = refl

tables-Sound : Sound Runs.tables
tables-Sound =
    (create_run_with_steps-Sound "r1" 0 Runs.nightly Runs.no_tables Runs.tables Runs.queued_run
      (step_named, tt) Runs.creates sound).0

execute_run-Sound_example : HeedfulCalls Runs.tables after_success × Sound after_success
execute_run-Sound_example = execute_run-Sound me 2 "r1" (quiet exits_0) Runs.tables tables-Sound

execute_run_lem_example :
    (run_state after_success "r1" ≡ some run_succeeded)
    × (is_terminal_run run_succeeded ≡ true)
    × ((name : String) (t : StepState)
        → step_state after_success "r1" name ≡ some t
        → is_terminal_step t ≡ true)
execute_run_lem_example =
    execute_run_lem me 2 "r1" (quiet exits_0) Runs.tables after_success run_succeeded tables-Sound
      executes

abbrev running_step : Step
running_step = record (Runs.pending_step) { state = step_running; attempt = 1; max_attempts = 3 }

abbrev outcome_of : Result → pulseq.Store.StepMoves.StepOutcome
outcome_of res =
    elim (recorded_outcome me (observed_outcome me res (attempt_with res)) res 1 3 none (pos 9)
      false (attempt_with res)) [ none ↦ Runs.succeeded | some out ↦ out ]

recorded_outcome_cut_example :
    (out : pulseq.Store.StepMoves.StepOutcome) × (recorded_outcome me
        (observed_outcome me killed (attempt_with killed))
        killed
        1
        3
        none
        (pos 9)
        true
        (attempt_with killed)
      ≡ some out)
    × (out.retry ≡ none)
    × (state_after running_step out ≡ step_pending)
recorded_outcome_cut_example =
    recorded_outcome_cut me running_step killed none (pos 9) (attempt_with killed) refl
      (ground arith) refl

-- One attempt of three, which the run's deadline kills: the step is skipped, and the run has succeeded,
-- under the reason that its time was out.
abbrev hurried : FrozenJob
hurried = record job { timeout = pos 3000000 }

abbrev hurried_me : Engine
hurried_me = record me { frozen_spec = λ version. some hurried }

abbrev patient_tables : Db
patient_tables = record (Runs.tables) {
  steps = record (Runs.pending_step) { max_attempts = 3 } ∷ [];
}

abbrev after_kill : Db
after_kill = tables (execute_run hurried_me 2 "r1" (quiet killed) patient_tables)

killed_run :
    execute_run hurried_me 2 "r1" (quiet killed) patient_tables
    ≡ went (ended run_succeeded) after_kill
unfolding execute_run pulseq.Engine.Acts.◌>>=◌ pulseq.Store.Table.find pulseq.Engine.Acts.others
    pulseq.Engine.Acts.transact pulseq.Store.Tx.with_tx pulseq.Store.Tx.attempts_from
    pulseq.Store.Writes.read_run_tx pulseq.Store.Writes.read_step_tx
    pulseq.Store.Writes.read_steps_tx pulseq.Store.Writes.finish_transition
    pulseq.Store.Writes.exec_run pulseq.Store.Writes.exec_step pulseq.Store.Writes.order_by_idx
    pulseq.Store.Writes.append_run_event pulseq.Store.Rows.check_run pulseq.Store.Rows.check_step
    pulseq.Store.Rows.find_step pulseq.Store.Rows.null_if_empty pulseq.Store.Table.update
    pulseq.Store.Table.select pulseq.Model.Parse.parse_run_state pulseq.Model.Parse.parse_step_state
    pulseq.Model.RunFsm.next_run_state pulseq.Model.StepFsm.next_step_state
    pulseq.Store.Finish.scan_flags pulseq.Store.Finish.holds_lease pulseq.Store.Finish.finish_run
    pulseq.Store.Finish.cancel_requested pulseq.Store.Queue.next_runnable_step
    pulseq.Store.Queue.next_retry_wait pulseq.Store.Queue.pending_steps recorded_outcome
    observed_outcome pulseq.Retry.delay pulseq.Engine.Policy.retry_policy_of
    pulseq.Engine.Verdict.finish_reason
killed_run = refl

abbrev reason_of : pulseq.Prelude.Option Run → pulseq.Prelude.Option String
reason_of none = none
reason_of (some r) = r.reason_code

killed_reason : reason_of (find_run after_kill "r1") ≡ some "RUN_TIMED_OUT"
unfolding find_run execute_run pulseq.Engine.Acts.◌>>=◌ pulseq.Store.Table.find
    pulseq.Engine.Acts.others pulseq.Engine.Acts.transact pulseq.Store.Tx.with_tx
    pulseq.Store.Tx.attempts_from pulseq.Store.Writes.read_run_tx pulseq.Store.Writes.read_step_tx
    pulseq.Store.Writes.read_steps_tx pulseq.Store.Writes.finish_transition
    pulseq.Store.Writes.exec_run pulseq.Store.Writes.exec_step pulseq.Store.Writes.order_by_idx
    pulseq.Store.Writes.append_run_event pulseq.Store.Rows.check_run pulseq.Store.Rows.check_step
    pulseq.Store.Rows.find_step pulseq.Store.Rows.null_if_empty pulseq.Store.Table.update
    pulseq.Store.Table.select pulseq.Model.Parse.parse_run_state pulseq.Model.Parse.parse_step_state
    pulseq.Model.RunFsm.next_run_state pulseq.Model.StepFsm.next_step_state
    pulseq.Store.Finish.scan_flags pulseq.Store.Finish.holds_lease pulseq.Store.Finish.finish_run
    pulseq.Store.Finish.cancel_requested pulseq.Store.Queue.next_runnable_step
    pulseq.Store.Queue.next_retry_wait pulseq.Store.Queue.pending_steps recorded_outcome
    observed_outcome pulseq.Retry.delay pulseq.Engine.Policy.retry_policy_of
    pulseq.Engine.Verdict.finish_reason
killed_reason = refl

killed_step : step_state after_kill "r1" "s1" ≡ some step_skipped
unfolding find_run execute_run pulseq.Engine.Acts.◌>>=◌ pulseq.Store.Table.find
    pulseq.Engine.Acts.others pulseq.Engine.Acts.transact pulseq.Store.Tx.with_tx
    pulseq.Store.Tx.attempts_from pulseq.Store.Writes.read_run_tx pulseq.Store.Writes.read_step_tx
    pulseq.Store.Writes.read_steps_tx pulseq.Store.Writes.finish_transition
    pulseq.Store.Writes.exec_run pulseq.Store.Writes.exec_step pulseq.Store.Writes.order_by_idx
    pulseq.Store.Writes.append_run_event pulseq.Store.Rows.check_run pulseq.Store.Rows.check_step
    pulseq.Store.Rows.find_step pulseq.Store.Rows.null_if_empty pulseq.Store.Table.update
    pulseq.Store.Table.select pulseq.Model.Parse.parse_run_state pulseq.Model.Parse.parse_step_state
    pulseq.Model.RunFsm.next_run_state pulseq.Model.StepFsm.next_step_state
    pulseq.Store.Finish.scan_flags pulseq.Store.Finish.holds_lease pulseq.Store.Finish.finish_run
    pulseq.Store.Finish.cancel_requested pulseq.Store.Queue.next_runnable_step
    pulseq.Store.Queue.next_retry_wait pulseq.Store.Queue.pending_steps recorded_outcome
    observed_outcome pulseq.Retry.delay pulseq.Engine.Policy.retry_policy_of
    pulseq.Engine.Verdict.finish_reason
killed_step = refl
