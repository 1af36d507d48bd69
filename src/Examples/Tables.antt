-- ===== src/Examples/Tables.antt =====
-- The theorems on internal/store at the run of `Examples.Runs`, from the queue to its end.
use pulseq.Prelude.{
  [], ℕ, ◌≡◌, ◌≢◌, refl, true, false, some, none, String, ltb, arith, eq_iff, if◌then◌else◌, leb,
}
use pulseq.Prelude.Int.{pos}
use pulseq.Model.State.{
  run_queued, run_running, run_succeeded, StepState, step_pending, step_running, ev_step_started,
  ev_all_steps_done, is_terminal_step,
}
use pulseq.Model.Guards.{no_guards}
use pulseq.Store.Table.{find}
use pulseq.Store.Rows.{Run, Step, Db, find_run, find_step, WellKeyed}
use pulseq.Store.Tx.{after, Attempt, goes, breaks, with_tx}
use pulseq.Store.Writes.{steps_of}
use pulseq.Store.Claim.{claim_run}
use pulseq.Store.StepMoves.{start_step, record_step_outcome}
use pulseq.Store.Finish.{
  finish_run, FinishReason, holds_lease, request_cancel, CancelRequest, observe_run_cancel,
}
use pulseq.Store.Finish.Verdict.{some_step, has_failed}
use pulseq.Store.Queue.{next_runnable_step}
use pulseq.Store.Queue.Ready.{Answers, next_runnable_step_lem}
use pulseq.Store.Create.Queued.{create_run_with_steps-Sound}
use pulseq.Store.Trail.{run_state, RunMoved, StepMoved}
use pulseq.Store.Trail.Steps.{start_step-StepMoved, record_step_outcome-StepMoved}
use pulseq.Store.Trail.Finish.{finish_run-RunMoved, Leased, finished_guards}
use pulseq.Store.Trail.Claims.{NoneRunning, ClaimOutcome, claim_run-ClaimOutcome, CancelledOver}
use pulseq.Store.Trail.Cancels.{observe_run_cancel-CancelledOver}
use pulseq.Store.Invariant.{Sound, told}
use pulseq.Store.Fsck.{broken_chains}
use pulseq.Store.Fsck.Chains.{calls_unbroken}
use pulseq.Store.Calls.{
  AllHeed, Calls, Calls-Sound, none_yet, then_call, created, claimed, started, ended, finished,
}
use pulseq.Examples.Runs.{
  no_tables, nightly, queued_run, creates, pending_step, tables, succeeded, well, claimed_tables,
  started_tables, ended_tables, finished_tables, asked_tables, cancelled_tables, claims, starts,
  ends, finishes, observes,
}

keyed : WellKeyed tables
unfolding claim_run start_step record_step_outcome finish_run pulseq.Store.Writes.read_run_tx
    pulseq.Store.Writes.read_step_tx pulseq.Store.Writes.read_steps_tx
    pulseq.Store.Finish.scan_flags find_run find_step find pulseq.Store.Table.update
    pulseq.Model.Parse.parse_run_state pulseq.Model.Parse.parse_step_state
    pulseq.Model.RunFsm.next_run_state pulseq.Model.StepFsm.next_step_state
    pulseq.Store.Writes.finish_transition pulseq.Store.Writes.exec_run pulseq.Store.Writes.exec_step
    pulseq.Store.Rows.check_run pulseq.Store.Rows.check_step holds_lease steps_of
    pulseq.Store.Writes.order_by_idx pulseq.Store.Table.select pulseq.Store.Writes.append_run_event
    request_cancel observe_run_cancel pulseq.Store.Claim.skip_pending_steps_tx
    pulseq.Store.Claim.pending_names pulseq.Store.Claim.skip_each pulseq.Store.Claim.skip_step
    with_tx pulseq.Store.Tx.attempts_from pulseq.Store.Rows.null_if_empty
keyed = record { unique = (refl, tt); named = (λ e. ground (arith, eq_iff "s1" ""), tt) }

idle : NoneRunning tables "r1"
unfolding claim_run start_step record_step_outcome finish_run pulseq.Store.Writes.read_run_tx
    pulseq.Store.Writes.read_step_tx pulseq.Store.Writes.read_steps_tx
    pulseq.Store.Finish.scan_flags find_run find_step find pulseq.Store.Table.update
    pulseq.Model.Parse.parse_run_state pulseq.Model.Parse.parse_step_state
    pulseq.Model.RunFsm.next_run_state pulseq.Model.StepFsm.next_step_state
    pulseq.Store.Writes.finish_transition pulseq.Store.Writes.exec_run pulseq.Store.Writes.exec_step
    pulseq.Store.Rows.check_run pulseq.Store.Rows.check_step holds_lease steps_of
    pulseq.Store.Writes.order_by_idx pulseq.Store.Table.select pulseq.Store.Writes.append_run_event
    request_cancel observe_run_cancel pulseq.Store.Claim.skip_pending_steps_tx
    pulseq.Store.Claim.pending_names pulseq.Store.Claim.skip_each pulseq.Store.Claim.skip_step
    with_tx pulseq.Store.Tx.attempts_from pulseq.Store.Rows.null_if_empty
idle n e = ground arith

keyed_asked : WellKeyed asked_tables
unfolding claim_run start_step record_step_outcome finish_run pulseq.Store.Writes.read_run_tx
    pulseq.Store.Writes.read_step_tx pulseq.Store.Writes.read_steps_tx
    pulseq.Store.Finish.scan_flags find_run find_step find pulseq.Store.Table.update
    pulseq.Model.Parse.parse_run_state pulseq.Model.Parse.parse_step_state
    pulseq.Model.RunFsm.next_run_state pulseq.Model.StepFsm.next_step_state
    pulseq.Store.Writes.finish_transition pulseq.Store.Writes.exec_run pulseq.Store.Writes.exec_step
    pulseq.Store.Rows.check_run pulseq.Store.Rows.check_step holds_lease steps_of
    pulseq.Store.Writes.order_by_idx pulseq.Store.Table.select pulseq.Store.Writes.append_run_event
    request_cancel observe_run_cancel pulseq.Store.Claim.skip_pending_steps_tx
    pulseq.Store.Claim.pending_names pulseq.Store.Claim.skip_each pulseq.Store.Claim.skip_step
    with_tx pulseq.Store.Tx.attempts_from pulseq.Store.Rows.null_if_empty
keyed_asked = record { unique = (refl, tt); named = (λ e. ground (arith, eq_iff "s1" ""), tt) }

idle_asked : NoneRunning asked_tables "r1"
unfolding claim_run start_step record_step_outcome finish_run pulseq.Store.Writes.read_run_tx
    pulseq.Store.Writes.read_step_tx pulseq.Store.Writes.read_steps_tx
    pulseq.Store.Finish.scan_flags find_run find_step find pulseq.Store.Table.update
    pulseq.Model.Parse.parse_run_state pulseq.Model.Parse.parse_step_state
    pulseq.Model.RunFsm.next_run_state pulseq.Model.StepFsm.next_step_state
    pulseq.Store.Writes.finish_transition pulseq.Store.Writes.exec_run pulseq.Store.Writes.exec_step
    pulseq.Store.Rows.check_run pulseq.Store.Rows.check_step holds_lease steps_of
    pulseq.Store.Writes.order_by_idx pulseq.Store.Table.select pulseq.Store.Writes.append_run_event
    request_cancel observe_run_cancel pulseq.Store.Claim.skip_pending_steps_tx
    pulseq.Store.Claim.pending_names pulseq.Store.Claim.skip_each pulseq.Store.Claim.skip_step
    with_tx pulseq.Store.Tx.attempts_from pulseq.Store.Rows.null_if_empty
idle_asked n e = ground arith

pub sound : Sound no_tables
unfolding find_step find_run find told
sound = record {
  keyed = record { unique = tt; named = tt };
  ended = λ id n r s h over there. ground arith;
  quiet = λ id n h there. ground arith;
  owned = λ id n s h. absurd (ground arith);
  run_unheard = λ id start h. refl;
  step_unheard = λ id n start h. refl;
  run_told = λ id r h. absurd (ground arith);
  step_told = λ id n s h. absurd (ground arith);
}

pub step_named : pending_step.name ≢ ""
step_named e = ground (arith, eq_iff "s1" "")

abbrev history : Calls no_tables finished_tables
history =
    then_call
      (then_call
        (then_call
          (then_call (then_call none_yet (created "r1" 0 nightly queued_run creates))
            (claimed 10 "r1" "me" (pos 1000) run_running claims))
          (started 11 "r1" "s1" starts))
        (ended 20 "r1" "s1" succeeded ends))
      (finished 30 "r1" "me" well run_succeeded finishes)

heedful : AllHeed history
heedful = (((((tt, (step_named, tt)), tt), tt), (λ e. cc)), tt)

Calls-Sound_example : Sound finished_tables
Calls-Sound_example = Calls-Sound history heedful sound

calls_unbroken_example : broken_chains finished_tables ≡ []
calls_unbroken_example = calls_unbroken history heedful sound refl

claim_run-ClaimOutcome_example :
    (r : Run) × (find_run tables "r1" ≡ some r)
    × ClaimOutcome 10 tables "r1" r run_running claimed_tables
claim_run-ClaimOutcome_example =
    claim_run-ClaimOutcome 10 "r1" "me" (pos 1000) tables claimed_tables run_running keyed idle
      claims

start_step-StepMoved_example :
    (run_state claimed_tables "r1" ≡ some run_running)
    × StepMoved claimed_tables started_tables "r1" "s1" step_pending ev_step_started no_guards
        step_running
start_step-StepMoved_example =
    start_step-StepMoved 11 "r1" "s1" claimed_tables started_tables step_named starts

record_step_outcome-StepMoved_example :
    (s : Step) × (to : StepState) × (find_step started_tables "r1" "s1" ≡ some s)
    × StepMoved started_tables ended_tables "r1" "s1" s.state succeeded.event
        (record no_guards {
          reason_code = succeeded.reason_code;
          attempts_left = ltb s.attempt s.max_attempts;
        })
        to
record_step_outcome-StepMoved_example =
    record_step_outcome-StepMoved 20 "r1" "s1" succeeded started_tables ended_tables step_named
      (λ e. cc) ends

finish_run-RunMoved_example :
    (r : Run) × (find_run ended_tables "r1" ≡ some r)
    × Leased 30 "me" r
    × ((name : String) (s : Step)
        → find_step ended_tables "r1" name ≡ some s
        → is_terminal_step s.state ≡ true)
    × RunMoved ended_tables finished_tables "r1" run_running ev_all_steps_done
        (finished_guards 30 well r (some_step has_failed (steps_of ended_tables "r1")))
        run_succeeded
finish_run-RunMoved_example =
    finish_run-RunMoved 30 "r1" "me" well ended_tables finished_tables run_succeeded finishes

observe_run_cancel-CancelledOver_example :
    (r : Run) × (find_run asked_tables "r1" ≡ some r)
    × (r.cancel_requested_at ≢ none)
    × Leased 14 "me" r
    × CancelledOver asked_tables "r1" run_running cancelled_tables
observe_run_cancel-CancelledOver_example =
    observe_run_cancel-CancelledOver 14 "r1" "me" "bob" "RUN_CANCELLED_MANUAL" asked_tables
      cancelled_tables keyed_asked idle_asked observes

next_runnable_step_lem_example : Answers 5 "r1" tables (next_runnable_step 5 "r1" tables)
next_runnable_step_lem_example = next_runnable_step_lem 5 "r1" tables

-- The first try meets a snapshot conflict, the second goes through.
abbrev busy_once : ℕ → Attempt
busy_once n = record { fate = if leb n 1 then breaks 0 true else goes; context_done = false }

create_run_with_steps-Sound_example : Sound tables × (run_state tables "r1" ≡ some run_queued)
create_run_with_steps-Sound_example =
    create_run_with_steps-Sound "r1" 0 nightly no_tables tables queued_run (step_named, tt) creates
      sound
