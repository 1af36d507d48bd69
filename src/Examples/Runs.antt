-- ===== src/Examples/Runs.antt =====
-- Tables with one run of one step, and what the calls of internal/store make of them.
use pulseq.Prelude.{◌≡◌, refl, false, [], ◌∷◌, none, some}
use pulseq.Prelude.Int.{pos}
use pulseq.Model.State.{run_queued, run_running, run_succeeded, step_pending, ev_step_succeeded}
use pulseq.Store.Table.{find}
use pulseq.Store.Create.{NewRun, create_run_with_steps}
use pulseq.Store.Rows.{RunEvent, Run, Step, Db, find_run, find_step, WellKeyed}
use pulseq.Store.Tx.{after, done, Attempt, goes, breaks, with_tx}
use pulseq.Store.Writes.{steps_of}
use pulseq.Store.Claim.{claim_run}
use pulseq.Store.StepMoves.{start_step, record_step_outcome, StepOutcome}
use pulseq.Store.Finish.{
  finish_run, FinishReason, holds_lease, request_cancel, CancelRequest, observe_run_cancel,
}

abbrev pub queued_run : Run
queued_run = record {
  id = "r1";
  job_name = "nightly";
  job_version_id = "v1";
  trigger_id = none;
  origin = "manual";
  run_key = none;
  state = run_queued;
  available_at = 0;
  defer_reason = none;
  scheduled_for = none;
  params_json = "{}";
  concurrency_key = none;
  max_attempts = 1;
  replay_of = none;
  lease_owner = none;
  lease_epoch = 0;
  lease_expires_at = none;
  cancel_requested_at = none;
  cancel_requested_by = none;
  cancel_reason = none;
  reason_code = none;
  reason_data = none;
  created_at = 0;
  started_at = none;
  finished_at = none;
  duration_ms = none;
  updated_at = 0;
}

abbrev pub pending_step : Step
pending_step = record {
  run_id = "r1";
  name = "s1";
  idx = 0;
  state = step_pending;
  attempt = 0;
  max_attempts = 1;
  next_attempt_at = none;
  started_at = none;
  finished_at = none;
  duration_ms = none;
  exit_code = none;
  signal = none;
  reason_code = none;
  reason_data = none;
  log_path = none;
  log_bytes = 0;
  log_truncated = false;
  error_tail = none;
}

abbrev pub nightly : NewRun
nightly = record {
  job_name = "nightly";
  job_version_id = "v1";
  trigger_id = "";
  origin = "manual";
  run_key = "";
  concurrency_key = "";
  scheduled_for = none;
  available_at = none;
  defer_reason = "";
  params_json = "";
  max_attempts = pos 0;
  replay_of = "";
  actor = "";
  steps = record { name = "s1"; depends_on = []; max_attempts = pos 0 } ∷ [];
}

abbrev pub queued_row : RunEvent
queued_row = record {
  run_id = "r1";
  step_name = none;
  at = 0;
  kind = "run.queued";
  from_state = none;
  to_state = some "queued";
  reason_code = none;
  actor = "system";
  detail_json = "{}";
}

abbrev pub no_tables : Db
no_tables = record { ticks = []; triggers = []; runs = []; steps = []; deps = []; events = [] }

abbrev pub tables : Db
tables = record {
  ticks = [];
  triggers = [];
  runs = queued_run ∷ [];
  steps = pending_step ∷ [];
  deps = [];
  events = queued_row ∷ [];
}

abbrev pub succeeded : StepOutcome
succeeded = record {
  event = ev_step_succeeded;
  reason_code = "STEP_SUCCEEDED";
  exit_code = some (pos 0);
  signal = "";
  finished_at = some 20;
  log_meta = record { rel_path = "r1/s1.log"; bytes = 12; truncated = false; error_tail = "" };
  detail_json = "";
  retry = none;
}

abbrev pub well : FinishReason
well = record { code = "RUN_SUCCEEDED"; detail = "" }

pub creates : create_run_with_steps "r1" 0 nightly no_tables ≡ done queued_run tables
unfolding create_run_with_steps find find_run pulseq.Store.Rows.check_run
    pulseq.Store.Create.insert_step find_step pulseq.Store.Create.insert_edges
    pulseq.Store.Writes.event_row pulseq.Model.State.name_of_run
creates = refl

abbrev pub claimed_tables : Db
claimed_tables = after tables (claim_run 10 "r1" "me" (pos 1000) tables)

pub claims : claim_run 10 "r1" "me" (pos 1000) tables ≡ done run_running claimed_tables
unfolding claim_run start_step record_step_outcome finish_run pulseq.Store.Writes.read_run_tx
    pulseq.Store.Writes.read_step_tx pulseq.Store.Writes.read_steps_tx
    pulseq.Store.Finish.scan_flags find_run find_step find pulseq.Store.Table.update
    pulseq.Model.Parse.parse_run_state pulseq.Model.Parse.parse_step_state
    pulseq.Model.RunFsm.next_run_state pulseq.Model.StepFsm.next_step_state
    pulseq.Store.Writes.finish_transition pulseq.Store.Writes.exec_run pulseq.Store.Writes.exec_step
    pulseq.Store.Rows.check_run pulseq.Store.Rows.check_step holds_lease steps_of
    pulseq.Store.Writes.order_by_idx pulseq.Store.Table.select pulseq.Store.Writes.append_run_event
    request_cancel observe_run_cancel pulseq.Store.Claim.skip_pending_steps_tx
    pulseq.Store.Claim.pending_names pulseq.Store.Claim.skip_each pulseq.Store.Claim.skip_step
    with_tx pulseq.Store.Tx.attempts_from pulseq.Store.Rows.null_if_empty
claims = refl

abbrev pub started_tables : Db
started_tables = after claimed_tables (start_step 11 "r1" "s1" claimed_tables)

pub starts : start_step 11 "r1" "s1" claimed_tables ≡ done tt started_tables
unfolding claim_run start_step record_step_outcome finish_run pulseq.Store.Writes.read_run_tx
    pulseq.Store.Writes.read_step_tx pulseq.Store.Writes.read_steps_tx
    pulseq.Store.Finish.scan_flags find_run find_step find pulseq.Store.Table.update
    pulseq.Model.Parse.parse_run_state pulseq.Model.Parse.parse_step_state
    pulseq.Model.RunFsm.next_run_state pulseq.Model.StepFsm.next_step_state
    pulseq.Store.Writes.finish_transition pulseq.Store.Writes.exec_run pulseq.Store.Writes.exec_step
    pulseq.Store.Rows.check_run pulseq.Store.Rows.check_step holds_lease steps_of
    pulseq.Store.Writes.order_by_idx pulseq.Store.Table.select pulseq.Store.Writes.append_run_event
    request_cancel observe_run_cancel pulseq.Store.Claim.skip_pending_steps_tx
    pulseq.Store.Claim.pending_names pulseq.Store.Claim.skip_each pulseq.Store.Claim.skip_step
    with_tx pulseq.Store.Tx.attempts_from pulseq.Store.Rows.null_if_empty
starts = refl

abbrev pub ended_tables : Db
ended_tables = after started_tables (record_step_outcome 20 "r1" "s1" succeeded started_tables)

pub ends : record_step_outcome 20 "r1" "s1" succeeded started_tables ≡ done tt ended_tables
unfolding claim_run start_step record_step_outcome finish_run pulseq.Store.Writes.read_run_tx
    pulseq.Store.Writes.read_step_tx pulseq.Store.Writes.read_steps_tx
    pulseq.Store.Finish.scan_flags find_run find_step find pulseq.Store.Table.update
    pulseq.Model.Parse.parse_run_state pulseq.Model.Parse.parse_step_state
    pulseq.Model.RunFsm.next_run_state pulseq.Model.StepFsm.next_step_state
    pulseq.Store.Writes.finish_transition pulseq.Store.Writes.exec_run pulseq.Store.Writes.exec_step
    pulseq.Store.Rows.check_run pulseq.Store.Rows.check_step holds_lease steps_of
    pulseq.Store.Writes.order_by_idx pulseq.Store.Table.select pulseq.Store.Writes.append_run_event
    request_cancel observe_run_cancel pulseq.Store.Claim.skip_pending_steps_tx
    pulseq.Store.Claim.pending_names pulseq.Store.Claim.skip_each pulseq.Store.Claim.skip_step
    with_tx pulseq.Store.Tx.attempts_from pulseq.Store.Rows.null_if_empty
ends = refl

abbrev pub finished_tables : Db
finished_tables = after ended_tables (finish_run 30 "r1" "me" well ended_tables)

pub finishes : finish_run 30 "r1" "me" well ended_tables ≡ done run_succeeded finished_tables
unfolding claim_run start_step record_step_outcome finish_run pulseq.Store.Writes.read_run_tx
    pulseq.Store.Writes.read_step_tx pulseq.Store.Writes.read_steps_tx
    pulseq.Store.Finish.scan_flags find_run find_step find pulseq.Store.Table.update
    pulseq.Model.Parse.parse_run_state pulseq.Model.Parse.parse_step_state
    pulseq.Model.RunFsm.next_run_state pulseq.Model.StepFsm.next_step_state
    pulseq.Store.Writes.finish_transition pulseq.Store.Writes.exec_run pulseq.Store.Writes.exec_step
    pulseq.Store.Rows.check_run pulseq.Store.Rows.check_step holds_lease steps_of
    pulseq.Store.Writes.order_by_idx pulseq.Store.Table.select pulseq.Store.Writes.append_run_event
    request_cancel observe_run_cancel pulseq.Store.Claim.skip_pending_steps_tx
    pulseq.Store.Claim.pending_names pulseq.Store.Claim.skip_each pulseq.Store.Claim.skip_step
    with_tx pulseq.Store.Tx.attempts_from pulseq.Store.Rows.null_if_empty
finishes = refl

abbrev pub asked_tables : Db
asked_tables = after claimed_tables (request_cancel 12 "r1" "bob" "too long" claimed_tables)

abbrev pub first_request : CancelRequest
first_request = record { requested_at = some 12; requested_by = "bob"; reason = "too long" }

pub asks : request_cancel 12 "r1" "bob" "too long" claimed_tables ≡ done first_request asked_tables
unfolding claim_run start_step record_step_outcome finish_run pulseq.Store.Writes.read_run_tx
    pulseq.Store.Writes.read_step_tx pulseq.Store.Writes.read_steps_tx
    pulseq.Store.Finish.scan_flags find_run find_step find pulseq.Store.Table.update
    pulseq.Model.Parse.parse_run_state pulseq.Model.Parse.parse_step_state
    pulseq.Model.RunFsm.next_run_state pulseq.Model.StepFsm.next_step_state
    pulseq.Store.Writes.finish_transition pulseq.Store.Writes.exec_run pulseq.Store.Writes.exec_step
    pulseq.Store.Rows.check_run pulseq.Store.Rows.check_step holds_lease steps_of
    pulseq.Store.Writes.order_by_idx pulseq.Store.Table.select pulseq.Store.Writes.append_run_event
    request_cancel observe_run_cancel pulseq.Store.Claim.skip_pending_steps_tx
    pulseq.Store.Claim.pending_names pulseq.Store.Claim.skip_each pulseq.Store.Claim.skip_step
    with_tx pulseq.Store.Tx.attempts_from pulseq.Store.Rows.null_if_empty
asks = refl

pub asks_again :
    request_cancel 13 "r1" "eve" "never mind" asked_tables
    ≡ done first_request
        (after asked_tables (request_cancel 13 "r1" "eve" "never mind" asked_tables))
unfolding claim_run start_step record_step_outcome finish_run pulseq.Store.Writes.read_run_tx
    pulseq.Store.Writes.read_step_tx pulseq.Store.Writes.read_steps_tx
    pulseq.Store.Finish.scan_flags find_run find_step find pulseq.Store.Table.update
    pulseq.Model.Parse.parse_run_state pulseq.Model.Parse.parse_step_state
    pulseq.Model.RunFsm.next_run_state pulseq.Model.StepFsm.next_step_state
    pulseq.Store.Writes.finish_transition pulseq.Store.Writes.exec_run pulseq.Store.Writes.exec_step
    pulseq.Store.Rows.check_run pulseq.Store.Rows.check_step holds_lease steps_of
    pulseq.Store.Writes.order_by_idx pulseq.Store.Table.select pulseq.Store.Writes.append_run_event
    request_cancel observe_run_cancel pulseq.Store.Claim.skip_pending_steps_tx
    pulseq.Store.Claim.pending_names pulseq.Store.Claim.skip_each pulseq.Store.Claim.skip_step
    with_tx pulseq.Store.Tx.attempts_from pulseq.Store.Rows.null_if_empty
asks_again = refl

abbrev pub cancelled_tables : Db
cancelled_tables =
    after asked_tables (observe_run_cancel 14 "r1" "me" "bob" "RUN_CANCELLED_MANUAL" asked_tables)

pub observes :
    observe_run_cancel 14 "r1" "me" "bob" "RUN_CANCELLED_MANUAL" asked_tables
    ≡ done tt cancelled_tables
unfolding claim_run start_step record_step_outcome finish_run pulseq.Store.Writes.read_run_tx
    pulseq.Store.Writes.read_step_tx pulseq.Store.Writes.read_steps_tx
    pulseq.Store.Finish.scan_flags find_run find_step find pulseq.Store.Table.update
    pulseq.Model.Parse.parse_run_state pulseq.Model.Parse.parse_step_state
    pulseq.Model.RunFsm.next_run_state pulseq.Model.StepFsm.next_step_state
    pulseq.Store.Writes.finish_transition pulseq.Store.Writes.exec_run pulseq.Store.Writes.exec_step
    pulseq.Store.Rows.check_run pulseq.Store.Rows.check_step holds_lease steps_of
    pulseq.Store.Writes.order_by_idx pulseq.Store.Table.select pulseq.Store.Writes.append_run_event
    request_cancel observe_run_cancel pulseq.Store.Claim.skip_pending_steps_tx
    pulseq.Store.Claim.pending_names pulseq.Store.Claim.skip_each pulseq.Store.Claim.skip_step
    with_tx pulseq.Store.Tx.attempts_from pulseq.Store.Rows.null_if_empty
observes = refl
