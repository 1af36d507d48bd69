-- ===== src/Store/StepMoves.antt =====
-- internal/store/transitions.go: `StartStep` and `RecordStepOutcome`.
use pulseq.Prelude.{
  ℕ, ◌+◌, Bool, true, false, String, Option, none, some, if◌then◌else◌, str_eq, ltb,
}
use pulseq.Prelude.Int.{ℤ, sub_ℕ}
use pulseq.Model.State.{
  RunState, run_running, StepState, step_pending, step_running, Event, ev_step_started,
  name_of_step,
}
use pulseq.Model.Guards.{Guards, no_guards}
use pulseq.Model.Parse.{parse_step_state}
use pulseq.Model.StepFsm.{next_step_state}
use pulseq.Store.Rows.{Step, null_if_empty, is_pending}
use pulseq.Store.Tx.{Tx, ◌>>=◌, ◌>>◌, fail, require, lift, refused, not_running, step_not_pending}
use pulseq.Store.Writes.{read_run_tx, read_step_tx, exec_step, finish_transition, emit_kind}

abbrev is_running_run : RunState → Bool
is_running_run run_running = true
is_running_run _ = false

abbrev pub started_row : ℕ → Step → Step
started_row now s = record s {
  state = step_running;
  attempt = s.attempt + 1;
  started_at = some now;
  finished_at = none;
}

-- `StartStep`.
unfoldable pub start_step : ℕ → String → String → Tx (Unit {0})
start_step now run_id name = do
  run ← read_run_tx run_id
  require (is_running_run run.state) (not_running run.state)
  step ← read_step_tx run_id name
  require (is_pending step.state) step_not_pending
  cur ← lift (parse_step_state (name_of_step step.state))
  let o = next_step_state cur ev_step_started no_guards
  elim o.error [
    | some e ↦ fail (refused e)
    | none ↦ finish_transition (exec_step run_id name is_pending (started_row now)) (record {
      run_id = run_id;
      step_name = name;
      at = now;
      kind = emit_kind o.effects;
      from_state = name_of_step cur;
      to_state = name_of_step o.state;
      reason_code = "";
      actor = "";
      detail_json = "";
    })
  ]

pub record LogMeta : Type 0 where
  pub rel_path : String
  pub bytes : ℕ
  pub truncated : Bool
  pub error_tail : String

pub record RetryPlan : Type 0 where
  pub next_attempt_at : Option ℕ
  pub reason_code : String
  pub detail_json : String

pub record StepOutcome : Type 0 where
  pub event : Event
  pub reason_code : String
  pub exit_code : Option ℤ
  pub signal : String
  pub finished_at : Option ℕ
  pub log_meta : LogMeta
  pub detail_json : String
  pub retry : Option RetryPlan

abbrev pub or_else {ℓ} : {A : Type ℓ} → Option A → A → A
or_else none d = d
or_else (some a) d = a

abbrev pub or_text : String → String → String
or_text value d = if str_eq value "" then d else value

-- The plan's words on the pending path, and the outcome's own elsewhere.
abbrev pub row_reason : StepOutcome → StepState → String
row_reason out step_pending = plan_reason out.retry
  where
    plan_reason : Option RetryPlan → String
    plan_reason none = out.reason_code
    plan_reason (some plan) = or_text plan.reason_code out.reason_code
row_reason out _ = out.reason_code

abbrev pub row_detail : StepOutcome → StepState → String
row_detail out step_pending = plan_detail out.retry
  where
    plan_detail : Option RetryPlan → String
    plan_detail none = or_text out.detail_json "{}"
    plan_detail (some plan) = or_text plan.detail_json (or_text out.detail_json "{}")
row_detail out _ = or_text out.detail_json "{}"

abbrev pub next_attempt : StepOutcome → ℕ → StepState → Option ℕ
next_attempt out finished_at step_pending = some (planned out.retry)
  where
    planned : Option RetryPlan → ℕ
    planned none = finished_at
    planned (some plan) = or_else plan.next_attempt_at finished_at
next_attempt out finished_at _ = none

abbrev elapsed : ℕ → Option ℕ → Option ℤ
elapsed finished_at none = none
elapsed finished_at (some started) = some (sub_ℕ finished_at started)

-- The UPDATE of `RecordStepOutcome`: a step that goes back to pending keeps its old end.
abbrev pub outcome_row : StepOutcome → ℕ → StepState → Step → Step
outcome_row out finished_at to s = record s {
  state = to;
  reason_code = null_if_empty (row_reason out to);
  reason_data = some (row_detail out to);
  exit_code = out.exit_code;
  signal = null_if_empty out.signal;
  finished_at = if is_pending to then s.finished_at else some finished_at;
  duration_ms = if is_pending to then none else elapsed finished_at s.started_at;
  log_path = null_if_empty out.log_meta.rel_path;
  log_bytes = out.log_meta.bytes;
  log_truncated = out.log_meta.truncated;
  error_tail = null_if_empty out.log_meta.error_tail;
  next_attempt_at = next_attempt out finished_at to;
}

abbrev pub same_step_state : StepState → StepState → Bool
same_step_state s t = str_eq (name_of_step s) (name_of_step t)

abbrev pub outcome_guards : Step → StepOutcome → Guards
outcome_guards step out = record no_guards {
  reason_code = out.reason_code;
  attempts_left = ltb step.attempt step.max_attempts;
}

-- `RecordStepOutcome`.
unfoldable pub record_step_outcome : ℕ → String → String → StepOutcome → Tx (Unit {0})
record_step_outcome now run_id name out = do
  let finished_at = or_else out.finished_at now
  step ← read_step_tx run_id name
  cur ← lift (parse_step_state (name_of_step step.state))
  let o = next_step_state cur out.event (outcome_guards step out)
  elim o.error [
    | some e ↦ fail (refused e)
    | none ↦
        finish_transition
          (exec_step run_id name (same_step_state cur) (outcome_row out finished_at o.state))
          (record {
            run_id = run_id;
            step_name = name;
            at = finished_at;
            kind = emit_kind o.effects;
            from_state = name_of_step cur;
            to_state = name_of_step o.state;
            reason_code = row_reason out o.state;
            actor = "";
            detail_json = row_detail out o.state;
          })
  ]
