-- ===== src/Store/Materialize.antt =====
-- internal/store/materialize.go: `MaterializeManualTrigger`. The ids are minted before the transaction
-- and are arguments. The tables `jobs` and `job_versions` are not modelled: what the transaction
-- reads from them, with the decoded steps of the frozen version, is an argument.
pub mod Queued
use pulseq.Prelude.{
  ℕ, suc, ◌+◌, Bool, true, false, ◌&&◌, String, List, [], ◌∷◌, ◌++◌, map, Option, none, some,
  if◌then◌else◌, str_eq,
}
use pulseq.Prelude.Int.{ℤ, pos, negsuc}
use pulseq.Model.State.{run_queued}
use pulseq.Store.Table.{find}
use pulseq.Store.Rows.{Run, Tick, Trigger, Db, is_null, null_if_empty}
use pulseq.Store.Tx.{Tx, ◌>>◌, pure, fail, done, failed, Failure, constraint, no_row}
use pulseq.Store.Create.{NewStep, insert_run, insert_steps, queued_event}

pub record ManualTriggerInput : Type 0 where
  pub job_name : String
  pub actor : String
  pub params_json : String

pub record ManualTriggerResult : Type 0 where
  pub tick_id : String
  pub trigger_id : String
  pub run : Run

-- internal/spec/spec.go: the fields of `Step` that are frozen with a run.
pub record SpecStep : Type 0 where
  pub name : String
  pub needs : List String
  pub retry_max : Option ℤ

-- The job version that is current: its id, and its steps unless the decoding fails.
abbrev pub CurrentVersion : Type 0
CurrentVersion = Option (String × Option (List SpecStep))

-- `INSERT INTO ticks` and `INSERT INTO triggers`.
unfoldable pub insert_tick : Tick → Tx (Unit {0})
insert_tick t db =
    if is_null (find (λ x. str_eq x.id t.id) db.ticks)
    then done tt (record db { ticks = db.ticks ++ t ∷ [] })
    else failed constraint

unfoldable pub insert_trigger : Trigger → Tx (Unit {0})
insert_trigger t db =
    if is_null (find (λ x. str_eq x.id t.id) db.triggers)
    then done tt (record db { triggers = db.triggers ++ t ∷ [] })
    else failed constraint

-- One attempt, and as many more as the frozen retry block allows.
abbrev pub frozen_attempts : Option ℤ → ℤ
frozen_attempts none = pos 1
frozen_attempts (some (pos n)) = pos (suc n)
frozen_attempts (some (negsuc n)) = pos 1

-- The rows of `insertSteps`, which are those of `CreateRunWithSteps` at these attempts.
abbrev pub frozen_step : SpecStep → NewStep
frozen_step s = record {
  name = s.name;
  depends_on = s.needs;
  max_attempts = frozen_attempts s.retry_max;
}

unfoldable pub insert_frozen_steps : String → List SpecStep → Tx (Unit {0})
unfolding insert_steps
insert_frozen_steps run_id steps = insert_steps run_id 0 (map frozen_step steps)

abbrev pub or_text : String → String → String
or_text d value = if str_eq value "" then d else value

unfoldable pub manual_run_row : String → ℕ → String → String → String → String → Run
unfolding null_if_empty
manual_run_row run_id now job_name version_id trigger_id params = record {
  id = run_id;
  job_name = job_name;
  job_version_id = version_id;
  trigger_id = null_if_empty trigger_id;
  origin = "manual";
  run_key = none;
  state = run_queued;
  available_at = now;
  defer_reason = none;
  scheduled_for = none;
  params_json = params;
  concurrency_key = none;
  max_attempts = 1;
  replay_of = none;
  lease_owner = none;
  lease_epoch = 0;
  lease_expires_at = none;
  cancel_requested_at = none;
  cancel_requested_by = none;
  cancel_reason = none;
  reason_code = none;
  reason_data = none;
  created_at = now;
  started_at = none;
  finished_at = none;
  duration_ms = none;
  updated_at = now;
}

-- What the transaction writes once it has a version with its steps.
unfoldable pub materialize_version :
    String
    → String
    → String
    → ℕ
    → ManualTriggerInput
    → String
    → List SpecStep
    → Tx ManualTriggerResult
unfolding insert_tick insert_trigger insert_run insert_frozen_steps queued_event manual_run_row
materialize_version tick_id trigger_id run_id now i version_id steps =
    let params = or_text "{}" i.params_json in
    let run = manual_run_row run_id now i.job_name version_id trigger_id params in
    insert_tick (record {
      id = tick_id;
      source_kind = "manual";
      source_name = i.job_name;
      started_at = now;
      trigger_count = 1;
    })
    >> (insert_trigger (record {
      id = trigger_id;
      tick_id = tick_id;
      job_name = i.job_name;
      params_json = params;
      created_at = now;
      outcome = "accepted";
    })
        >> (insert_run run
            >> (insert_frozen_steps run_id steps
                >> (queued_event run_id now "" (or_text "system" i.actor)
                    >> pure (record { tick_id = tick_id; trigger_id = trigger_id; run = run })))))

-- `MaterializeManualTrigger`, with the error of the decoder.
unfoldable pub materialize_manual_trigger :
    Failure
    → CurrentVersion
    → String
    → String
    → String
    → ℕ
    → ManualTriggerInput
    → Tx ManualTriggerResult
unfolding materialize_version
materialize_manual_trigger bad_spec none tick_id trigger_id run_id now i = fail no_row
materialize_manual_trigger bad_spec (some (version, none)) tick_id trigger_id run_id now i =
    fail bad_spec
materialize_manual_trigger bad_spec (some (version, some steps)) tick_id trigger_id run_id now i =
    materialize_version tick_id trigger_id run_id now i version steps
