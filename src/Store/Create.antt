-- ===== src/Store/Create.antt =====
-- internal/store/runs.go: `CreateRunWithSteps`, and internal/store/materialize.go: `insertSteps`.
-- The id is minted before the transaction and is an argument, as is the clock's reading.
pub mod Insert
pub mod Kept
pub mod Announced
pub mod Queued
use pulseq.Prelude.{
  ℕ, zero, suc, ◌+◌, Bool, true, false, not, ◌&&◌, ◌||◌, String, List, [], ◌∷◌, ◌++◌, Option, none,
  some, if◌then◌else◌, str_eq, leb,
}
use pulseq.Prelude.Int.{ℤ, pos, negsuc}
use pulseq.Model.State.{RunState, run_queued, run_running, step_pending, name_of_run}
use pulseq.Store.Table.{find}
use pulseq.Store.Rows.{
  Run, Step, StepDep, Db, is_null, or_empty, null_if_empty, check_run, has_id, has_key, find_run,
  find_step,
}
use pulseq.Store.Tx.{Tx, ◌>>◌, pure, fail, done, failed, constraint, key_held}
use pulseq.Store.Writes.{append_run_event}

pub record NewStep : Type 0 where
  pub name : String
  pub depends_on : List String
  pub max_attempts : ℤ

pub record NewRun : Type 0 where
  pub job_name : String
  pub job_version_id : String
  pub trigger_id : String
  pub origin : String
  pub run_key : String
  pub concurrency_key : String
  pub scheduled_for : Option ℕ
  pub available_at : Option ℕ
  pub defer_reason : String
  pub params_json : String
  pub max_attempts : ℤ
  pub replay_of : String
  pub actor : String
  pub steps : List NewStep

abbrev is_active : RunState → Bool
is_active run_queued = true
is_active run_running = true
is_active _ = false

-- A row that holds a key in the partial index `ux_runs_conc_key`.
abbrev pub holds_key : Option String → Run → Bool
holds_key none r = false
holds_key (some key) r =
    not (is_null r.concurrency_key) && str_eq (or_empty r.concurrency_key) key && is_active r.state

abbrev known_origin : String → Bool
known_origin o =
    str_eq o "schedule"
    || str_eq o "sensor"
    || str_eq o "manual"
    || str_eq o "retry"
    || str_eq o "replay"
    || str_eq o "backfill"

-- `INSERT INTO runs`: the index of the keys lets one active run in, and answers zero rows for the
-- next; the primary key and the CHECK constraints fail the statement.
unfoldable pub insert_run : Run → Tx (Unit {0})
insert_run r db =
    if not (is_null (find (holds_key r.concurrency_key) db.runs))
    then failed key_held
    else if is_null (find_run db r.id)
        && (check_run r && (known_origin r.origin && leb 1 r.max_attempts))
    then done tt (record db { runs = db.runs ++ r ∷ [] })
    else failed constraint

-- `INSERT INTO steps`: the foreign key, the primary key and the CHECK on `max_attempts`.
unfoldable pub insert_step : Step → Tx (Unit {0})
insert_step s db =
    if not (is_null (find_run db s.run_id))
      && (is_null (find_step db s.run_id s.name) && leb 1 s.max_attempts)
    then done tt (record db { steps = db.steps ++ s ∷ [] })
    else failed constraint

abbrev same_edge : StepDep → StepDep → Bool
same_edge d e =
    str_eq e.run_id d.run_id && str_eq e.step_name d.step_name && str_eq e.depends_on d.depends_on

-- `INSERT INTO step_deps`.
unfoldable pub insert_edge : StepDep → Tx (Unit {0})
insert_edge d db =
    if not (is_null (find_run db d.run_id)) && is_null (find (same_edge d) db.deps)
    then done tt (record db { deps = db.deps ++ d ∷ [] })
    else failed constraint

unfoldable pub insert_edges : String → String → List String → Tx (Unit {0})
insert_edges run_id name [] = pure tt
insert_edges run_id name (upstream ∷ rest) =
    insert_edge (record { run_id = run_id; step_name = name; depends_on = upstream })
    >> insert_edges run_id name rest

-- The row of a new step. A negative `max_attempts` is as little a row as zero is.
abbrev pub new_step_row : String → ℕ → String → ℕ → Step
new_step_row run_id idx name max_attempts = record {
  run_id = run_id;
  name = name;
  idx = idx;
  state = step_pending;
  attempt = 0;
  max_attempts = max_attempts;
  next_attempt_at = none;
  started_at = none;
  finished_at = none;
  duration_ms = none;
  exit_code = none;
  signal = none;
  reason_code = none;
  reason_data = none;
  log_path = none;
  log_bytes = 0;
  log_truncated = false;
  error_tail = none;
}

-- Zero means one; what the CHECK refuses is 0.
abbrev pub attempts_or_one : ℤ → ℕ
attempts_or_one (pos zero) = 1
attempts_or_one (pos (suc n)) = suc n
attempts_or_one (negsuc n) = 0

-- The loop over the steps from an index on.
unfoldable pub insert_steps : String → ℕ → List NewStep → Tx (Unit {0})
insert_steps run_id i [] = pure tt
insert_steps run_id i (s ∷ rest) =
    insert_step (new_step_row run_id i s.name (attempts_or_one s.max_attempts))
    >> (insert_edges run_id s.name s.depends_on >> insert_steps run_id (suc i) rest)

abbrev or_text : String → String → String
or_text d value = if str_eq value "" then d else value

abbrev or_now : ℕ → Option ℕ → ℕ
or_now now none = now
or_now now (some at) = at

unfoldable pub new_run_row : String → ℕ → NewRun → Run
unfolding null_if_empty
new_run_row run_id now n = record {
  id = run_id;
  job_name = n.job_name;
  job_version_id = n.job_version_id;
  trigger_id = null_if_empty n.trigger_id;
  origin = n.origin;
  run_key = null_if_empty n.run_key;
  state = run_queued;
  available_at = or_now now n.available_at;
  defer_reason = null_if_empty n.defer_reason;
  scheduled_for = n.scheduled_for;
  params_json = or_text "{}" n.params_json;
  concurrency_key = null_if_empty n.concurrency_key;
  max_attempts = attempts_or_one n.max_attempts;
  replay_of = null_if_empty n.replay_of;
  lease_owner = none;
  lease_epoch = 0;
  lease_expires_at = none;
  cancel_requested_at = none;
  cancel_requested_by = none;
  cancel_reason = none;
  reason_code = none;
  reason_data = none;
  created_at = now;
  started_at = none;
  finished_at = none;
  duration_ms = none;
  updated_at = now;
}

-- The event of a run that enters the queue.
unfoldable pub queued_event : String → ℕ → String → String → Tx (Unit {0})
unfolding append_run_event
queued_event run_id now reason actor = append_run_event (record {
  run_id = run_id;
  step_name = "";
  at = now;
  kind = "run.queued";
  from_state = "";
  to_state = name_of_run run_queued;
  reason_code = reason;
  actor = actor;
  detail_json = "";
})

-- `CreateRunWithSteps`.
unfoldable pub create_run_with_steps : String → ℕ → NewRun → Tx Run
unfolding insert_run insert_steps queued_event new_run_row
create_run_with_steps run_id now n =
    insert_run (new_run_row run_id now n)
    >> (insert_steps run_id 0 n.steps
        >> (queued_event run_id now n.defer_reason n.actor >> pure (new_run_row run_id now n)))
