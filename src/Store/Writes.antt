-- ===== src/Store/Writes.antt =====
-- The reads and writes that the transition layer of internal/store is made of: `readRunTx`,
-- `readStepTx`, `readStepsTx`, the UPDATE statements, `appendRunEvent`, `finishTransition` and
-- `emitKind`.
use pulseq.Prelude.{
  ℕ, Bool, ◌&&◌, String, List, [], ◌∷◌, ◌++◌, none, some, str_eq, if◌then◌else◌, leb,
}
use pulseq.Model.State.{RunState, StepState}
use pulseq.Model.Guards.{Effect, is_emit}
use pulseq.Store.Table.{find, update, select}
use pulseq.Store.Rows.{
  Run, Step, RunEvent, Db, null_if_empty, check_run, check_step, has_id, has_key, find_run,
  find_step,
}
use pulseq.Store.Tx.{Tx, ◌>>◌, done, failed, run_not_found, constraint}

-- `readRunTx`.
unfoldable pub read_run_tx : String → Tx Run
read_run_tx id db = elim (find_run db id) [ none ↦ failed run_not_found | some r ↦ done r db ]

-- `readStepTx`: a missing step reports the sentinel of a missing run.
unfoldable pub read_step_tx : String → String → Tx Step
read_step_tx run_id name db = elim (find_step db run_id name) [
  | none ↦ failed run_not_found
  | some s ↦ done s db
]

-- `ORDER BY idx`.
unfoldable pub insert_by_idx : Step → List Step → List Step
insert_by_idx s [] = s ∷ []
insert_by_idx s (t ∷ rest) = if leb s.idx t.idx then s ∷ t ∷ rest else t ∷ insert_by_idx s rest

unfoldable pub order_by_idx : List Step → List Step
unfolding insert_by_idx
order_by_idx [] = []
order_by_idx (s ∷ rest) = insert_by_idx s (order_by_idx rest)

abbrev pub of_run_id : String → Step → Bool
of_run_id run_id s = str_eq s.run_id run_id

-- The steps of a run in index order.
unfoldable pub steps_of : Db → String → List Step
unfolding order_by_idx
steps_of db run_id = order_by_idx (select (of_run_id run_id) db.steps)

-- `readStepsTx`: the steps of a run in index order.
unfoldable pub read_steps_tx : String → Tx (List Step)
unfolding steps_of
read_steps_tx run_id db = done (steps_of db run_id) db

-- `UPDATE runs SET ... WHERE id = ? AND state = ?`. The key selects one row at most; a new row that
-- breaks a CHECK constraint fails the statement.
unfoldable pub exec_run : String → (RunState → Bool) → (Run → Run) → Tx (Unit {0})
exec_run id within f db = elim (find (λ r. has_id id r && within r.state) db.runs) [
  | none ↦ done tt db
  | some r ↦
      if check_run (f r)
      then done tt (record db { runs = update (λ q. has_id id q && within q.state) f db.runs })
      else failed constraint
]

-- `UPDATE steps SET ... WHERE run_id = ? AND name = ? AND state = ?`.
unfoldable pub exec_step : String → String → (StepState → Bool) → (Step → Step) → Tx (Unit {0})
exec_step run_id name within f db =
    elim (find (λ s. has_key run_id name s && within s.state) db.steps) [
      | none ↦ done tt db
      | some s ↦
          if check_step (f s)
          then done tt (record db {
            steps = update (λ q. has_key run_id name q && within q.state) f db.steps;
          })
          else failed constraint
    ]

-- An event as a caller hands it over: empty texts become NULL, `system` and `{}`.
pub record NewEvent : Type 0 where
  pub run_id : String
  pub step_name : String
  pub at : ℕ
  pub kind : String
  pub from_state : String
  pub to_state : String
  pub reason_code : String
  pub actor : String
  pub detail_json : String

abbrev pub or_default : String → String → String
or_default default value = if str_eq value "" then default else value

unfoldable pub event_row : NewEvent → RunEvent
unfolding null_if_empty
event_row e = record {
  run_id = e.run_id;
  step_name = null_if_empty e.step_name;
  at = e.at;
  kind = e.kind;
  from_state = null_if_empty e.from_state;
  to_state = null_if_empty e.to_state;
  reason_code = null_if_empty e.reason_code;
  actor = or_default "system" e.actor;
  detail_json = or_default "{}" e.detail_json;
}

-- `appendRunEvent`.
unfoldable pub append_run_event : NewEvent → Tx (Unit {0})
append_run_event e db = done tt (record db { events = db.events ++ event_row e ∷ [] })

-- `finishTransition`: the state write and then its event, in one transaction.
unfoldable pub finish_transition : Tx (Unit {0}) → NewEvent → Tx (Unit {0})
unfolding append_run_event
finish_transition write e = write >> append_run_event e

-- `emitKind`: the name in the first emit effect.
unfoldable pub emit_kind : List Effect → String
emit_kind [] = ""
emit_kind (fx ∷ rest) = if is_emit fx.kind then fx.arg else emit_kind rest
