-- ===== src/Store/Rows.antt =====
-- The rows of internal/store: the columns of the tables `runs`, `steps`, `step_deps` and
-- `run_events` (internal/store/migrations/0004_execution.sql and 0005), with `ticks` and `triggers`, that the transition layer
-- reads or writes, and their CHECK constraints. NULL is `none`; an instant is its milliseconds.
use pulseq.Prelude.{
  ◌≡◌, ◌≢◌, [], ◌∷◌, ℕ, Bool, true, false, ◌&&◌, ◌||◌, String, List, Option, none, some, str_eq,
  if◌then◌else◌, leb,
}
use pulseq.Prelude.Int.{ℤ}
use pulseq.Model.State.{
  RunState, run_queued, StepState, step_pending, is_terminal_run, is_terminal_step,
}
use pulseq.Store.Table.{find}

pub record Run : Type 0 where
  pub id : String
  pub job_name : String
  pub job_version_id : String
  pub trigger_id : Option String
  pub origin : String
  pub run_key : Option String
  pub state : RunState
  pub available_at : ℕ
  pub defer_reason : Option String
  pub scheduled_for : Option ℕ
  pub params_json : String
  pub concurrency_key : Option String
  pub max_attempts : ℕ
  pub replay_of : Option String
  pub lease_owner : Option String
  pub lease_epoch : ℕ
  pub lease_expires_at : Option ℕ
  pub cancel_requested_at : Option ℕ
  pub cancel_requested_by : Option String
  pub cancel_reason : Option String
  pub reason_code : Option String
  pub reason_data : Option String
  pub created_at : ℕ
  pub started_at : Option ℕ
  pub finished_at : Option ℕ
  pub duration_ms : Option ℤ
  pub updated_at : ℕ

pub record Step : Type 0 where
  pub run_id : String
  pub name : String
  pub idx : ℕ
  pub state : StepState
  pub attempt : ℕ
  pub max_attempts : ℕ
  pub next_attempt_at : Option ℕ
  pub started_at : Option ℕ
  pub finished_at : Option ℕ
  pub duration_ms : Option ℤ
  pub exit_code : Option ℤ
  pub signal : Option String
  pub reason_code : Option String
  pub reason_data : Option String
  pub log_path : Option String
  pub log_bytes : ℕ
  pub log_truncated : Bool
  pub error_tail : Option String

pub record StepDep : Type 0 where
  pub run_id : String
  pub step_name : String
  pub depends_on : String

pub record RunEvent : Type 0 where
  pub run_id : String
  pub step_name : Option String
  pub at : ℕ
  pub kind : String
  pub from_state : Option String
  pub to_state : Option String
  pub reason_code : Option String
  pub actor : String
  pub detail_json : String

pub record Tick : Type 0 where
  pub id : String
  pub source_kind : String
  pub source_name : String
  pub started_at : ℕ
  pub trigger_count : ℕ

pub record Trigger : Type 0 where
  pub id : String
  pub tick_id : String
  pub job_name : String
  pub params_json : String
  pub created_at : ℕ
  pub outcome : String

pub record Db : Type 0 where
  pub ticks : List Tick
  pub triggers : List Trigger
  pub runs : List Run
  pub steps : List Step
  pub deps : List StepDep
  pub events : List RunEvent

-- `nullIfEmpty`, and the `String` field of a `sql.NullString`.
unfoldable pub null_if_empty : String → Option String
null_if_empty value = if str_eq value "" then none else some value

abbrev pub or_empty : Option String → String
or_empty none = ""
or_empty (some s) = s

abbrev pub is_null : {A : Type 0} → Option A → Bool
is_null none = true
is_null (some _) = false

abbrev is_queued : RunState → Bool
is_queued run_queued = true
is_queued _ = false

abbrev pub is_pending : StepState → Bool
is_pending step_pending = true
is_pending _ = false

abbrev ordered : Option ℕ → Option ℕ → Bool
ordered (some started) (some finished) = leb started finished
ordered _ _ = true

-- The CHECK constraints of `runs` that a transition can meet.
unfoldable pub check_run : Run → Bool
unfolding is_terminal_run
check_run r =
    ((if is_null r.defer_reason then false else true)
      || leb r.available_at r.created_at
      || (if is_queued r.state then false else true))
    && ((if is_terminal_run r.state then false else true)
        || (if is_null r.reason_code then false else true))
    && ordered r.started_at r.finished_at

-- The CHECK constraint of `steps`.
unfoldable pub check_step : Step → Bool
unfolding is_terminal_step
check_step s =
    (if is_terminal_step s.state then false else true)
    || (if is_null s.reason_code then false else true)

-- The primary keys.
abbrev pub has_id : String → Run → Bool
has_id id r = str_eq r.id id

abbrev pub has_key : String → String → Step → Bool
has_key run_id name s = str_eq s.run_id run_id && str_eq s.name name

unfoldable pub find_run : Db → String → Option Run
find_run db id = find (has_id id) db.runs

unfoldable pub find_step : Db → String → String → Option Step
find_step db run_id name = find (has_key run_id name) db.steps

-- The primary key of `steps`, and steps that all have a name.
abbrev pub UniqueKeys : List Step → Type 0
UniqueKeys [] = Unit {0}
UniqueKeys (s ∷ rest) = (find (has_key s.run_id s.name) rest ≡ none) × UniqueKeys rest

abbrev pub Named : List Step → Type 0
Named [] = Unit {0}
Named (s ∷ rest) = (s.name ≢ "") × Named rest

-- Tables whose steps have names that are keys.
pub record WellKeyed (db : Db) : Type 0 where
  pub unique : UniqueKeys db.steps
  pub named : Named db.steps
