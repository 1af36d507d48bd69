-- ===== src/Model/Parse/RoundTrip.antt =====
-- The parsers of internal/model/state.go are the inverses of the state names.
use pulseq.Prelude.{String, ◌≡◌, refl, arith, eq_iff}
use pulseq.Model.State.{RunState, run_queued, StepState, step_pending, name_of_run, name_of_step}
use pulseq.Model.Errors.{ok, err, Error, unknown}
use pulseq.Model.Parse.{parse_run_state, parse_step_state}

-- Every stored run state is read back as the state that was written.
pub parse_run_state-name : (s : RunState) → parse_run_state (name_of_run s) ≡ ok s
unfolding parse_run_state
parse_run_state-name run_queued = refl
parse_run_state-name _ = refl

-- Every stored step state is read back as the state that was written.
pub parse_step_state-name : (s : StepState) → parse_step_state (name_of_step s) ≡ ok s
unfolding parse_step_state
parse_step_state-name step_pending = refl
parse_step_state-name _ = refl

-- A name that parses as a run state is the name of that state, so no two names mean one state.
pub name-parse_run_state :
    (name : String) (s : RunState) → parse_run_state name ≡ ok s → name_of_run s ≡ name
unfolding parse_run_state
name-parse_run_state name s h = ground (
  arith,
  eq_iff "queued" name,
  eq_iff "running" name,
  eq_iff "succeeded" name,
  eq_iff "failed" name,
  eq_iff "cancelled" name,
)

-- The same of a step.
pub name-parse_step_state :
    (name : String) (s : StepState) → parse_step_state name ≡ ok s → name_of_step s ≡ name
unfolding parse_step_state
name-parse_step_state name s h = ground (
  arith,
  eq_iff "pending" name,
  eq_iff "running" name,
  eq_iff "succeeded" name,
  eq_iff "failed" name,
  eq_iff "skipped" name,
  eq_iff "cancelled" name,
)

-- A refused name is refused as unknown, with the name in the error.
pub parse_run_state-err :
    (name : String) (e : Error) → parse_run_state name ≡ err e → e ≡ unknown "run" name
unfolding parse_run_state
parse_run_state-err name e h = ground arith
