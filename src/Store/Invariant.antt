-- ===== src/Store/Invariant.antt =====
-- The tables of internal/store between transactions: internal/store/doc.go's I2 (an ended run has
-- no step left open), the foreign key of the steps, and the audit trail (the last event of a run or
-- a step names the state it is in, and no event is of a row that is not there). All of it is kept by
-- every recorded transition, so by every trail.
pub mod Kept
pub mod Unseen
pub mod Restated
use pulseq.Prelude.{
  ◌≡◌, ◌≢◌, Bool, true, false, ◌&&◌, String, List, [], ◌∷◌, Option, none, some, str_eq,
  if◌then◌else◌,
}
use pulseq.Model.State.{
  RunState, run_queued, StepState, step_running, name_of_run, name_of_step, is_terminal_run,
  is_terminal_step,
}
use pulseq.Store.Rows.{RunEvent, Db, WellKeyed, is_null}
use pulseq.Store.Trail.{run_state, step_state}

-- Whether an event is of a run itself, or of a step.
abbrev pub tells_run : String → RunEvent → Bool
tells_run id e = str_eq id e.run_id && is_null e.step_name

abbrev pub same_name : String → Option String → Bool
same_name name none = false
same_name name (some n) = str_eq name n

abbrev pub tells_step : String → String → RunEvent → Bool
tells_step id name e = str_eq id e.run_id && same_name name e.step_name

-- The state that the events tell, read from the oldest on: the `to_state` of the last one that is
-- about it.
unfoldable pub told : (RunEvent → Bool) → Option String → List RunEvent → Option String
told about start [] = start
told about start (e ∷ es) = told about (if about e then e.to_state else start) es

pub record Sound (db : Db) : Type 0 where
  pub keyed : WellKeyed db
  pub ended :
      (id name : String) (r : RunState) (s : StepState)
      → run_state db id ≡ some r
      → is_terminal_run r ≡ true
      → step_state db id name ≡ some s
      → is_terminal_step s ≡ true
  pub quiet :
      (id name : String)
      → run_state db id ≡ some run_queued
      → step_state db id name ≢ some step_running
  pub run_told :
      (id : String) (r : RunState)
      → run_state db id ≡ some r
      → told (tells_run id) (some (name_of_run run_queued)) db.events ≡ some (name_of_run r)
  pub owned :
      (id name : String) (s : StepState)
      → step_state db id name ≡ some s
      → (r : RunState) × (run_state db id ≡ some r)
  pub run_unheard :
      (id : String) (start : Option String)
      → run_state db id ≡ none
      → told (tells_run id) start db.events ≡ start
  pub step_unheard :
      (id name : String) (start : Option String)
      → step_state db id name ≡ none
      → told (tells_step id name) start db.events ≡ start
  pub step_told :
      (id name : String) (s : StepState)
      → step_state db id name ≡ some s
      → told (tells_step id name) (some "pending") db.events ≡ some (name_of_step s)
