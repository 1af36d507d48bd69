-- ===== src/Store/Trail.antt =====
-- The abstract specification of the transition layer of internal/store: what a caller can see of the
-- states, moves and trails. `RunMoved` and `StepMoved` say which run or step moves, on which event and
-- under which guards, that the machine's table has the move for them, that every other state stays,
-- and that one event is appended, which names the run or the step and both states (G10). `Recorded` is
-- such a move of some run or step, along an edge of the table, and a trail a sequence of them.
pub mod Claims
pub mod Cancels
pub mod Skips
pub mod Finish
pub mod Steps
use pulseq.Prelude.{
  arith, Option-cases, inl, inr, ◌≡◌, ◌≢◌, true, ◌&&◌, String, [], ◌∷◌, ◌++◌, Option, none, some,
  str_eq, if◌then◌else◌,
}
use pulseq.Model.State.{
  RunState, run_queued, run_running, StepState, step_running, Event, name_of_run, name_of_step,
  is_terminal_run, is_terminal_step,
}
use pulseq.Model.Guards.{Guards}
use pulseq.Model.Moves.{RunMove, StepMove}
use pulseq.Store.Rows.{Run, Step, RunEvent, Db, find_run, find_step, WellKeyed}

abbrev pub state_of_run : Option Run → Option RunState
state_of_run none = none
state_of_run (some r) = some r.state

abbrev state_of_step : Option Step → Option StepState
state_of_step none = none
state_of_step (some s) = some s.state

abbrev pub run_state : Db → String → Option RunState
run_state db id = state_of_run (find_run db id)

abbrev pub step_state : Db → String → String → Option StepState
step_state db id name = state_of_step (find_step db id name)

-- A visible state is that of a row.
pub step_state-find :
    (db : Db) (id name : String) (t : StepState)
    → step_state db id name ≡ some t
    → (s : Step) × (find_step db id name ≡ some s) × (s.state ≡ t)
step_state-find db id name t h = elim (Option-cases (find_step db id name)) [
  | inl none_there ↦ ground arith
  | inr (s, e) ↦ (s, e, ground arith)
]

-- The event that goes with a move of a run, or of a step.
pub record RunRow (id : String) (from to : RunState) (e : RunEvent) : Type 0 where
  pub about : e.run_id ≡ id
  pub no_step : e.step_name ≡ none
  pub leaves : e.from_state ≡ some (name_of_run from)
  pub enters : e.to_state ≡ some (name_of_run to)

pub record StepRow (id name : String) (from to : StepState) (e : RunEvent) : Type 0 where
  pub about : e.run_id ≡ id
  pub of_step : e.step_name ≡ some name
  pub leaves : e.from_state ≡ some (name_of_step from)
  pub enters : e.to_state ≡ some (name_of_step to)

-- What a run's move sees of the run's steps: it goes to a terminal state only over terminal steps,
-- and never back to the queue.
pub record Closes (db : Db) (id : String) (to : RunState) : Type 0 where
  pub over_terminal :
      is_terminal_run to ≡ true
      → (name : String) (s : StepState) → step_state db id name ≡ some s
      → is_terminal_step s ≡ true
  pub forward : to ≢ run_queued

pub data Recorded (db db' : Db) : Type 0 where
  run_recorded :
      (id : String) (from to : RunState) (ev : Event) (g : Guards) (e : RunEvent)
      → run_state db id ≡ some from
      → RunMove g from ev to
      → Closes db id to
      → ((j : String) → run_state db' j ≡ (if str_eq id j then some to else run_state db j))
      → db'.steps ≡ db.steps
      → db'.events ≡ db.events ++ e ∷ []
      → RunRow id from to e
      → Recorded db db'
  step_recorded :
      (id name : String) (from to : StepState) (ev : Event) (g : Guards) (e : RunEvent)
      → step_state db id name ≡ some from
      → StepMove g from ev to
      → (to ≡ step_running → run_state db id ≡ some run_running)
      → db'.runs ≡ db.runs
      → ((j n : String)
          → step_state db' j n
            ≡ (if str_eq id j && str_eq name n then some to else step_state db j n))
      → db'.events ≡ db.events ++ e ∷ []
      → StepRow id name from to e
      → (WellKeyed db → WellKeyed db')
      → Recorded db db'

-- One named run moves, on a named event and under named guards, and nothing else does.
pub record RunMoved (db db' : Db) (id : String) (from : RunState) (ev : Event) (g : Guards)
    (to : RunState) : Type 0 where
  pub was : run_state db id ≡ some from
  pub move : RunMove g from ev to
  pub closes : Closes db id to
  pub runs_move : (j : String) → run_state db' j ≡ (if str_eq id j then some to else run_state db j)
  pub same_steps : db'.steps ≡ db.steps
  pub event : RunEvent
  pub one_event : db'.events ≡ db.events ++ event ∷ []
  pub row : RunRow id from to event

-- One named step moves, and nothing else does.
pub record StepMoved (db db' : Db) (id name : String) (from : StepState) (ev : Event) (g : Guards)
    (to : StepState) : Type 0 where
  pub was : step_state db id name ≡ some from
  pub move : StepMove g from ev to
  pub first : to ≡ step_running → run_state db id ≡ some run_running
  pub same_runs : db'.runs ≡ db.runs
  pub steps_move :
      (j n : String)
      → step_state db' j n ≡ (if str_eq id j && str_eq name n then some to else step_state db j n)
  pub event : RunEvent
  pub one_event : db'.events ≡ db.events ++ event ∷ []
  pub row : StepRow id name from to event
  pub keeps_keys : WellKeyed db → WellKeyed db'

pub RunMoved-Recorded :
    {db db' : Db} {id : String} {from to : RunState} {ev : Event} {g : Guards}
    → RunMoved db db' id from ev g to
    → Recorded db db'
RunMoved-Recorded {id = id} {from = from} {to = to} {ev = ev} {g = g} m =
    run_recorded id from to ev g m.event m.was m.move m.closes m.runs_move m.same_steps m.one_event
      m.row

pub StepMoved-Recorded :
    {db db' : Db} {id name : String} {from to : StepState} {ev : Event} {g : Guards}
    → StepMoved db db' id name from ev g to
    → Recorded db db'
StepMoved-Recorded {id = id} {name = name} {from = from} {to = to} {ev = ev} {g = g} m =
    step_recorded id name from to ev g m.event m.was m.move m.first m.same_runs m.steps_move
      m.one_event m.row m.keeps_keys

pub data Trail (db : Db) : Db → Type 0 where
  still : Trail db db
  onward : {mid db' : Db} → Trail db mid → Recorded mid db' → Trail db db'

pub Trail-append : {a b c : Db} → Trail a b → Trail b c → Trail a c
Trail-append t still = t
Trail-append t (onward u r) = onward (Trail-append t u) r
