-- ===== src/Store/Trail/Steps.antt =====
-- `StartStep` and `RecordStepOutcome` of internal/store leave a trail of recorded transitions.
use pulseq.Prelude.{
  List, [], ◌∷◌, Bool-cases, ◌&&◌, str_eq, ltb, subst, if◌then◌else◌, ap, ℕ, ◌≡◌, ◌≢◌, refl, String,
  none, some, arith, eq_iff, eq_refl, Option-cases, inl, inr,
}
use pulseq.Model.State.{
  run_running, StepState, step_pending, step_running, ev_step_started, name_of_step, Event,
}
use pulseq.Model.Guards.{no_guards, Guards}
use pulseq.Model.Moves.{StepMove, skip, retry, next_step_state_sound}
use pulseq.Model.Parse.RoundTrip.{parse_step_state-name}
use pulseq.Model.StepFsm.{next_step_state}
use pulseq.Store.Table.{find}
use pulseq.Store.Rows.{
  WellKeyed, Named, has_key, Run, Step, Db, find_run, find_step, null_if_empty, is_pending,
}
use pulseq.Store.Tx.{done}
use pulseq.Store.Writes.{
  read_run_tx, read_step_tx, NewEvent, event_row, exec_step, finish_transition, emit_kind,
}
use pulseq.Store.StepMoves.{
  start_step, started_row, record_step_outcome, StepOutcome, outcome_row, same_step_state,
  row_reason, row_detail, or_else, outcome_guards,
}
use pulseq.Store.Trail.{step_state, run_state, StepMoved}
use pulseq.Store.Recording.{StepWrite, finish_transition_step}

-- The event of a step's transition.
abbrev pub step_event :
    String → String → ℕ → String → StepState → StepState → String → String → NewEvent
step_event run_id name at kind from to reason detail = record {
  run_id = run_id;
  step_name = name;
  at = at;
  kind = kind;
  from_state = name_of_step from;
  to_state = name_of_step to;
  reason_code = reason;
  actor = "";
  detail_json = detail;
}

start_step_inversion :
    (now : ℕ) (id name : String) (db db' : Db)
    → start_step now id name db ≡ done tt db'
    → (r : Run) × (s : Step) × (find_run db id ≡ some r)
      × (r.state ≡ run_running)
      × (find_step db id name ≡ some s)
      × (s.state ≡ step_pending)
      × (finish_transition
            (exec_step id name is_pending (started_row now))
            (step_event id name now "step.started" step_pending step_running "" "")
            db
          ≡ done tt db')
unfolding start_step read_run_tx read_step_tx next_step_state emit_kind
start_step_inversion now id name db db' h = elim (Option-cases (find_run db id)) [
  | inl e ↦ ground arith
  | inr (r, e) ↦ elim (Option-cases (find_step db id name)) [
    | inl f ↦ ground arith
    | inr (s, f) ↦
        (r, s, e, ground arith, f, ground arith, ground (arith, parse_step_state-name step_pending))
  ]
]

null_if_empty-name_of_step :
    (s : StepState) → null_if_empty (name_of_step s) ≡ some (name_of_step s)
unfolding null_if_empty name_of_step
null_if_empty-name_of_step step_pending = refl
null_if_empty-name_of_step _ = refl

null_if_empty-some : (s : String) → s ≢ "" → null_if_empty s ≡ some s
unfolding null_if_empty
null_if_empty-some s h = ground (arith, eq_iff s "")

-- A committed write of a step, along a move of the table, moves that step alone.
pub StepWrite-StepMoved :
    (db db' : Db) (id name : String) (s : Step) (to : StepState) (ev : Event) (g : Guards) (at : ℕ)
    (kind reason detail : String)
    → name ≢ ""
    → find_step db id name ≡ some s
    → StepMove g s.state ev to
    → (to ≡ step_running → run_state db id ≡ some run_running)
    → StepWrite db id name to (step_event id name at kind s.state to reason detail) db'
    → StepMoved db db' id name s.state ev g to
unfolding event_row
StepWrite-StepMoved db db' id name s to ev g at kind reason detail named found move under w =
    record {
      was = rw found;
      move = move;
      first = under;
      same_runs = w.same_runs;
      steps_move = w.steps_move;
      event = event_row (step_event id name at kind s.state to reason detail);
      one_event = w.one_event;
      row = record {
        about = refl;
        of_step = null_if_empty-some name named;
        leaves = null_if_empty-name_of_step s.state;
        enters = null_if_empty-name_of_step to;
      };
      keeps_keys = w.keeps_keys;
    }

-- A step with a name that `StartStep` starts was pending, under a running run. It alone moves, to
-- running; no run moves, and one event is appended, which names the step and both states.
pub start_step-StepMoved :
    (now : ℕ) (id name : String) (db db' : Db)
    → name ≢ ""
    → start_step now id name db ≡ done tt db'
    → (run_state db id ≡ some run_running)
      × StepMoved db db' id name step_pending ev_step_started no_guards step_running
start_step-StepMoved now id name db db' named h =
    let (r, s, found_run, running, found, pending, ran) =
      start_step_inversion now id name db db' h in
    let under : run_state db id ≡ some run_running = rw found_run (ap some running) in
    (
      under,
      subst (λ x. StepMoved db db' id name x ev_step_started no_guards step_running) pending
          (StepWrite-StepMoved db db' id name s step_running ev_step_started no_guards now
            "step.started" "" "" named found (rw pending StepMove.start) (λ _. under)
            (rw pending (
              finish_transition_step db db' id name is_pending (started_row now) _ s step_running
                found (rw pending) (λ q. (refl, refl)) refl ran))),
    )

outcome_inversion :
    (now : ℕ) (id name : String) (out : StepOutcome) (db db' : Db)
    → record_step_outcome now id name out db ≡ done tt db'
    → (s : Step) × (find_step db id name ≡ some s)
      × ((next_step_state s.state out.event (outcome_guards s out)).error ≡ none)
      × (let to = (next_step_state s.state out.event (outcome_guards s out)).state in
          let at = or_else out.finished_at now in
          finish_transition
            (exec_step id name (same_step_state s.state) (outcome_row out at to))
            (step_event id name at
              (emit_kind (next_step_state s.state out.event (outcome_guards s out)).effects)
              s.state
              to
              (row_reason out to)
              (row_detail out to))
            db
          ≡ done tt db')
unfolding record_step_outcome read_step_tx
outcome_inversion now id name out db db' h = elim (Option-cases (find_step db id name)) [
  | inl f ↦ ground arith
  | inr (s, f) ↦ (
    s,
    f,
    ground (arith, parse_step_state-name s.state),
    ground (arith, parse_step_state-name s.state),
  )
]

only_start_runs :
    {s t : StepState} {ev : Event} {g : Guards}
    → StepMove g s ev t
    → t ≡ step_running
    → ev ≡ ev_step_started
only_start_runs StepMove.start e = refl
only_start_runs (skip a) e = cc
only_start_runs (StepMove.succeed a) e = cc
only_start_runs (retry a b) e = cc
only_start_runs (StepMove.fail a b) e = cc
only_start_runs (StepMove.cancel a) e = cc

-- An outcome that is recorded on a step with a name moves that step alone, on the outcome's event, as the table allows for
-- the outcome's reason code and with an attempt left exactly when the step's row has had fewer attempts than its
-- maximum; one event is appended, which names the step and both states. (A caller does not hand `step_started` to this method:
-- starting is `StartStep`'s, which looks at the run.)
pub record_step_outcome-StepMoved :
    (now : ℕ) (id name : String) (out : StepOutcome) (db db' : Db)
    → name ≢ ""
    → out.event ≢ ev_step_started
    → record_step_outcome now id name out db ≡ done tt db'
    → (s : Step) × (to : StepState) × (find_step db id name ≡ some s)
      × StepMoved db db' id name s.state out.event
          (record no_guards {
            reason_code = out.reason_code;
            attempts_left = ltb s.attempt s.max_attempts;
          })
          to
record_step_outcome-StepMoved now id name out db db' named not_start h =
    let (s, found, accepted, ran) = outcome_inversion now id name out db db' h in
    let o = next_step_state s.state out.event (outcome_guards s out) in
    let at = or_else out.finished_at now in
    let move = next_step_state_sound s.state out.event (outcome_guards s out) accepted in
    (
      s,
      o.state,
      found,
      StepWrite-StepMoved db db' id name s o.state out.event (outcome_guards s out) at
          (emit_kind o.effects) (row_reason out o.state) (row_detail out o.state) named found move
          (λ e. absurd (not_start (only_start_runs move e)))
          (finish_transition_step db db' id name (same_step_state s.state)
            (outcome_row out at o.state) _ s o.state found (eq_refl (name_of_step s.state))
            (λ q. (refl, refl)) refl ran),
    )

row_has_name :
    (rows : List Step) (id name : String) (s : Step)
    → Named rows
    → find (has_key id name) rows ≡ some s
    → name ≢ ""
unfolding find
row_has_name [] id name s w h = cc
row_has_name (x ∷ rows) id name s w h = elim (Bool-cases (has_key id name x)) [
  | inl e ↦ λ empty. w.0 (ground (arith, eq_iff x.name name))
  | inr e ↦ row_has_name rows id name s w.1 (ground arith)
]

-- A row that is found by a name that all rows have has one.
pub find_step_named :
    (db : Db) (id name : String) (s : Step)
    → WellKeyed db
    → find_step db id name ≡ some s
    → name ≢ ""
unfolding find_step
find_step_named db id name s w h = row_has_name db.steps id name s w.named h

-- What the visible steps are behind a start, and that the step has a name.
pub start_step-moves :
    (now : ℕ) (id name : String) (db db' : Db)
    → WellKeyed db
    → start_step now id name db ≡ done tt db'
    → (name ≢ "")
      × ((j n : String)
          → step_state db' j n
            ≡ (if str_eq id j && str_eq name n then some step_running else step_state db j n))
start_step-moves now id name db db' w h =
    let (r, s, found_run, running, found, pending, ran) =
      start_step_inversion now id name db db' h in
    (
      find_step_named db id name s w found,
      (finish_transition_step db db' id name is_pending (started_row now) _ s step_running found
          (rw pending) (λ q. (refl, refl)) refl ran).steps_move,
    )

-- What the visible steps are behind an outcome: the step is not running, and has a name.
pub record_step_outcome-moves :
    (now : ℕ) (id name : String) (out : StepOutcome) (db db' : Db)
    → WellKeyed db
    → out.event ≢ ev_step_started
    → record_step_outcome now id name out db ≡ done tt db'
    → (name ≢ "")
      × ((to : StepState) × (to ≢ step_running)
          × ((j n : String)
              → step_state db' j n
                ≡ (if str_eq id j && str_eq name n then some to else step_state db j n)))
record_step_outcome-moves now id name out db db' w not_start h =
    let (s, found, accepted, ran) = outcome_inversion now id name out db db' h in
    let o = next_step_state s.state out.event (outcome_guards s out) in
    let move = next_step_state_sound s.state out.event (outcome_guards s out) accepted in
    (
      find_step_named db id name s w found,
      (
        o.state,
        (λ e. not_start (only_start_runs move e)),
        (finish_transition_step db db' id name (same_step_state s.state)
            (outcome_row out (or_else out.finished_at now) o.state) _ s o.state found
            (eq_refl (name_of_step s.state)) (λ q. (refl, refl)) refl ran).steps_move,
      ),
    )
