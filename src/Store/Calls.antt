-- ===== src/Store/Calls.antt =====
-- The transactions of internal/store (transitions.go, runs.go and materialize.go) as steps of one relation on the tables, and what
-- every sequence of them keeps: the soundness of `Store.Invariant`.
use pulseq.Prelude.{
  subst, ℕ, ◌≡◌, ◌≢◌, refl, String, List, Option, [], ◌∷◌, ◌++◌, arith, Option-cases, inl, inr,
}
use pulseq.Prelude.Int.{ℤ}
use pulseq.Model.State.{RunState, ev_step_started}
use pulseq.Store.Table.{find, update}
use pulseq.Store.Rows.{Run, Db, has_id, find_run}
use pulseq.Store.Tx.{done, Failure}
use pulseq.Store.Claim.{claim_run}
use pulseq.Store.StepMoves.{start_step, record_step_outcome, StepOutcome, or_else}
use pulseq.Store.Finish.{
  finish_run, observe_run_cancel, request_cancel, FinishReason, CancelRequest, cancel_requested_row,
}
use pulseq.Store.Trail.{RunMoved-Recorded, StepMoved-Recorded, state_of_run, still, onward}
use pulseq.Store.Trail.Steps.{
  start_step-StepMoved, record_step_outcome-StepMoved, start_step-moves, record_step_outcome-moves,
}
use pulseq.Store.Trail.Finish.{finish_run-RunMoved}
use pulseq.Store.Trail.Claims.{NoneRunning, claim_run-Trail, claim_from_queue}
use pulseq.Store.Trail.Cancels.{observe_run_cancel-Trail}
use pulseq.Store.Create.{NewRun, create_run_with_steps}
use pulseq.Store.Create.Queued.{AllNamed, create_run_with_steps-Sound}
use pulseq.Store.Materialize.{
  CurrentVersion, ManualTriggerInput, ManualTriggerResult, materialize_manual_trigger,
}
use pulseq.Store.Materialize.Queued.{VersionNamed, materialize_manual_trigger-Sound}
use pulseq.Store.Invariant.{Sound}
use pulseq.Store.Invariant.Unseen.{Unseen, Unseen-Sound}
use pulseq.Store.Invariant.Restated.{Restates, of_run, of_step, Restates-Sound}
use pulseq.Store.Append.{append_event_alone}
use pulseq.Store.Writes.{NewEvent, event_row, append_run_event}
use pulseq.Store.Invariant.Kept.{Trail-Sound}

-- One committed call of the store, whatever it is called with.
pub data Call (db db' : Db) : Type 0 where
  claimed :
      (now : ℕ) (id owner : String) (ttl : ℤ) (to : RunState)
      → claim_run now id owner ttl db ≡ done to db'
      → Call db db'
  started : (now : ℕ) (id name : String) → start_step now id name db ≡ done tt db' → Call db db'
  ended :
      (now : ℕ) (id name : String) (out : StepOutcome)
      → record_step_outcome now id name out db ≡ done tt db'
      → Call db db'
  finished :
      (now : ℕ) (id owner : String) (fr : FinishReason) (to : RunState)
      → finish_run now id owner fr db ≡ done to db'
      → Call db db'
  observed :
      (now : ℕ) (id owner actor code : String)
      → observe_run_cancel now id owner actor code db ≡ done tt db'
      → Call db db'
  requested :
      (now : ℕ) (id by why : String) (asked : CancelRequest)
      → request_cancel now id by why db ≡ done asked db'
      → Call db db'
  created :
      (id : String) (now : ℕ) (n : NewRun) (run : Run)
      → create_run_with_steps id now n db ≡ done run db'
      → Call db db'
  materialized :
      (bad_spec : Failure) (current : CurrentVersion) (tick_id trigger_id id : String) (now : ℕ)
      (i : ManualTriggerInput) (out : ManualTriggerResult)
      → materialize_manual_trigger bad_spec current tick_id trigger_id id now i db ≡ done out db'
      → Call db db'
  appended :
      (now : ℕ) (at : Option ℕ) (e : NewEvent)
      → append_event_alone now at e db ≡ done tt db'
      → Call db db'

pub data Calls (db : Db) : Db → Type 0 where
  none_yet : Calls db db
  then_call : {mid db' : Db} → Calls db mid → Call mid db' → Calls db db'

-- What a call is to heed, which the store does not check itself: an outcome does not carry
-- `step_started`, which is the event of `StartStep`; a cancel is observed when no step of the run is
-- running; the steps that a new run brings have names; and an event that is recorded on its own
-- says of its run or step the state that it is in.
abbrev pub Heeds : {db db' : Db} → Call db db' → Type 0
Heeds (claimed now id owner ttl to h) = Unit {0}
Heeds (started now id name h) = Unit {0}
Heeds (ended now id name out h) = out.event ≢ ev_step_started
Heeds (finished now id owner fr to h) = Unit {0}
Heeds {db = db} (observed now id owner actor code h) = NoneRunning db id
Heeds (requested now id by why asked h) = Unit {0}
Heeds (created id now n run h) = AllNamed n.steps
Heeds (materialized bad_spec current tick_id trigger_id id now i out h) = VersionNamed current
Heeds {db = db} (appended now at e h) = Restates db (event_row e)

abbrev pub AllHeed : {db db' : Db} → Calls db db' → Type 0
AllHeed none_yet = Unit {0}
AllHeed (then_call before call) = AllHeed before × Heeds call

-- Calls that heed what they are to heed.
abbrev pub HeedfulCalls : Db → Db → Type 0
HeedfulCalls db db' = (calls : Calls db db') × AllHeed calls

-- What an event that is recorded on its own leaves.
pub append_event_alone_lem :
    (now : ℕ) (at : Option ℕ) (e : NewEvent) (db db' : Db)
    → append_event_alone now at e db ≡ done tt db'
    → (db'.runs ≡ db.runs)
      × (db'.steps ≡ db.steps)
      × (db'.events ≡ db.events ++ event_row (record e { at = or_else at now }) ∷ [])
unfolding append_event_alone append_run_event
append_event_alone_lem now at e db db' h = elim (Option-cases (find_run db e.run_id)) [
  | inl nobody ↦ absurd (ground arith)
  | inr (r, found) ↦ (ground arith, ground arith, ground arith)
]

pub Restates-at :
    (db : Db) (e : NewEvent) (at : ℕ)
    → Restates db (event_row e)
    → Restates db (event_row (record e { at = at }))
unfolding event_row
Restates-at db e at (of_run r was no_step leaves enters) = of_run r was no_step leaves enters
Restates-at db e at (of_step name s was is leaves enters) = of_step name s was is leaves enters

-- A change of rows that keeps their ids and states is not seen.
find-update_unseen :
    (id j : String) (f : Run → Run) (rows : List Run)
    → ((r : Run) → ((f r).id ≡ r.id) × ((f r).state ≡ r.state))
    → state_of_run (find (has_id j) (update (has_id id) f rows))
      ≡ state_of_run (find (has_id j) rows)
unfolding find update
find-update_unseen id j f [] keeps = refl
find-update_unseen id j f (r ∷ rows) keeps =
    ground (arith, keeps r, find-update_unseen id j f rows keeps)

pub request_cancel-Unseen :
    (now : ℕ) (id by why : String) (db db' : Db) (asked : CancelRequest)
    → request_cancel now id by why db ≡ done asked db'
    → Unseen db db'
unfolding request_cancel find_run
request_cancel-Unseen now id by why db db' asked h = elim (Option-cases (find_run db id)) [
  | inl nobody ↦ absurd (ground arith)
  | inr (r, found) ↦
      let row : Run → Run = cancel_requested_row now by why in
      let same : (record db { runs = update (has_id id) row db.runs }) ≡ db' = ground arith in
      subst (Unseen db) same (record {
        same_runs = λ j. find-update_unseen id j row db.runs (λ q. (refl, refl));
        same_steps = refl;
        same_events = refl;
      })
]

-- Every committed call of the store that heeds what it is to heed keeps the tables sound.
pub Call-Sound : (db db' : Db) (call : Call db db') → Heeds call → Sound db → Sound db'
Call-Sound db db' (claimed now id owner ttl to h) _ s =
    Trail-Sound
      (claim_run-Trail now id owner ttl db db' to s.keyed
        (λ n. s.quiet id n (claim_from_queue now id owner ttl db db' to h)) h)
      s
Call-Sound db db' (started now id name h) _ s =
    let (named, _) = start_step-moves now id name db db' s.keyed h in
    Trail-Sound
      (onward still (StepMoved-Recorded (start_step-StepMoved now id name db db' named h).1)) s
Call-Sound db db' (ended now id name out h) other s =
    let (named, _) = record_step_outcome-moves now id name out db db' s.keyed other h in
    let (_, _, _, m) = record_step_outcome-StepMoved now id name out db db' named other h in
    Trail-Sound (onward still (StepMoved-Recorded m)) s
Call-Sound db db' (finished now id owner fr to h) _ s =
    let (_, _, _, _, m) = finish_run-RunMoved now id owner fr db db' to h in
    Trail-Sound (onward still (RunMoved-Recorded m)) s
Call-Sound db db' (observed now id owner actor code h) idle s =
    Trail-Sound (observe_run_cancel-Trail now id owner actor code db db' s.keyed idle h) s
Call-Sound db db' (requested now id by why asked h) _ s =
    Unseen-Sound db db' (request_cancel-Unseen now id by why db db' asked h) s
Call-Sound db db' (created id now n run h) named s =
    (create_run_with_steps-Sound id now n db db' run named h s).0
Call-Sound db db' (materialized bad_spec current tick_id trigger_id id now i out h) named s =
    (materialize_manual_trigger-Sound bad_spec current tick_id trigger_id id now i db db' out named
      h s).0
Call-Sound db db' (appended now at e h) says s =
    let (runs, steps, events) = append_event_alone_lem now at e db db' h in
    Restates-Sound db db' (event_row (record e { at = or_else at now })) runs steps events
      (Restates-at db e (or_else at now) says) s

-- Any sequence of committed calls of the store that heed what callers are to heed (`Heeds`: no outcome is `step_started`,
-- a cancel is observed when no step of the run is running, new steps have names, and an event that is recorded on its
-- own restates a state) leaves sound tables of sound tables: an ended run has only ended steps, a queued run
-- has no running step, and the events tell the state of every run and step.
pub Calls-Sound : {db db' : Db} (calls : Calls db db') → AllHeed calls → Sound db → Sound db'
Calls-Sound none_yet _ s = s
Calls-Sound (then_call {mid = mid} {db' = db'} before call) heed s =
    Call-Sound mid db' call heed.1 (Calls-Sound before heed.0 s)
