-- ===== src/Store/Recording.antt =====
-- `finishTransition` of internal/store: what a state write and its event do to the visible states.
use mathlib.Core.Path.{subst₂}
use pulseq.Prelude.{
  subst, ◌≡◌, refl, Bool, true, false, ◌&&◌, String, List, [], ◌∷◌, ◌++◌, some, str_eq, eq_iff,
  if◌then◌else◌, Bool-cases, inl, inr, arith,
}
use pulseq.Model.State.{RunState, StepState}
use pulseq.Store.Table.{
  find, update, find-and, find-update_self, find-update_other, find-update-none,
}
use pulseq.Store.Rows.{
  Run, Step, Db, has_id, has_key, find_run, find_step, UniqueKeys, Named, WellKeyed,
}
use pulseq.Store.Tx.{done}
use pulseq.Store.Writes.{NewEvent, event_row, exec_run, exec_step, finish_transition}
use pulseq.Store.Trail.{run_state, step_state}

pub record RunWrite (db : Db) (id : String) (to : RunState) (e : NewEvent) (db' : Db) : Type 0 where
  pub runs_move : (j : String) → run_state db' j ≡ (if str_eq id j then some to else run_state db j)
  pub same_steps : db'.steps ≡ db.steps
  pub one_event : db'.events ≡ db.events ++ event_row e ∷ []

other_id :
    (id j : String) (within : RunState → Bool) (f : Run → Run) (r : Run)
    → str_eq id j ≡ false
    → ((q : Run) → (f q).id ≡ q.id)
    → (has_id id r && within r.state) ≡ true
    → (has_id j r ≡ false) × (has_id j (f r) ≡ false)
other_id id j within f r h keeps k =
    ground (arith, keeps r, eq_iff r.id id, eq_iff r.id j, eq_iff id j, eq_iff (f r).id j)

run_state-update_self :
    (db : Db) (id : String) (within : RunState → Bool) (f : Run → Run) (r : Run) (to : RunState)
    → find_run db id ≡ some r
    → within r.state ≡ true
    → ((q : Run) → (f q).id ≡ q.id)
    → (f r).state ≡ to
    → run_state (record db { runs = update (λ q. has_id id q && within q.state) f db.runs }) id
      ≡ some to
unfolding find_run
run_state-update_self db id within f r to h k keeps goes =
    rw
      (find-update_self (has_id id) (λ q. within q.state) f db.runs (λ q. rw (keeps q)), h, k, goes)

run_state-update :
    (db : Db) (id j : String) (within : RunState → Bool) (f : Run → Run) (r : Run) (to : RunState)
    → find_run db id ≡ some r
    → within r.state ≡ true
    → ((q : Run) → (f q).id ≡ q.id)
    → (f r).state ≡ to
    → run_state (record db { runs = update (λ q. has_id id q && within q.state) f db.runs }) j
      ≡ (if str_eq id j then some to else run_state db j)
unfolding find_run
run_state-update db id j within f r to h k keeps goes = elim (Bool-cases (str_eq id j)) [
  | inl same ↦ rw same (
      subst
        (λ x.
          run_state (record db { runs = update (λ q. has_id id q && within q.state) f db.runs }) x
          ≡ some to)
        ((eq_iff id j).0 same) (run_state-update_self db id within f r to h k keeps goes))
  | inr differs ↦ rw (
    differs,
    find-update_other (λ q. has_id id q && within q.state) (has_id j) f db.runs
        (λ q. other_id id j within f q differs keeps),
  )
]

committed_run :
    (db db' : Db) (id : String) (within : RunState → Bool) (f : Run → Run) (e : NewEvent) (r : Run)
    → find (λ q. has_id id q && within q.state) db.runs ≡ some r
    → finish_transition (exec_run id within f) e db ≡ done tt db'
    → db' ≡ record db {
      runs = update (λ q. has_id id q && within q.state) f db.runs;
      events = db.events ++ event_row e ∷ [];
    }
unfolding finish_transition exec_run
committed_run db db' id within f e r found ran = ground arith

-- A run's write that commits moved the run, left the steps alone and appended its event.
pub finish_transition_run :
    (db db' : Db) (id : String) (within : RunState → Bool) (f : Run → Run) (e : NewEvent) (r : Run)
    (to : RunState)
    → find_run db id ≡ some r
    → within r.state ≡ true
    → ((q : Run) → (f q).id ≡ q.id)
    → (f r).state ≡ to
    → finish_transition (exec_run id within f) e db ≡ done tt db'
    → RunWrite db id to e db'
unfolding find_run
finish_transition_run db db' id within f e r to h k keeps goes ran =
    let found = find-and (has_id id) (λ q. within q.state) db.runs r h k in
    let final = committed_run db db' id within f e r found ran in
    rw final (record {
      runs_move = λ j. run_state-update db id j within f r to h k keeps goes;
      same_steps = refl;
      one_event = refl;
    })

pub record StepWrite (db : Db) (id name : String) (to : StepState) (e : NewEvent) (db' : Db)
    : Type 0 where
  pub same_runs : db'.runs ≡ db.runs
  pub steps_move :
      (j n : String)
      → step_state db' j n ≡ (if str_eq id j && str_eq name n then some to else step_state db j n)
  pub one_event : db'.events ≡ db.events ++ event_row e ∷ []
  pub keeps_keys : WellKeyed db → WellKeyed db'

other_key :
    (id name j n : String) (within : StepState → Bool) (f : Step → Step) (s : Step)
    → (str_eq id j && str_eq name n) ≡ false
    → (((f s).run_id ≡ s.run_id) × ((f s).name ≡ s.name))
    → (has_key id name s && within s.state) ≡ true
    → (has_key j n s ≡ false) × (has_key j n (f s) ≡ false)
other_key id name j n within f s h keeps k = ground (
  arith,
  eq_iff s.run_id id,
  eq_iff s.run_id j,
  eq_iff id j,
  eq_iff s.name name,
  eq_iff s.name n,
  eq_iff name n,
  eq_iff (f s).run_id j,
  eq_iff (f s).name n,
)

abbrev updated_steps : Db → String → String → (StepState → Bool) → (Step → Step) → Db
updated_steps db id name within f = record db {
  steps = update (λ q. has_key id name q && within q.state) f db.steps;
}

step_state-update_self :
    (db : Db) (id name : String) (within : StepState → Bool) (f : Step → Step) (s : Step)
    (to : StepState)
    → find_step db id name ≡ some s
    → within s.state ≡ true
    → ((q : Step) → ((f q).run_id ≡ q.run_id) × ((f q).name ≡ q.name))
    → (f s).state ≡ to
    → step_state (updated_steps db id name within f) id name ≡ some to
unfolding find_step
step_state-update_self db id name within f s to h k keeps goes = rw (
  find-update_self (has_key id name) (λ q. within q.state) f db.steps
      (λ q. rw ((keeps q).0, (keeps q).1)),
  h,
  k,
  goes,
)

step_state-update :
    (db : Db) (id name j n : String) (within : StepState → Bool) (f : Step → Step) (s : Step)
    (to : StepState)
    → find_step db id name ≡ some s
    → within s.state ≡ true
    → ((q : Step) → ((f q).run_id ≡ q.run_id) × ((f q).name ≡ q.name))
    → (f s).state ≡ to
    → step_state (updated_steps db id name within f) j n
      ≡ (if str_eq id j && str_eq name n then some to else step_state db j n)
unfolding find_step
step_state-update db id name j n within f s to h k keeps goes =
    elim (Bool-cases (str_eq id j && str_eq name n)) [
      | inl same ↦
          let ids : (id ≡ j) × (name ≡ n) =
            (ground (arith, eq_iff id j), ground (arith, eq_iff name n)) in
          rw same (
            subst₂ (λ x y. step_state (updated_steps db id name within f) x y ≡ some to) ids.0 ids.1
              (step_state-update_self db id name within f s to h k keeps goes))
      | inr differs ↦ rw (
        differs,
        find-update_other (λ q. has_key id name q && within q.state) (has_key j n) f db.steps
            (λ q. other_key id name j n within f q differs (keeps q)),
      )
    ]

UniqueKeys-update :
    (p : Step → Bool) (f : Step → Step) (rows : List Step)
    → ((q : Step) → ((f q).run_id ≡ q.run_id) × ((f q).name ≡ q.name))
    → UniqueKeys rows
    → UniqueKeys (update p f rows)
unfolding update
UniqueKeys-update p f [] keeps u = tt
UniqueKeys-update p f (s ∷ rows) keeps u =
    let rest =
      find-update-none p (has_key s.run_id s.name) f rows (λ q. rw ((keeps q).0, (keeps q).1))
        u.0 in
    elim (Bool-cases (p s)) [
      | inl e ↦ rw (e, (keeps s).0, (keeps s).1) (rest, UniqueKeys-update p f rows keeps u.1)
      | inr e ↦ rw e (rest, UniqueKeys-update p f rows keeps u.1)
    ]

Named-update :
    (p : Step → Bool) (f : Step → Step) (rows : List Step)
    → ((q : Step) → ((f q).run_id ≡ q.run_id) × ((f q).name ≡ q.name))
    → Named rows
    → Named (update p f rows)
unfolding update
Named-update p f [] keeps u = tt
Named-update p f (s ∷ rows) keeps u = elim (Bool-cases (p s)) [
  | inl e ↦ rw (e, (keeps s).1) (u.0, Named-update p f rows keeps u.1)
  | inr e ↦ rw e (u.0, Named-update p f rows keeps u.1)
]

committed_step :
    (db db' : Db) (id name : String) (within : StepState → Bool) (f : Step → Step) (e : NewEvent)
    (s : Step)
    → find (λ q. has_key id name q && within q.state) db.steps ≡ some s
    → finish_transition (exec_step id name within f) e db ≡ done tt db'
    → db' ≡ record (updated_steps db id name within f) { events = db.events ++ event_row e ∷ [] }
unfolding finish_transition exec_step
committed_step db db' id name within f e s found ran = ground arith

-- A step's write that commits moved the step, left the runs alone and appended its event.
pub finish_transition_step :
    (db db' : Db) (id name : String) (within : StepState → Bool) (f : Step → Step) (e : NewEvent)
    (s : Step) (to : StepState)
    → find_step db id name ≡ some s
    → within s.state ≡ true
    → ((q : Step) → ((f q).run_id ≡ q.run_id) × ((f q).name ≡ q.name))
    → (f s).state ≡ to
    → finish_transition (exec_step id name within f) e db ≡ done tt db'
    → StepWrite db id name to e db'
unfolding find_step
finish_transition_step db db' id name within f e s to h k keeps goes ran =
    let found = find-and (has_key id name) (λ q. within q.state) db.steps s h k in
    let final = committed_step db db' id name within f e s found ran in
    rw final (record {
      same_runs = refl;
      steps_move = λ j n. step_state-update db id name j n within f s to h k keeps goes;
      one_event = refl;
      keeps_keys = λ w. record {
        unique = UniqueKeys-update _ f db.steps keeps w.unique;
        named = Named-update _ f db.steps keeps w.named;
      };
    })
