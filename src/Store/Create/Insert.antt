-- ===== src/Store/Create/Insert.antt =====
-- What the INSERT statements of internal/store do to the visible states.
use pulseq.Prelude.{
  subst, ◌∙◌, ◌≡◌, ◌≢◌, refl, ◌&&◌, String, List, [], ◌∷◌, ◌++◌, none, some, str_eq, eq_iff,
  if◌then◌else◌, arith, Bool-cases, Option-cases, inl, inr,
}
use pulseq.Store.Table.{find, find-append}
use pulseq.Store.Rows.{
  Run, Step, StepDep, Db, has_id, has_key, find_run, find_step, UniqueKeys, Named, WellKeyed,
}
use pulseq.Store.Tx.{done}
use pulseq.Store.Trail.{run_state, step_state}
use pulseq.Store.Create.{insert_run, insert_step, insert_edge}

-- A run that is inserted is new, and its state is seen behind the insertion.
pub record RunInserted (db : Db) (r : Run) (db' : Db) : Type 0 where
  pub fresh : run_state db r.id ≡ none
  pub runs_grow :
      (j : String) → run_state db' j ≡ (if str_eq r.id j then some r.state else run_state db j)
  pub same_steps : db'.steps ≡ db.steps
  pub same_events : db'.events ≡ db.events

run_state-append :
    (db : Db) (r : Run) (j : String)
    → find_run db r.id ≡ none
    → run_state (record db { runs = db.runs ++ r ∷ [] }) j
      ≡ (if str_eq r.id j then some r.state else run_state db j)
unfolding find_run
run_state-append db r j fresh = elim (Bool-cases (str_eq r.id j)) [
  | inl here ↦
      let none_there = subst (λ x. find (has_id x) db.runs ≡ none) ((eq_iff r.id j).0 here) fresh in
      rw (find-append (has_id j) db.runs r, none_there, here) refl
  | inr away ↦ elim (Option-cases (find (has_id j) db.runs)) [
    | inl e ↦ rw (find-append (has_id j) db.runs r, e, away) refl
    | inr (q, e) ↦ rw (find-append (has_id j) db.runs r, e, away) refl
  ]
]

pub insert_run-RunInserted :
    (db db' : Db) (r : Run) → insert_run r db ≡ done tt db' → RunInserted db r db'
unfolding insert_run
insert_run-RunInserted db db' r h = elim (Option-cases (find_run db r.id)) [
  | inl fresh ↦
      let final : (record db { runs = db.runs ++ r ∷ [] }) ≡ db' = ground arith in
      subst (RunInserted db r) final (record {
        fresh = rw fresh refl;
        runs_grow = λ j. run_state-append db r j fresh;
        same_steps = refl;
        same_events = refl;
      })
  | inr (q, there) ↦ absurd (ground arith)
]

-- A step that is inserted is new, and belongs to a run.
pub record StepInserted (db : Db) (s : Step) (db' : Db) : Type 0 where
  pub fresh : step_state db s.run_id s.name ≡ none
  pub its_run : (r : Run) × (find_run db s.run_id ≡ some r)
  pub steps_grow :
      (j n : String)
      → step_state db' j n
        ≡ (if str_eq s.run_id j && str_eq s.name n then some s.state else step_state db j n)
  pub same_runs : db'.runs ≡ db.runs
  pub same_events : db'.events ≡ db.events
  pub keeps_keys : s.name ≢ "" → WellKeyed db → WellKeyed db'

step_state-append :
    (db : Db) (s : Step) (j n : String)
    → find_step db s.run_id s.name ≡ none
    → step_state (record db { steps = db.steps ++ s ∷ [] }) j n
      ≡ (if str_eq s.run_id j && str_eq s.name n then some s.state else step_state db j n)
unfolding find_step
step_state-append db s j n fresh = elim (Bool-cases (str_eq s.run_id j && str_eq s.name n)) [
  | inl here ↦
      let id_same : s.run_id ≡ j = ground (arith, eq_iff s.run_id j) in
      let name_same : s.name ≡ n = ground (arith, eq_iff s.name n) in
      let there = subst (λ x. find (has_key x s.name) db.steps ≡ none) id_same fresh in
      let none_there = subst (λ x. find (has_key j x) db.steps ≡ none) name_same there in
      rw (find-append (has_key j n) db.steps s, none_there, here) refl
  | inr away ↦ elim (Option-cases (find (has_key j n) db.steps)) [
    | inl e ↦ rw (find-append (has_key j n) db.steps s, e, away) refl
    | inr (q, e) ↦ rw (find-append (has_key j n) db.steps s, e, away) refl
  ]
]

UniqueKeys-append :
    (rows : List Step) (s : Step)
    → find (has_key s.run_id s.name) rows ≡ none
    → UniqueKeys rows
    → UniqueKeys (rows ++ s ∷ [])
unfolding find
UniqueKeys-append [] s h u = (refl, tt)
UniqueKeys-append (x ∷ rows) s h u = (
  find-append (has_key x.run_id x.name) rows s
      ∙ ground (
        arith,
        eq_iff x.run_id s.run_id,
        eq_iff s.run_id x.run_id,
        eq_iff x.name s.name,
        eq_iff s.name x.name,
      ),
  UniqueKeys-append rows s (ground arith) u.1,
)

Named-append : (rows : List Step) (s : Step) → s.name ≢ "" → Named rows → Named (rows ++ s ∷ [])
Named-append [] s h u = (h, tt)
Named-append (x ∷ rows) s h u = (u.0, Named-append rows s h u.1)

pub insert_step-StepInserted :
    (db db' : Db) (s : Step) → insert_step s db ≡ done tt db' → StepInserted db s db'
unfolding insert_step find_step
insert_step-StepInserted db db' s h = elim (Option-cases (find_run db s.run_id)) [
  | inl gone ↦ absurd (ground arith)
  | inr (r, its_run) ↦ elim (Option-cases (find_step db s.run_id s.name)) [
    | inl fresh ↦
        let final : (record db { steps = db.steps ++ s ∷ [] }) ≡ db' = ground arith in
        subst (StepInserted db s) final (record {
          fresh = rw fresh refl;
          its_run = (r, its_run);
          steps_grow = λ j n. step_state-append db s j n fresh;
          same_runs = refl;
          same_events = refl;
          keeps_keys = λ named w. record {
            unique = UniqueKeys-append db.steps s fresh w.unique;
            named = Named-append db.steps s named w.named;
          };
        })
    | inr (q, there) ↦ absurd (ground arith)
  ]
]

-- An edge that is inserted is not seen.
pub record SameRows (db db' : Db) : Type 0 where
  pub same_runs : db'.runs ≡ db.runs
  pub same_steps : db'.steps ≡ db.steps
  pub same_events : db'.events ≡ db.events

pub insert_edge-SameRows :
    (db db' : Db) (d : StepDep) → insert_edge d db ≡ done tt db' → SameRows db db'
unfolding insert_edge
insert_edge-SameRows db db' d h = record {
  same_runs = ground arith;
  same_steps = ground arith;
  same_events = ground arith;
}
