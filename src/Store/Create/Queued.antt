-- ===== src/Store/Create/Queued.antt =====
-- `CreateRunWithSteps` of internal/store keeps the tables sound.
use pulseq.Prelude.{
  subst, ap, ◌∙◌, ◌≡◌, ◌≢◌, refl, ℕ, suc, String, List, [], ◌∷◌, ◌++◌, none, some, eq_refl, arith,
}
use pulseq.Model.State.{run_queued}
use pulseq.Store.Rows.{Run, RunEvent, Db, find_run}
use pulseq.Store.Tx.{◌>>◌, >>-done, pure, done}
use pulseq.Store.Trail.{run_state}
use pulseq.Store.Invariant.{Sound}
use pulseq.Store.Invariant.Unseen.{Unseen, Unseen-Sound}
use pulseq.Store.Create.{
  insert_run, insert_step, insert_edge, insert_edges, insert_steps, new_step_row, attempts_or_one,
  NewStep, NewRun, queued_event, new_run_row, create_run_with_steps,
}
use pulseq.Store.Create.Insert.{
  insert_run-RunInserted, insert_step-StepInserted, SameRows, insert_edge-SameRows,
}
use pulseq.Store.Create.Announced.{Announced-Sound, queued_event-Announced}
use pulseq.Store.Create.Kept.{RunInserted-Sound, StepInserted-Sound}

edges_split :
    (id name upstream : String) (rest : List String) (db db' : Db)
    → insert_edges id name (upstream ∷ rest) db ≡ done tt db'
    → (mid : Db) × (insert_edge (record { run_id = id; step_name = name; depends_on = upstream }) db
        ≡ done tt mid)
      × (insert_edges id name rest mid ≡ done tt db')
unfolding insert_edges
edges_split id name upstream rest db db' h =
    >>-done (insert_edge (record { run_id = id; step_name = name; depends_on = upstream }))
      (insert_edges id name rest) db db' tt h

insert_edges-SameRows :
    (id name : String) (upstreams : List String) (db db' : Db)
    → insert_edges id name upstreams db ≡ done tt db'
    → SameRows db db'
unfolding insert_edges
insert_edges-SameRows id name [] db db' h = record {
  same_runs = ground arith;
  same_steps = ground arith;
  same_events = ground arith;
}
insert_edges-SameRows id name (u ∷ rest) db db' h =
    let (mid, first, others) = edges_split id name u rest db db' h in
    let k =
      insert_edge-SameRows db mid (record { run_id = id; step_name = name; depends_on = u })
        first in
    let l = insert_edges-SameRows id name rest mid db' others in
    record {
      same_runs = l.same_runs ∙ k.same_runs;
      same_steps = l.same_steps ∙ k.same_steps;
      same_events = l.same_events ∙ k.same_events;
    }

SameRows-Unseen : (db db' : Db) → SameRows db db' → Unseen db db'
unfolding find_run
SameRows-Unseen db db' k = record {
  same_runs = λ j. rw (k.same_runs) refl;
  same_steps = k.same_steps;
  same_events = k.same_events;
}

-- Steps that all have a name.
abbrev pub AllNamed : List NewStep → Type 0
AllNamed [] = Unit {0}
AllNamed (s ∷ rest) = (s.name ≢ "") × AllNamed rest

steps_split :
    (id : String) (i : ℕ) (s : NewStep) (rest : List NewStep) (db db' : Db)
    → insert_steps id i (s ∷ rest) db ≡ done tt db'
    → (one two : Db) × (insert_step (new_step_row id i s.name (attempts_or_one s.max_attempts)) db
        ≡ done tt one)
      × (insert_edges id s.name s.depends_on one ≡ done tt two)
      × (insert_steps id (suc i) rest two ≡ done tt db')
unfolding insert_steps
steps_split id i s rest db db' h =
    let (one, a, more) =
      >>-done (insert_step (new_step_row id i s.name (attempts_or_one s.max_attempts)))
        (insert_edges id s.name s.depends_on >> insert_steps id (suc i) rest) db db' tt h in
    let (two, b, c) =
      >>-done (insert_edges id s.name s.depends_on) (insert_steps id (suc i) rest) one db' tt
        more in
    (one, two, a, b, c)

insert_steps-Sound :
    (id : String) (steps : List NewStep) (i : ℕ) (db db' : Db)
    → AllNamed steps
    → run_state db id ≡ some run_queued
    → insert_steps id i steps db ≡ done tt db'
    → Sound db
    → Sound db' × (run_state db' id ≡ some run_queued)
unfolding insert_steps find_run
insert_steps-Sound id [] i db db' a queued h s =
    let same : db ≡ db' = ground arith in
    subst (λ x. Sound x × (run_state x id ≡ some run_queued)) same (s, queued)
insert_steps-Sound id (x ∷ rest) i db db' a queued h s =
    let (one, two, step, edges, more) = steps_split id i x rest db db' h in
    let row = new_step_row id i x.name (attempts_or_one x.max_attempts) in
    let k = insert_step-StepInserted db one row step in
    let e = insert_edges-SameRows id x.name x.depends_on one two edges in
    insert_steps-Sound id rest (suc i) two db' a.1 (rw (e.same_runs ∙ k.same_runs) queued) more (
      Unseen-Sound one two (SameRows-Unseen one two e)
        (StepInserted-Sound db one row refl a.0 queued k s))

-- A new queued run with named steps and its event, in this order.
pub enqueued-Sound :
    {A : Type 0} (id : String) (now : ℕ) (row : Run) (steps : List NewStep) (reason actor : String)
    (a b : A) (db db' : Db)
    → row.id ≡ id
    → row.state ≡ run_queued
    → AllNamed steps
    → (insert_run row >> (insert_steps id 0 steps >> (queued_event id now reason actor >> pure a)))
        db
      ≡ done b db'
    → Sound db
    → Sound db' × (run_state db' id ≡ some run_queued)
unfolding find_run
enqueued-Sound id now row steps reason actor a b db db' its waits named h s =
    let (one, run, g) =
      >>-done (insert_run row)
        (insert_steps id 0 steps >> (queued_event id now reason actor >> pure a)) db db' b h in
    let (two, inserted, more) =
      >>-done (insert_steps id 0 steps) (queued_event id now reason actor >> pure a) one db' b g in
    let (three, event, last) = >>-done (queued_event id now reason actor) (pure a) two db' b more in
    let k = insert_run-RunInserted db one row run in
    let queued : run_state one id ≡ some run_queued =
      k.runs_grow id ∙ rw (its, eq_refl id) (ap some waits) in
    let (sound, still) =
      insert_steps-Sound id steps 0 one two named queued inserted
        (RunInserted-Sound db one row waits k s) in
    let (e, tells) = queued_event-Announced id now reason actor two three event in
    let same : three ≡ db' = ground arith in
    subst (λ x. Sound x × (run_state x id ≡ some run_queued)) same
      (Announced-Sound two three id e still tells sound, rw (tells.same_runs) still)

-- A run that is created with named steps leaves sound tables sound, and is in the queue.
pub create_run_with_steps-Sound :
    (id : String) (now : ℕ) (n : NewRun) (db db' : Db) (r : Run)
    → AllNamed n.steps
    → create_run_with_steps id now n db ≡ done r db'
    → Sound db
    → Sound db' × (run_state db' id ≡ some run_queued)
unfolding create_run_with_steps new_run_row
create_run_with_steps-Sound id now n db db' r named h s =
    enqueued-Sound id now (new_run_row id now n) n.steps n.defer_reason n.actor
      (new_run_row id now n) r db db' refl refl named h s

insert_steps_silent :
    (id : String) (steps : List NewStep) (i : ℕ) (db db' : Db)
    → insert_steps id i steps db ≡ done tt db'
    → db'.events ≡ db.events
unfolding insert_steps
insert_steps_silent id [] i db db' h = ground arith
insert_steps_silent id (x ∷ rest) i db db' h =
    let (one, two, step, edges, more) = steps_split id i x rest db db' h in
    let k =
      insert_step-StepInserted db one (new_step_row id i x.name (attempts_or_one x.max_attempts))
        step in
    let e = insert_edges-SameRows id x.name x.depends_on one two edges in
    insert_steps_silent id rest (suc i) two db' more ∙ e.same_events ∙ k.same_events

-- What a creation writes to the events: one row, from no state, about a run that was not there.
pub record Heard (db : Db) (db' : Db) : Type 0 where
  pub id : String
  pub event : RunEvent
  pub fresh : run_state db id ≡ none
  pub one_event : db'.events ≡ db.events ++ event ∷ []
  pub about : event.run_id ≡ id
  pub no_step : event.step_name ≡ none
  pub leaves : event.from_state ≡ none

pub enqueued-Heard :
    {A : Type 0} (id : String) (now : ℕ) (row : Run) (steps : List NewStep) (reason actor : String)
    (a b : A) (db db' : Db)
    → row.id ≡ id
    → (insert_run row >> (insert_steps id 0 steps >> (queued_event id now reason actor >> pure a)))
        db
      ≡ done b db'
    → Heard db db'
enqueued-Heard id now row steps reason actor a b db db' its h =
    let (one, run, g) =
      >>-done (insert_run row)
        (insert_steps id 0 steps >> (queued_event id now reason actor >> pure a)) db db' b h in
    let (two, inserted, more) =
      >>-done (insert_steps id 0 steps) (queued_event id now reason actor >> pure a) one db' b g in
    let (three, event, last) = >>-done (queued_event id now reason actor) (pure a) two db' b more in
    let k = insert_run-RunInserted db one row run in
    let (e, tells) = queued_event-Announced id now reason actor two three event in
    let same : three ≡ db' = ground arith in
    let quiet = insert_steps_silent id steps 0 one two inserted ∙ k.same_events in
    subst (Heard db) same (record {
      id = id;
      event = e;
      fresh = subst (λ x. run_state db x ≡ none) its k.fresh;
      one_event = tells.one_event ∙ ap (λ x. x ++ e ∷ []) quiet;
      about = tells.about;
      no_step = tells.no_step;
      leaves = tells.leaves;
    })

pub create_run_with_steps-Heard :
    (id : String) (now : ℕ) (n : NewRun) (db db' : Db) (r : Run)
    → create_run_with_steps id now n db ≡ done r db'
    → Heard db db'
unfolding create_run_with_steps new_run_row
create_run_with_steps-Heard id now n db db' r h =
    enqueued-Heard id now (new_run_row id now n) n.steps n.defer_reason n.actor
      (new_run_row id now n) r db db' refl h
