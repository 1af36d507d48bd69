-- ===== src/Store/Invariant/Kept.antt =====
-- Every recorded transition of the tables keeps them sound.
use pulseq.Prelude.{
  none, subst, sym, ◌∙◌, ◌≡◌, ◌≢◌, refl, Bool, true, ◌&&◌, String, List, [], ◌∷◌, ◌++◌, Option,
  some, str_eq, eq_iff, if◌then◌else◌, arith, Bool-cases, inl, inr,
}
use pulseq.Model.State.{
  RunState, run_queued, run_running, StepState, step_running, Event, name_of_run, name_of_step,
  is_terminal_run, is_terminal_step,
}
use pulseq.Model.Guards.{Guards}
use pulseq.Model.Moves.{StepMove}
use pulseq.Store.Rows.{RunEvent, Db, WellKeyed, find_step, find_run}
use pulseq.Store.Trail.{
  run_state, step_state, Recorded, run_recorded, step_recorded, Trail, still, onward, RunRow,
  StepRow, Closes,
}
use pulseq.Store.Invariant.{Sound, told, tells_run, tells_step}

pub told-append :
    (about : RunEvent → Bool) (start : Option String) (es : List RunEvent) (e : RunEvent)
    → told about start (es ++ e ∷ []) ≡ (if about e then e.to_state else told about start es)
unfolding told
told-append about start [] e = refl
told-append about start (d ∷ es) e = told-append about (if about d then d.to_state else start) es e

-- A step that moves had not ended.
moved_open :
    {s t : StepState} {e : Event} {g : Guards} → StepMove g s e t → is_terminal_step s ≢ true
unfolding is_terminal_step
moved_open StepMove.start h = cc
moved_open (StepMove.skip a) h = cc
moved_open (StepMove.succeed a) h = cc
moved_open (StepMove.retry a b) h = cc
moved_open (StepMove.fail a b) h = cc
moved_open (StepMove.cancel a) h = cc

-- The events tell a run's new state behind its event, and the same of every other run and step.
run_told-after :
    (db db' : Db) (id j : String) (from to r : RunState) (e : RunEvent)
    → db'.events ≡ db.events ++ e ∷ []
    → RunRow id from to e
    → (if str_eq id j then some to else run_state db j) ≡ some r
    → Sound db
    → told (tells_run j) (some (name_of_run run_queued)) db'.events ≡ some (name_of_run r)
run_told-after db db' id j from to r e events row now s =
    let appended = told-append (tells_run j) (some (name_of_run run_queued)) db.events e in
    elim (Bool-cases (str_eq id j)) [
      | inl here ↦
          rw (events, appended, row.about, row.no_step, row.enters)
            (ground (arith, eq_iff id j, eq_iff j id))
      | inr away ↦
          rw (events, appended, row.about, row.no_step)
            (ground (arith, eq_iff id j, eq_iff j id, s.run_told j r))
    ]

step_told-after :
    (db db' : Db) (id j n : String) (from to : RunState) (e : RunEvent) (start : Option String)
    → db'.events ≡ db.events ++ e ∷ []
    → RunRow id from to e
    → told (tells_step j n) start db'.events ≡ told (tells_step j n) start db.events
step_told-after db db' id j n from to e start events row =
    let appended = told-append (tells_step j n) start db.events e in
    rw (events, appended, row.no_step) (ground arith)

-- The events about another run, and those about any run when a step moves, tell what they told.
run_unheard-after :
    (db db' : Db) (id j : String) (from to : RunState) (e : RunEvent) (start : Option String)
    → db'.events ≡ db.events ++ e ∷ []
    → RunRow id from to e
    → (if str_eq id j then some to else run_state db j) ≡ none
    → Sound db
    → told (tells_run j) start db'.events ≡ start
run_unheard-after db db' id j from to e start events row now s =
    let appended = told-append (tells_run j) start db.events e in
    elim (Bool-cases (str_eq id j)) [
      | inl here ↦ absurd (ground arith)
      | inr away ↦
          rw (events, appended, row.about, row.no_step)
            (ground (arith, eq_iff id j, eq_iff j id, s.run_unheard j start))
    ]

-- What a run's recorded move keeps.
run_keeps :
    (db db' : Db) (id : String) (from to : RunState) (e : RunEvent)
    → Closes db id to
    → ((j : String) → run_state db' j ≡ (if str_eq id j then some to else run_state db j))
    → db'.steps ≡ db.steps
    → db'.events ≡ db.events ++ e ∷ []
    → RunRow id from to e
    → Sound db
    → Sound db'
unfolding find_step
run_keeps db db' id from to e closes moves steps events row s =
    let same : (j n : String) → step_state db' j n ≡ step_state db j n = λ j n. rw steps refl in
    record {
      keyed = record { unique = rw steps (s.keyed.unique); named = rw steps (s.keyed.named) };
      ended = λ j n r t running over there.
          let before = sym (same j n) ∙ there in
          let now = sym (moves j) ∙ running in
          elim (Bool-cases (str_eq id j)) [
            | inl here ↦
                let is : to ≡ r = ground arith in
                closes.over_terminal (subst (λ x. is_terminal_run x ≡ true) (sym is) over) n t
                  (subst (λ x. step_state db x n ≡ some t) (sym ((eq_iff id j).0 here)) before)
            | inr away ↦ s.ended j n r t (ground arith) over before
          ];
      quiet = λ j n queued runs.
          let now = sym (moves j) ∙ queued in
          elim (Bool-cases (str_eq id j)) [
            | inl here ↦ closes.forward (ground arith)
            | inr away ↦ s.quiet j n (ground arith) (sym (same j n) ∙ runs)
          ];
      run_told = λ j r running.
          run_told-after db db' id j from to r e events row (sym (moves j) ∙ running) s;
      owned = λ j n t there.
          let (r, running) = s.owned j n t (sym (same j n) ∙ there) in
          elim (Bool-cases (str_eq id j)) [
            | inl here ↦ (to, moves j ∙ ground arith)
            | inr away ↦ (r, moves j ∙ ground arith)
          ];
      run_unheard = λ j start gone.
          run_unheard-after db db' id j from to e start events row (sym (moves j) ∙ gone) s;
      step_unheard = λ j n start gone.
          step_told-after db db' id j n from to e start events row
          ∙ s.step_unheard j n start (sym (same j n) ∙ gone);
      step_told = λ j n t there.
          step_told-after db db' id j n from to e (some "pending") events row
          ∙ s.step_told j n t (sym (same j n) ∙ there);
    }

-- The events tell a step's new state behind its event, and the same of every other step and run.
step_told-moved :
    (db db' : Db) (id name j n : String) (from to t : StepState) (e : RunEvent)
    → db'.events ≡ db.events ++ e ∷ []
    → StepRow id name from to e
    → (if str_eq id j && str_eq name n then some to else step_state db j n) ≡ some t
    → Sound db
    → told (tells_step j n) (some "pending") db'.events ≡ some (name_of_step t)
step_told-moved db db' id name j n from to t e events row now s =
    let appended = told-append (tells_step j n) (some "pending") db.events e in
    elim (Bool-cases (str_eq id j && str_eq name n)) [
      | inl here ↦
          rw (events, appended, row.about, row.of_step, row.enters)
            (ground (arith, eq_iff id j, eq_iff j id, eq_iff name n, eq_iff n name))
      | inr away ↦
          rw (events, appended, row.about, row.of_step)
            (ground
              (arith, eq_iff id j, eq_iff j id, eq_iff name n, eq_iff n name, s.step_told j n t))
    ]

run_told-kept :
    (db db' : Db) (id name j : String) (from to : StepState) (e : RunEvent) (start : Option String)
    → db'.events ≡ db.events ++ e ∷ []
    → StepRow id name from to e
    → told (tells_run j) start db'.events ≡ told (tells_run j) start db.events
run_told-kept db db' id name j from to e start events row =
    let appended = told-append (tells_run j) start db.events e in
    rw (events, appended, row.of_step) (ground arith)

step_unheard-moved :
    (db db' : Db) (id name j n : String) (from to : StepState) (e : RunEvent)
    (start : Option String)
    → db'.events ≡ db.events ++ e ∷ []
    → StepRow id name from to e
    → (if str_eq id j && str_eq name n then some to else step_state db j n) ≡ none
    → Sound db
    → told (tells_step j n) start db'.events ≡ start
step_unheard-moved db db' id name j n from to e start events row now s =
    let appended = told-append (tells_step j n) start db.events e in
    elim (Bool-cases (str_eq id j && str_eq name n)) [
      | inl here ↦ absurd (ground arith)
      | inr away ↦
          rw (events, appended, row.about, row.of_step)
            (ground (
              arith,
              eq_iff id j,
              eq_iff j id,
              eq_iff name n,
              eq_iff n name,
              s.step_unheard j n start,
            ))
    ]

-- What a step's recorded move keeps.
step_keeps :
    (db db' : Db) (id name : String) (from to : StepState) (ev : Event) (g : Guards) (e : RunEvent)
    → step_state db id name ≡ some from
    → StepMove g from ev to
    → (to ≡ step_running → run_state db id ≡ some run_running)
    → db'.runs ≡ db.runs
    → ((j n : String)
        → step_state db' j n
          ≡ (if str_eq id j && str_eq name n then some to else step_state db j n))
    → db'.events ≡ db.events ++ e ∷ []
    → StepRow id name from to e
    → (WellKeyed db → WellKeyed db')
    → Sound db
    → Sound db'
unfolding find_run
step_keeps db db' id name from to ev g e was move runs_first runs moves events row keys s =
    let same : (j : String) → run_state db' j ≡ run_state db j = λ j. rw runs refl in
    record {
      keyed = keys s.keyed;
      ended = λ j n r t running over there.
          let before = sym (same j) ∙ running in
          let now = sym (moves j n) ∙ there in
          elim (Bool-cases (str_eq id j && str_eq name n)) [
            | inl here ↦ absurd (
                let id_same : id ≡ j = ground (arith, eq_iff id j) in
                moved_open move (
                  s.ended id name r from (subst (λ x. run_state db x ≡ some r) (sym id_same) before)
                    over was))
            | inr away ↦ s.ended j n r t before over (ground arith)
          ];
      quiet = λ j n queued runs_there.
          let before = sym (same j) ∙ queued in
          let now = sym (moves j n) ∙ runs_there in
          elim (Bool-cases (str_eq id j && str_eq name n)) [
            | inl here ↦
                let id_same : id ≡ j = ground (arith, eq_iff id j) in
                let started = runs_first (ground arith) in
                let clash =
                  sym started
                  ∙ subst (λ x. run_state db x ≡ some run_queued) (sym id_same) before in
                cc
            | inr away ↦ s.quiet j n before (ground arith)
          ];
      run_told = λ j r running.
          run_told-kept db db' id name j from to e (some (name_of_run run_queued)) events row
          ∙ s.run_told j r (sym (same j) ∙ running);
      owned = λ j n t there.
          let now = sym (moves j n) ∙ there in
          elim (Bool-cases (str_eq id j && str_eq name n)) [
            | inl here ↦
                let id_same : id ≡ j = ground (arith, eq_iff id j) in
                let (r, running) = s.owned id name from was in
                (r, same j ∙ subst (λ x. run_state db x ≡ some r) id_same running)
            | inr away ↦ let (r, running) = s.owned j n t (ground arith) in (r, same j ∙ running)
          ];
      run_unheard = λ j start gone.
          run_told-kept db db' id name j from to e start events row
          ∙ s.run_unheard j start (sym (same j) ∙ gone);
      step_unheard = λ j n start gone.
          step_unheard-moved db db' id name j n from to e start events row (sym (moves j n) ∙ gone)
            s;
      step_told = λ j n t there.
          step_told-moved db db' id name j n from to t e events row (sym (moves j n) ∙ there) s;
    }

-- A recorded transition keeps the tables sound: keys, I2, the quiet queue and the audit trail.
pub Recorded-Sound : (db db' : Db) → Recorded db db' → Sound db → Sound db'
Recorded-Sound db db' (run_recorded id from to ev g e was move closes moves steps events row) s =
    run_keeps db db' id from to e closes moves steps events row s
Recorded-Sound db db'
      (step_recorded id name from to ev g e was move first runs moves events row keys) s =
    step_keeps db db' id name from to ev g e was move first runs moves events row keys s

-- A trail of recorded transitions keeps the tables sound.
pub Trail-Sound : {db db' : Db} → Trail db db' → Sound db → Sound db'
Trail-Sound still s = s
Trail-Sound (onward {mid = mid} {db' = db'} t r) s = Recorded-Sound mid db' r (Trail-Sound t s)
