-- ===== src/Store/Invariant/Restated.antt =====
-- An event that is recorded outside every transition, and that says of its run or step what the
-- tables say already, keeps the tables of internal/store sound.
use pulseq.Prelude.{
  ◌≡◌, true, String, [], ◌∷◌, ◌++◌, none, some, arith, eq_iff, Bool-cases, inl, inr,
}
use pulseq.Model.State.{RunState, StepState, run_queued, name_of_run, name_of_step}
use pulseq.Store.Rows.{RunEvent, Db, find_run, find_step}
use pulseq.Store.Trail.{run_state, step_state}
use pulseq.Store.Invariant.{Sound, tells_run, tells_step}
use pulseq.Store.Invariant.Kept.{told-append}

-- An event that leaves and enters the state that its run, or its step, is in.
pub data Restates (db : Db) (e : RunEvent) : Type 0 where
  of_run :
      (r : RunState)
      → run_state db e.run_id ≡ some r
      → e.step_name ≡ none
      → e.from_state ≡ some (name_of_run r)
      → e.to_state ≡ some (name_of_run r)
      → Restates db e
  of_step :
      (name : String) (s : StepState)
      → step_state db e.run_id name ≡ some s
      → e.step_name ≡ some name
      → e.from_state ≡ some (name_of_step s)
      → e.to_state ≡ some (name_of_step s)
      → Restates db e

run_of :
    (db : Db) (e : RunEvent) (j : String)
    → Restates db e
    → tells_run j e ≡ true
    → (r : RunState) × (run_state db j ≡ some r) × (e.to_state ≡ some (name_of_run r))
run_of db e j (of_run r was no_step leaves enters) h =
    (r, rw ((eq_iff j e.run_id).0 (ground arith)) was, enters)
run_of db e j (of_step name s was is leaves enters) h = absurd (ground arith)

step_of :
    (db : Db) (e : RunEvent) (j n : String)
    → Restates db e
    → tells_step j n e ≡ true
    → (s : StepState) × (step_state db j n ≡ some s) × (e.to_state ≡ some (name_of_step s))
step_of db e j n (of_run r was no_step leaves enters) h = absurd (ground arith)
step_of db e j n (of_step name s was is leaves enters) h =
    let same_run = (eq_iff j e.run_id).0 (ground arith) in
    let same_step = (eq_iff n name).0 (ground arith) in (s, rw (same_run, same_step) was, enters)

-- The tables behind one such event.
pub Restates-Sound :
    (db db' : Db) (e : RunEvent)
    → db'.runs ≡ db.runs
    → db'.steps ≡ db.steps
    → db'.events ≡ db.events ++ e ∷ []
    → Restates db e
    → Sound db
    → Sound db'
unfolding find_run find_step
Restates-Sound db db' e runs steps events says s = record {
  keyed = record { unique = rw steps (s.keyed.unique); named = rw steps (s.keyed.named) };
  ended = λ j n r t running over there.
      s.ended j n r t (let h = rw runs at running in h) over (let h = rw steps at there in h);
  quiet = λ j n queued moves.
      s.quiet j n (let h = rw runs at queued in h) (let h = rw steps at moves in h);
  owned = λ j n t there.
      let (r, running) = s.owned j n t (let h = rw steps at there in h) in (r, rw runs running);
  run_told = λ j r running.
      let before = (let h = rw runs at running in h) in
      rw (events, told-append (tells_run j) (some (name_of_run run_queued)) db.events e)
        (elim (Bool-cases (tells_run j e)) [
          | inl is ↦ let (r', was, enters) = run_of db e j says is in ground arith
          | inr not_it ↦ rw not_it (s.run_told j r before)
        ]);
  run_unheard = λ j start gone.
      let before = (let h = rw runs at gone in h) in
      rw (events, told-append (tells_run j) start db.events e)
        (elim (Bool-cases (tells_run j e)) [
          | inl is ↦ let (r', was, enters) = run_of db e j says is in absurd (ground arith)
          | inr not_it ↦ rw not_it (s.run_unheard j start before)
        ]);
  step_unheard = λ j n start gone.
      let before = (let h = rw steps at gone in h) in
      rw (events, told-append (tells_step j n) start db.events e)
        (elim (Bool-cases (tells_step j n e)) [
          | inl is ↦ let (s', was, enters) = step_of db e j n says is in absurd (ground arith)
          | inr not_it ↦ rw not_it (s.step_unheard j n start before)
        ]);
  step_told = λ j n t there.
      let before = (let h = rw steps at there in h) in
      rw (events, told-append (tells_step j n) (some "pending") db.events e)
        (elim (Bool-cases (tells_step j n e)) [
          | inl is ↦ let (s', was, enters) = step_of db e j n says is in ground arith
          | inr not_it ↦ rw not_it (s.step_told j n t before)
        ]);
}
