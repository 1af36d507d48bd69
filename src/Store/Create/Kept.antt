-- ===== src/Store/Create/Kept.antt =====
-- A new row of internal/store keeps the tables sound.
use pulseq.Prelude.{
  subst, sym, ap, ◌∙◌, ◌≡◌, ◌≢◌, refl, true, ◌&&◌, String, none, some, str_eq, eq_iff, arith,
  Bool-cases, inl, inr,
}
use pulseq.Model.State.{
  run_queued, step_pending, step_running, name_of_run, name_of_step, is_terminal_run,
}
use pulseq.Store.Rows.{Run, Step, Db, find_run, find_step}
use pulseq.Store.Trail.{run_state, step_state}
use pulseq.Store.Invariant.{Sound}
use pulseq.Store.Create.Insert.{RunInserted, StepInserted}

queued_open : is_terminal_run run_queued ≢ true
unfolding is_terminal_run
queued_open e = cc

pending_name : some "pending" ≡ some (name_of_step step_pending)
unfolding name_of_step
pending_name = refl

-- A new run in the queue: it has no step and no event yet.
pub RunInserted-Sound :
    (db db' : Db) (r : Run) → r.state ≡ run_queued → RunInserted db r db' → Sound db → Sound db'
unfolding find_step
RunInserted-Sound db db' r queued k s =
    let same : (j n : String) → step_state db' j n ≡ step_state db j n =
      λ j n. rw (k.same_steps) refl in
    record {
      keyed = record {
        unique = rw (k.same_steps) s.keyed.unique;
        named = rw (k.same_steps) s.keyed.named;
      };
      ended = λ j n q t running over there.
          let now = sym (k.runs_grow j) ∙ running in
          elim (Bool-cases (str_eq r.id j)) [
            | inl here ↦
                let is : run_queued ≡ q = ground arith in
                absurd (queued_open (subst (λ x. is_terminal_run x ≡ true) (sym is) over))
            | inr away ↦ s.ended j n q t (ground arith) over (sym (same j n) ∙ there)
          ];
      quiet = λ j n waits runs.
          let now = sym (k.runs_grow j) ∙ waits in
          elim (Bool-cases (str_eq r.id j)) [
            | inl here ↦
                let (q, running) = s.owned j n step_running (sym (same j n) ∙ runs) in
                let gone = subst (λ x. run_state db x ≡ none) ((eq_iff r.id j).0 here) k.fresh in cc
            | inr away ↦ s.quiet j n (ground arith) (sym (same j n) ∙ runs)
          ];
      owned = λ j n t there.
          let (q, running) = s.owned j n t (sym (same j n) ∙ there) in
          elim (Bool-cases (str_eq r.id j)) [
            | inl here ↦ (r.state, k.runs_grow j ∙ ground arith)
            | inr away ↦ (q, k.runs_grow j ∙ ground arith)
          ];
      run_unheard = λ j start gone.
          let now = sym (k.runs_grow j) ∙ gone in
          rw (k.same_events) (s.run_unheard j start (ground arith));
      step_unheard =
          λ j n start gone. rw (k.same_events) (s.step_unheard j n start (sym (same j n) ∙ gone));
      run_told = λ j q running.
          let now = sym (k.runs_grow j) ∙ running in
          elim (Bool-cases (str_eq r.id j)) [
            | inl here ↦
                let is : run_queued ≡ q = ground arith in
                let gone = subst (λ x. run_state db x ≡ none) ((eq_iff r.id j).0 here) k.fresh in
                rw (k.same_events) (
                  s.run_unheard j (some (name_of_run run_queued)) gone
                  ∙ ap (λ x. some (name_of_run x)) is)
            | inr away ↦ rw (k.same_events) (s.run_told j q (ground arith))
          ];
      step_told = λ j n t there. rw (k.same_events) (s.step_told j n t (sym (same j n) ∙ there));
    }

-- A new step of a queued run.
pub StepInserted-Sound :
    (db db' : Db) (x : Step)
    → x.state ≡ step_pending
    → x.name ≢ ""
    → run_state db x.run_id ≡ some run_queued
    → StepInserted db x db'
    → Sound db
    → Sound db'
unfolding find_run
StepInserted-Sound db db' x pending named queued k s =
    let same : (j : String) → run_state db' j ≡ run_state db j = λ j. rw (k.same_runs) refl in
    record {
      keyed = k.keeps_keys named s.keyed;
      ended = λ j n q t running over there.
          let now = sym (k.steps_grow j n) ∙ there in
          let before = sym (same j) ∙ running in
          elim (Bool-cases (str_eq x.run_id j && str_eq x.name n)) [
            | inl here ↦
                let id_same : x.run_id ≡ j = ground (arith, eq_iff x.run_id j) in
                let waits = subst (λ y. run_state db y ≡ some run_queued) id_same queued in
                let is : run_queued ≡ q = ground arith in
                absurd (queued_open (subst (λ y. is_terminal_run y ≡ true) (sym is) over))
            | inr away ↦ s.ended j n q t before over (ground arith)
          ];
      quiet = λ j n waits runs.
          let now = sym (k.steps_grow j n) ∙ runs in
          elim (Bool-cases (str_eq x.run_id j && str_eq x.name n)) [
            | inl here ↦ absurd (ground arith)
            | inr away ↦ s.quiet j n (sym (same j) ∙ waits) (ground arith)
          ];
      owned = λ j n t there.
          let now = sym (k.steps_grow j n) ∙ there in
          elim (Bool-cases (str_eq x.run_id j && str_eq x.name n)) [
            | inl here ↦
                let id_same : x.run_id ≡ j = ground (arith, eq_iff x.run_id j) in
                (run_queued, same j ∙ subst (λ y. run_state db y ≡ some run_queued) id_same queued)
            | inr away ↦ let (q, running) = s.owned j n t (ground arith) in (q, same j ∙ running)
          ];
      run_unheard =
          λ j start gone. rw (k.same_events) (s.run_unheard j start (sym (same j) ∙ gone));
      step_unheard = λ j n start gone.
          let now = sym (k.steps_grow j n) ∙ gone in
          rw (k.same_events) (s.step_unheard j n start (ground arith));
      run_told = λ j q running. rw (k.same_events) (s.run_told j q (sym (same j) ∙ running));
      step_told = λ j n t there.
          let now = sym (k.steps_grow j n) ∙ there in
          elim (Bool-cases (str_eq x.run_id j && str_eq x.name n)) [
            | inl here ↦
                let id_same : x.run_id ≡ j = ground (arith, eq_iff x.run_id j) in
                let name_same : x.name ≡ n = ground (arith, eq_iff x.name n) in
                let gone : step_state db j n ≡ none = rw (← id_same, ← name_same) k.fresh in
                let is : step_pending ≡ t = ground arith in
                rw (k.same_events) (
                  s.step_unheard j n (some "pending") gone
                  ∙ pending_name
                  ∙ ap (λ y. some (name_of_step y)) is)
            | inr away ↦ rw (k.same_events) (s.step_told j n t (ground arith))
          ];
    }
