-- ===== src/Store/Finish/Verdict.antt =====
-- What the loop of `FinishRun` in internal/store/transitions.go reads off the steps of a run.
use pulseq.Prelude.{
  ◌≡◌, refl, ◌∙◌, Bool, true, false, ◌&&◌, ◌||◌, String, List, [], ◌∷◌, some, arith,
}
use pulseq.Model.State.{is_terminal_step}
use pulseq.Model.Errors as Model
use pulseq.Model.Parse.RoundTrip.{parse_step_state-name}
use pulseq.Store.Table.{find, select}
use pulseq.Store.Rows.{Step, Db, has_key, find_step}
use pulseq.Store.Writes.{insert_by_idx, order_by_idx, of_run_id, steps_of}
use pulseq.Store.Finish.{StepFlags, note_step, scan_flags, ends_run_failed}

unfoldable pub every_step : (Step → Bool) → List Step → Bool
every_step p [] = true
every_step p (s ∷ rest) = p s && every_step p rest

unfoldable pub some_step : (Step → Bool) → List Step → Bool
some_step p [] = false
some_step p (s ∷ rest) = p s || some_step p rest

abbrev pub has_ended : Step → Bool
has_ended s = is_terminal_step s.state

abbrev pub has_failed : Step → Bool
has_failed s = ends_run_failed s.state

-- The loop computes two questions: have all steps ended, and did one fail or get cancelled.
pub scan_flags_lem :
    (f : StepFlags) (steps : List Step)
    → scan_flags f steps
      ≡ Model.ok (record {
        all_terminal = f.all_terminal && every_step has_ended steps;
        any_failed = f.any_failed || some_step has_failed steps;
      })
unfolding scan_flags every_step some_step
scan_flags_lem f [] = ground arith
scan_flags_lem f (s ∷ rest) =
    rw (parse_step_state-name s.state, scan_flags)
      (scan_flags_lem (note_step f s.state) rest ∙ ground arith)

every-insert_by_idx :
    (p : Step → Bool) (s : Step) (xs : List Step)
    → every_step p (insert_by_idx s xs) ≡ (p s && every_step p xs)
unfolding insert_by_idx every_step
every-insert_by_idx p s [] = refl
every-insert_by_idx p s (x ∷ xs) = ground (arith, every-insert_by_idx p s xs)

every-order_by_idx :
    (p : Step → Bool) (xs : List Step) → every_step p (order_by_idx xs) ≡ every_step p xs
unfolding order_by_idx every_step
every-order_by_idx p [] = refl
every-order_by_idx p (x ∷ xs) =
    every-insert_by_idx p x (order_by_idx xs) ∙ rw (every-order_by_idx p xs)

every-find :
    (p : Step → Bool) (run_id name : String) (rows : List Step) (s : Step)
    → every_step p (select (of_run_id run_id) rows) ≡ true
    → find (has_key run_id name) rows ≡ some s
    → p s ≡ true
unfolding every_step select find
every-find p run_id name [] s h e = cc
every-find p run_id name (x ∷ rows) s h e = ground (arith, every-find p run_id name rows s)

-- If every step that `FinishRun` reads passes a test, so does each step that the run has.
pub every_step_of :
    (p : Step → Bool) (db : Db) (run_id name : String) (s : Step)
    → every_step p (steps_of db run_id) ≡ true
    → find_step db run_id name ≡ some s
    → p s ≡ true
unfolding steps_of find_step
every_step_of p db run_id name s h e =
    every-find p run_id name db.steps s
      (rw (every-order_by_idx p (select (of_run_id run_id) db.steps)) at h) e
