-- ===== src/Engine/Execute/Reached.antt =====
-- What the loop of `ExecuteRun` of internal/engine leaves, round by round: no step of the run running, or the
-- run cancelled.
use pulseq.Prelude.{
  ℕ, suc, zero, Bool, true, false, ◌≡◌, refl, String, List, [], ◌∷◌, Option, none, some,
  if◌then◌else◌, arith,
}
use pulseq.Model.State.{RunState, run_cancelled, is_terminal_run}
use pulseq.Store.Rows.{Db, Step}
use pulseq.Store.Tx.{Attempt}
use pulseq.Store.Queue.{next_runnable_step, next_retry_wait, pending_steps}
use pulseq.Store.Finish.{cancel_requested}
use pulseq.Store.Trail.{run_state}
use pulseq.Store.Trail.Cancels.{observe_run_cancel-lands}
use pulseq.Store.Trail.Claims.{NoneRunning}
use pulseq.Store.Calls.{observed}
use pulseq.Engine.Acts.{Act}
use pulseq.Engine.Acts.Rules.{
  Reached, any_step, no_step, Reached-Call, weaken, at_rest, Leaves, through, >>=-Leaves,
  >>=-Reached, demand-Leaves, demand_some-Leaves, look-Leaves, transact-Leaves, others-Leaves,
}
use pulseq.Engine.Attempt.{Engine, FrozenJob}
use pulseq.Engine.Execute as X
use pulseq.Engine.Execute.{
  Round, Closing, World, Exit, drained, Answer, still_running, skip_outcome, step_by_name,
  zero_step, skip_steps, skip_pending, observe_cancel, sit_out, wait_for_retry, answer, take_step,
  heed, one_round, or_again, loop, close_run, drive, execute_run,
}
use pulseq.Engine.Execute.Steps.{outcome-Reached, run_step-Reached}

-- A run that has ended, in a state.
pub record Ended (id : String) (start : Db) (s : RunState) (db : Db) : Type 0 where
  pub reached : Reached id any_step start db
  pub lands : run_state db id ≡ some s
  pub terminal : is_terminal_run s ≡ true

module _ (e : Engine) (id : String) (start : Db) where
  abbrev pub Broken : Db → Type 0
  Broken db = Reached id any_step start db

  abbrev pub Steady : {A : Type 0} → A → Db → Type 0
  Steady _ db = Reached id no_step start db

  skip_steps-Reached :
      (at : ℕ) (weather : ℕ → ℕ → Attempt) (i : ℕ) (rows : List Step) (db : Db)
      → Reached id no_step start db
      → Leaves Broken Steady (skip_steps e id at weather i rows db)
  unfolding skip_steps
  skip_steps-Reached at weather i [] db h = through h
  skip_steps-Reached at weather i (s ∷ rest) db h =
      >>=-Reached no_step _ _ db
        (transact-Leaves e.writable (weather i) _ db (weaken h) (λ _ db' ran.
          outcome-Reached id start at s.name (skip_outcome at) db db' (λ k. cc) (at_rest h) ran))
        (λ _ db1 h1. skip_steps-Reached at weather (suc i) rest db1 h1)

  pub skip_pending-Reached :
      (c : Closing) (db : Db)
      → Reached id no_step start db
      → Leaves Broken Steady (skip_pending e id c db)
  unfolding skip_pending
  skip_pending-Reached c db h =
      >>=-Reached no_step _ _ db (look-Leaves c.pending_answers (pending_steps id) db (weaken h) h)
        (λ pending db1 h1. skip_steps-Reached c.skipped_at c.skip_weather 0 pending db1 h1)

  observe_cancel-Ended :
      (by : String) (r : Round) (db : Db)
      → Reached id no_step start db
      → Leaves Broken (λ _ db'. Ended id start run_cancelled db') (observe_cancel e id by r db)
  unfolding observe_cancel is_terminal_run
  observe_cancel-Ended by r db h =
      let idle : NoneRunning db id = λ n. h.idle n refl in
      transact-Leaves e.writable r.cancel_weather _ db (weaken h) (λ _ db' ran. record {
        reached =
            Reached-Call any_step h.by_calls h.sound
              (observed r.cancelled_at id e.owner by "RUN_CANCELLED_MANUAL" ran) idle
              (λ n m. absurd (ground arith));
        lands =
            (observe_run_cancel-lands r.cancelled_at id e.owner by "RUN_CANCELLED_MANUAL" db db'
              h.sound.keyed idle ran).1;
        terminal = refl;
      })

  -- How the loop is left.
  abbrev pub After : Option Exit → Db → Type 0
  After (some X.observed) db = Ended id start run_cancelled db
  After (some (drained b)) db = Reached id no_step start db
  After none db = Reached id no_step start db

  sit_out-After :
      (r : Round) (wait : Option ℕ) (db : Db)
      → Reached id no_step start db
      → Leaves Broken After (sit_out e r wait db)
  unfolding sit_out
  sit_out-After r none db h = through h
  sit_out-After r (some gap) db h =
      >>=-Reached no_step _ _ db (demand-Leaves _ _ db (weaken h) h) (λ _ db1 h1. through h1)

  wait_for_retry-After :
      (r : Round) (db : Db)
      → Reached id no_step start db
      → Leaves Broken After (wait_for_retry e id r db)
  unfolding wait_for_retry
  wait_for_retry-After r db h =
      >>=-Reached no_step _ _ db
        (look-Leaves r.wait_answers (next_retry_wait r.wait_at id) db (weaken h) h)
        (λ wait db1 h1. sit_out-After r wait db1 h1)

  out_of_time-After :
      (b : Bool) (db : Db)
      → Reached id no_step start db
      → After (if b then some (drained true) else none) db
  out_of_time-After true db h = h
  out_of_time-After false db h = h

  take_step-After :
      (job : FrozenJob) (deadline : Option ℕ) (r : Round) (next : Option String) (db : Db)
      → Reached id no_step start db
      → Leaves Broken After (take_step e id job deadline r next db)
  unfolding take_step
  take_step-After job deadline r none db h = wait_for_retry-After r db h
  take_step-After job deadline r (some name) db h =
      >>=-Reached no_step _ _ db
        (run_step-Reached id start e name (step_by_name name zero_step job.steps) deadline r.attempt
          db h)
        (λ b db1 h1. through (out_of_time-After b db1 h1))

  heed-After :
      (job : FrozenJob) (deadline : Option ℕ) (r : Round) (request : Bool × String) (db : Db)
      → Reached id no_step start db
      → Leaves Broken After (heed e id job deadline r request db)
  unfolding heed
  heed-After job deadline r (true, by) db h =
      >>=-Leaves _ _ db (observe_cancel-Ended by r db h) (λ _ db1 done_with. through done_with)
  heed-After job deadline r (false, by) db h =
      >>=-Reached no_step _ _ db
        (look-Leaves r.next_answers (next_runnable_step r.next-At id) db (weaken h) h)
        (λ next db1 h1. take_step-After job deadline r next db1 h1)

  one_round-After :
      (job : FrozenJob) (deadline : Option ℕ) (r : Round) (db : Db)
      → Reached id no_step start db
      → Leaves Broken After (one_round e id job deadline r db)
  unfolding one_round
  one_round-After job deadline r db h =
      >>=-Reached no_step _ _ db (others-Leaves r.before db h) (λ _ db1 h1.
        >>=-Reached no_step _ _ db1
          (look-Leaves r.poll_answers (cancel_requested id) db1 (weaken h1) h1)
          (λ poll db2 h2.
            >>=-Reached no_step _ _ db2 (demand_some-Leaves poll _ db2 (weaken h2) (λ _ _. h2))
              (λ request db3 h3. heed-After job deadline r request db3 h3)))

  or_again-After :
      (left : Option Exit) (again : Act (Option Exit)) (db : Db)
      → After left db
      → (Reached id no_step start db → Leaves Broken After (again db))
      → Leaves Broken After (or_again e left again db)
  or_again-After (some X.observed) again db h more = through h
  or_again-After (some (drained b)) again db h more = through h
  or_again-After none again db h more = more h

  pub loop-After :
      (fuel i : ℕ) (job : FrozenJob) (deadline : Option ℕ) (rounds : ℕ → Round) (db : Db)
      → Reached id no_step start db
      → Leaves Broken After (loop e fuel i id job deadline rounds db)
  unfolding loop
  loop-After zero i job deadline rounds db h = through h
  loop-After (suc fuel) i job deadline rounds db h =
      >>=-Leaves _ _ db (one_round-After job deadline (rounds i) db h) (λ left mid h1.
        or_again-After left _ mid h1 (λ h2. loop-After fuel (suc i) job deadline rounds mid h2))
