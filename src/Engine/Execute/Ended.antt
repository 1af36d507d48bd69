-- ===== src/Engine/Execute/Ended.antt =====
-- What `ExecuteRun` of internal/engine leaves: tables that calls of the store made of sound ones, and,
-- when it answers with a state, the run in that state, at its end.
use pulseq.Prelude.{
  ℕ, Bool, true, ◌≡◌, refl, subst, sym, String, Option, none, some, arith, inl, inr, ◌⊎◌,
}
use pulseq.Model.State.{
  RunState, run_running, run_cancelled, StepState, is_terminal_step, is_terminal_run,
}
use pulseq.Store.Rows.{Db, find_run, find_step}
use pulseq.Store.Tx.{done}
use pulseq.Store.Writes.{steps_of}
use pulseq.Store.Claim.{claim_run}
use pulseq.Store.Finish.{FinishReason}
use pulseq.Store.Trail.{run_state, step_state}
use pulseq.Store.Trail.Finish.{finish_run-lands}
use pulseq.Store.Trail.Claims.{NoneRunning, claim_run-Claimed, claim_from_queue}
use pulseq.Store.Calls.{HeedfulCalls, none_yet, finished, claimed}
use pulseq.Store.Invariant.{Sound}
use pulseq.Engine.Verdict.{finish_reason}
use pulseq.Engine.Acts.{Course, went, halted}
use pulseq.Engine.Acts.Rules.{
  Reached, any_step, no_step, Reached-Call, weaken, Leaves, through, stopped, >>=-Leaves,
  >>=-Reached, demand_some-Leaves, look-Leaves, transact-Leaves, others-Leaves,
}
use pulseq.Engine.Attempt.{Engine, FrozenJob}
use pulseq.Engine.Execute as X
use pulseq.Engine.Execute.{
  Round, Closing, World, Exit, drained, Answer, still_running, skip_outcome, step_by_name,
  zero_step, skip_steps, skip_pending, observe_cancel, sit_out, wait_for_retry, answer, take_step,
  heed, one_round, or_again, loop, close_run, drive, execute_run,
}
use pulseq.Engine.Execute.Reached.{Broken, After, Ended, skip_pending-Reached, loop-After}

module _ (e : Engine) (id : String) (start : Db) where
  close_run-Ended :
      (out_of_time : Bool) (c : Closing) (db : Db)
      → Reached id no_step start db
      → Leaves (Broken e id start) (λ s db'. Ended id start s db') (close_run e id out_of_time c db)
  unfolding close_run
  close_run-Ended out_of_time c db h =
      >>=-Reached no_step _ _ db (others-Leaves c.before db h) (λ _ db1 h1.
        >>=-Reached no_step _ _ db1 (skip_pending-Reached e id start c db1 h1) (λ _ db2 h2.
          >>=-Reached no_step _ _ db2
            (look-Leaves c.steps_answer (λ x. steps_of x id) db2 (weaken h2) h2)
            (λ rows db3 h3.
              let fr : FinishReason = finish_reason e.marshal rows out_of_time in
              transact-Leaves e.writable c.finish_weather _ db3 (weaken h3) (λ s db' ran.
                let (lands, terminal) =
                  finish_run-lands c.finished_at id e.owner fr db3 db' s ran in
                record {
                  reached =
                      Reached-Call any_step h3.by_calls h3.sound
                        (finished c.finished_at id e.owner fr s ran) tt
                        (λ n m. absurd (ground arith));
                  lands = lands;
                  terminal = terminal;
                }))))

  -- What the executor's answer says of the tables: with a state, the run has ended in it.
  abbrev pub Answered : Answer → Db → Type 0
  Answered (X.ended s) db = Ended id start s db
  Answered still_running db = Reached id no_step start db

  answer-Answered :
      (w : World) (exit : Option Exit) (db : Db)
      → After e id start exit db
      → Leaves (Broken e id start) Answered (answer e id w exit db)
  unfolding answer
  answer-Answered w none db h = through h
  answer-Answered w (some X.observed) db h = through h
  answer-Answered w (some (drained b)) db h =
      >>=-Leaves _ _ db (close_run-Ended b w.closing db h) (λ s db1 h1. through h1)

  drive-Answered :
      (fuel : ℕ) (job : FrozenJob) (w : World) (db : Db)
      → Reached id no_step start db
      → Leaves (Broken e id start) Answered (drive e fuel id job w run_running db)
  unfolding drive
  drive-Answered fuel job w db h =
      >>=-Leaves _ _ db (loop-After e id start fuel 0 job _ w.rounds db h)
        (λ exit db1 h1. answer-Answered w exit db1 h1)

  -- What a claim leaves: a run that is to be driven, or one that was cancelled before it started.
  abbrev Taken : RunState → Db → Type 0
  Taken s db =
      ((s ≡ run_running) × Reached id no_step start db)
      ⊎ ((s ≡ run_cancelled) × Ended id start run_cancelled db)

  claim-Taken :
      (w : World) (db db' : Db) (s : RunState)
      → Reached id any_step start db
      → claim_run w.claimed_at id e.owner e.lease_ttl db ≡ done s db'
      → Taken s db'
  unfolding is_terminal_run find_step
  claim-Taken w db db' s h ran =
      let queued = claim_from_queue w.claimed_at id e.owner e.lease_ttl db db' s ran in
      let idle : NoneRunning db id = λ n. h.sound.quiet id n queued in
      let c =
        claim_run-Claimed w.claimed_at id e.owner e.lease_ttl db db' s h.sound.keyed idle ran in
      let call = claimed w.claimed_at id e.owner e.lease_ttl s ran in
      elim c.outcome [
        | inl (runs, same) ↦ inl (
          runs,
          Reached-Call no_step h.by_calls h.sound call tt
              (λ n _ moves. idle n (let k = rw same at moves in k)),
        )
        | inr cancels ↦ inr (
          cancels,
          record {
            reached =
                Reached-Call any_step h.by_calls h.sound call tt (λ n m. absurd (ground arith));
            lands = subst (λ x. run_state db' id ≡ some x) cancels c.lands;
            terminal = refl;
          },
        )
      ]

  drive-Answered-Taken :
      (fuel : ℕ) (job : FrozenJob) (w : World) (s : RunState) (db : Db)
      → Taken s db
      → Leaves (Broken e id start) Answered (drive e fuel id job w s db)
  unfolding drive
  drive-Answered-Taken fuel job w s db (inl (runs, h)) =
      subst (λ x. Leaves (Broken e id start) Answered (drive e fuel id job w x db)) (sym runs)
        (drive-Answered fuel job w db h)
  drive-Answered-Taken fuel job w s db (inr (cancels, h)) =
      subst (λ x. Leaves (Broken e id start) Answered (drive e fuel id job w x db)) (sym cancels)
        (through h)

  execute_run-Answered :
      (fuel : ℕ) (w : World)
      → Sound start
      → Leaves (Broken e id start) Answered (execute_run e fuel id w start)
  unfolding execute_run
  execute_run-Answered fuel w sound =
      let h : Broken e id start start = record {
        by_calls = (none_yet, tt);
        sound = sound;
        idle = λ n m. absurd (ground arith);
      } in
      >>=-Reached any_step _ _ start (look-Leaves w.run_answers (λ x. find_run x id) start h h)
        (λ found db1 h1.
          >>=-Reached any_step _ _ db1 (demand_some-Leaves found _ db1 h1 (λ _ _. h1))
            (λ run db2 h2.
              >>=-Reached any_step _ _ db2 (demand_some-Leaves _ _ db2 h2 (λ _ _. h2))
                (λ job db3 h3.
                  >>=-Reached any_step _ _ db3 (others-Leaves w.early db3 h3) (λ _ db4 h4.
                    >>=-Leaves {between = Taken} _ _ db4
                      (transact-Leaves e.writable w.claim_weather _ db4 h4
                        (λ s db' ran. claim-Taken w db4 db' s h4 ran))
                      (λ s db5 taken. drive-Answered-Taken fuel job w s db5 taken)))))

-- What is in the tables when the executor is through or has stopped.
abbrev pub tables : Course Answer → Db
tables (went a db) = db
tables (halted t db) = db

-- However `ExecuteRun` ends, with an answer, with an error at any call or in the process, its log or the
-- delay's draw, or with its fuel: from sound tables it made only committed calls of the store that heed what callers are
-- to heed (`Heeds`), so the tables are sound, whatever others request meanwhile.
pub execute_run-Sound :
    (e : Engine) (fuel : ℕ) (id : String) (w : World) (db : Db)
    → Sound db
    → HeedfulCalls db (tables (execute_run e fuel id w db))
      × Sound (tables (execute_run e fuel id w db))
execute_run-Sound e fuel id w db sound =
    split (execute_run e fuel id w db) (execute_run-Answered e id db fuel w sound)
  where
    split :
        (c : Course Answer)
        → Leaves (Broken e id db) (Answered e id db) c
        → HeedfulCalls db (tables c) × Sound (tables c)
    split (went (X.ended s) db') (through h) = (h.reached.by_calls, h.reached.sound)
    split (went still_running db') (through h) = (h.by_calls, h.sound)
    split (halted t db') (stopped h) = (h.by_calls, h.sound)

-- When `ExecuteRun` answers with a state, from sound tables, the run is in that state, which is
-- terminal, and every step of the run has ended.
pub execute_run_lem :
    (e : Engine) (fuel : ℕ) (id : String) (w : World) (db db' : Db) (s : RunState)
    → Sound db
    → execute_run e fuel id w db ≡ went (X.ended s) db'
    → (run_state db' id ≡ some s)
      × (is_terminal_run s ≡ true)
      × ((name : String) (t : StepState)
          → step_state db' id name ≡ some t
          → is_terminal_step t ≡ true)
execute_run_lem e fuel id w db db' s sound h = split (
    subst (Leaves (Broken e id db) (Answered e id db)) h
      (execute_run-Answered e id db fuel w sound))
  where
    split :
        Leaves (Broken e id db) (Answered e id db) (went (X.ended s) db')
        → (run_state db' id ≡ some s)
          × (is_terminal_run s ≡ true)
          × ((name : String) (t : StepState)
              → step_state db' id name ≡ some t
              → is_terminal_step t ≡ true)
    split (through k) =
        (k.lands, k.terminal, λ name t. k.reached.sound.ended id name s t k.lands k.terminal)
