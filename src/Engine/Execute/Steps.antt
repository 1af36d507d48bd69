-- ===== src/Engine/Execute/Steps.antt =====
-- One attempt of a step, as `runStep` of internal/engine makes it, leaves no step of the run running.
use pulseq.Prelude.{
  ℕ, ◌+◌, Bool, true, ◌≡◌, ◌≢◌, refl, ◌∙◌, String, Option, some, str_eq, Bool-cases, Option-cases,
  inl, inr, arith, eq_refl,
}
use pulseq.Prelude.Int.{ℤ, pos}
use pulseq.Model.State.{ev_step_started}
use pulseq.Retry.{delay}
use pulseq.Store.Rows.{Db, find_run}
use pulseq.Store.Tx.{done}
use pulseq.Store.Writes.{steps_of}
use pulseq.Store.StepMoves.{StepOutcome, start_step, record_step_outcome}
use pulseq.Store.Trail.{step_state}
use pulseq.Store.Trail.Steps.{start_step-moves, record_step_outcome-moves}
use pulseq.Store.Calls.{started, ended}
use pulseq.Engine.Policy.{RetryBlock, retry_policy_of}
use pulseq.Engine.Verdict.{Result}
use pulseq.Engine.Verdict.Accepted.{verdict_shape}
use pulseq.Engine.Acts.Rules.{
  Reached, any_step, no_step, Reached-Call, weaken, Leaves, through, >>=-Leaves, demand-Leaves,
  demand_some-Leaves, look-Leaves, >>=-Reached, transact-Leaves, others-Leaves,
}
use pulseq.Engine.Attempt.{
  Engine, FrozenStep, StepWorld, effective_timeout, failed_outcome, recorded_outcome,
  observed_outcome, row_before, run_step,
}

module _ (e : Engine) where
  failed_outcome_event :
      (out : StepOutcome) (res : Result) (attempt max_attempts : ℕ) (block : Option RetryBlock)
      (timeout : ℤ) (cut : Bool) (w : StepWorld) (out' : StepOutcome)
      → failed_outcome e out res attempt max_attempts block timeout cut w ≡ some out'
      → out'.event ≡ out.event
  unfolding failed_outcome
  failed_outcome_event out res attempt max_attempts block timeout cut w out' h =
      ground (arith, Option-cases (delay (retry_policy_of block) (pos attempt) w.random))

  -- The details and the plan that `runStep` adds leave the verdict's event as it is.
  pub recorded_outcome_event :
      (out : StepOutcome) (res : Result) (attempt max_attempts : ℕ) (block : Option RetryBlock)
      (timeout : ℤ) (cut : Bool) (w : StepWorld) (out' : StepOutcome)
      → recorded_outcome e out res attempt max_attempts block timeout cut w ≡ some out'
      → out'.event ≡ out.event
  unfolding recorded_outcome
  recorded_outcome_event out res attempt max_attempts block timeout cut w out' h =
      ground (arith, failed_outcome_event out res attempt max_attempts block timeout cut w out')

  -- What `runStep` records is never a start.
  recorded_outcome_starts_nothing :
      (res : Result) (attempt max_attempts : ℕ) (block : Option RetryBlock) (timeout : ℤ)
      (cut : Bool) (w : StepWorld) (out : StepOutcome)
      → recorded_outcome e (observed_outcome e res w) res attempt max_attempts block timeout cut w
        ≡ some out
      → out.event ≢ ev_step_started
  unfolding observed_outcome
  recorded_outcome_starts_nothing res attempt max_attempts block timeout cut w out h =
      let same =
        recorded_outcome_event (observed_outcome e res w) res attempt max_attempts block timeout cut
          w out h in
      let (which, _) = verdict_shape e.marshal res w.tail w.bytes w.truncated res.outcome refl in
      λ k. ground (arith)

module _ (id : String) (start : Db) where
  -- Behind a start, no step but the one that was started is running.
  start-Reached :
      (now : ℕ) (name : String) (db db' : Db)
      → Reached id no_step start db
      → start_step now id name db ≡ done tt db'
      → Reached id (str_eq name) start db'
  start-Reached now name db db' h ran =
      let (_, moves) = start_step-moves now id name db db' h.sound.keyed ran in
      Reached-Call (str_eq name) h.by_calls h.sound (started now id name ran) tt (λ n other.
        let same : step_state db' id n ≡ step_state db id n =
          moves id n ∙ rw (other, eq_refl id) refl in
        rw same (h.idle n refl))

  -- Behind an outcome, the step that was running is not.
  pub outcome-Reached :
      (now : ℕ) (name : String) (out : StepOutcome) (db db' : Db)
      → out.event ≢ ev_step_started
      → Reached id (str_eq name) start db
      → record_step_outcome now id name out db ≡ done tt db'
      → Reached id no_step start db'
  outcome-Reached now name out db db' other h ran =
      let (_, (to, still, moves)) =
        record_step_outcome-moves now id name out db db' h.sound.keyed other ran in
      Reached-Call no_step h.by_calls h.sound (ended now id name out ran) other (λ n _.
        elim (Bool-cases (str_eq name n)) [
          | inl mine ↦
              let at : step_state db' id n ≡ some to = moves id n ∙ rw (mine, eq_refl id) refl in
              λ k. still (ground arith)
          | inr theirs ↦
              let same : step_state db' id n ≡ step_state db id n =
                moves id n ∙ rw (theirs, eq_refl id) refl in
              rw same (h.idle n theirs)
        ])

  -- An attempt that goes through leaves no step running, and one that stops leaves sound tables.
  pub run_step-Reached :
      (e : Engine) (name : String) (st : FrozenStep) (deadline : Option ℕ) (w : StepWorld) (db : Db)
      → Reached id no_step start db
      → Leaves
          (Reached id any_step start)
          (λ _ db'. Reached id no_step start db')
          (run_step e id name st deadline w db)
  unfolding run_step
  run_step-Reached e name st deadline w db h =
      >>=-Reached no_step _ _ db (look-Leaves w.reads (λ x. find_run x id) db (weaken h) h)
        (λ current db1 h1.
          >>=-Reached no_step _ _ db1 (demand_some-Leaves current _ db1 (weaken h1) (λ _ _. h1))
            (λ run db2 h2.
              >>=-Reached no_step _ _ db2 (look-Leaves true (λ x. steps_of x id) db2 (weaken h2) h2)
                (λ rows db3 h3.
                  >>=-Reached (str_eq name) _ _ db3
                    (transact-Leaves e.writable w.start_weather _ db3 (weaken h3)
                      (λ _ db' ran. start-Reached w.started_at name db3 db' h3 ran))
                    (λ _ db4 h4.
                      >>=-Reached (str_eq name) _ _ db4
                        (demand-Leaves w.log_opens _ db4 (weaken h4) h4)
                        (λ _ db5 h5.
                          >>=-Reached (str_eq name) _ _ db5 (others-Leaves w.meanwhile db5 h5)
                            (λ _ db6 h6.
                              >>=-Reached (str_eq name) _ _ db6
                                (demand-Leaves w.log_closes _ db6 (weaken h6) h6)
                                (λ _ db7 h7.
                                  >>=-Reached (str_eq name) _ _ db7
                                    (demand-Leaves w.spawns _ db7 (weaken h7) h7)
                                    (λ _ db8 h8.
                                      let attempt = (row_before name rows).0 + 1 in
                                      let max_attempts = (row_before name rows).1 in
                                      let budget = effective_timeout st.timeout deadline w.clock in
                                      let res = w.process budget.0 in
                                      >>=-Leaves
                                        {between = λ out mid.
                                          (out.event ≢ ev_step_started)
                                          × Reached id (str_eq name) start mid}
                                        _ _ db8
                                        (demand_some-Leaves _ _ db8 (weaken h8) (λ out found. (
                                          recorded_outcome_starts_nothing e res attempt max_attempts
                                              st.retry budget.0 budget.1 w out found,
                                          h8,
                                        )))
                                        (λ out db9 (other, h9).
                                          >>=-Reached no_step _ _ db9
                                            (transact-Leaves e.writable w.record_weather _ db9
                                              (weaken h9)
                                              (λ _ db' ran.
                                                outcome-Reached w.recorded_at name out db9 db' other
                                                  h9 ran))
                                            (λ _ db10 h10. through h10))))))))))
