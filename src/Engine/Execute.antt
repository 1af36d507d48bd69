-- ===== src/Engine/Execute.antt =====
-- internal/engine/execute.go: `ExecuteRun`, which drives one run from the queue to its end, with
-- `skipPending` and `observeCancel`. The loop runs on fuel; what others do and when is a parameter
-- of each round.
pub mod Steps
pub mod Reached
pub mod Ended
use pulseq.Prelude.{
  ℕ, zero, suc, ◌+◌, Bool, true, false, not, String, List, [], ◌∷◌, Option, none, some,
  if◌then◌else◌, str_eq,
}
use pulseq.Prelude.Int.{ℤ, pos, ltb_ℤ, pos_part}
use pulseq.Model.State.{RunState, run_running, run_cancelled, ev_upstream_failed}
use pulseq.Store.Rows.{Run, Step, Db, find_run}
use pulseq.Store.Tx.{Attempt, run_not_found}
use pulseq.Store.Writes.{steps_of}
use pulseq.Store.Claim.{claim_run}
use pulseq.Store.StepMoves.{StepOutcome, record_step_outcome}
use pulseq.Store.Finish.{cancel_requested, observe_run_cancel, finish_run}
use pulseq.Store.Queue.{next_runnable_step, next_retry_wait, pending_steps}
use pulseq.Engine.Verdict.{finish_reason}
use pulseq.Engine.Acts.{
  Act, ◌>>=◌, ◌>>◌, pure, demand, demand_some, look, transact, others, Request, store_said,
  no_frozen_spec, interrupted,
}
use pulseq.Engine.Attempt.{Engine, FrozenStep, FrozenJob, StepWorld, run_step}

-- One round of the loop: what others ask for before it, and what becomes of its calls.
pub record Round : Type 0 where
  pub before : List Request
  pub poll_answers : Bool
  pub cancelled_at : ℕ
  pub cancel_weather : ℕ → Attempt
  pub next_answers : Bool
  pub next-At : ℕ
  pub wait_answers : Bool
  pub wait_at : ℕ
  pub context_done : Bool
  pub attempt : StepWorld

pub record Closing : Type 0 where
  pub before : List Request
  pub pending_answers : Bool
  pub skipped_at : ℕ
  pub skip_weather : ℕ → ℕ → Attempt
  pub steps_answer : Bool
  pub finished_at : ℕ
  pub finish_weather : ℕ → Attempt

pub record World : Type 0 where
  pub run_answers : Bool
  pub clock : ℕ
  pub early : List Request
  pub claimed_at : ℕ
  pub claim_weather : ℕ → Attempt
  pub rounds : ℕ → Round
  pub closing : Closing

-- How a round leaves the loop: the cancellation is observed, or nothing is left to run, because the
-- steps are through (false) or the run's deadline is (true).
pub data Exit : Type 0 where
  observed : Exit
  drained : Bool → Exit

-- The executor's answer, or that the fuel is out.
pub data Answer : Type 0 where
  ended : RunState → Answer
  still_running : Answer

-- `stepsByName[name]`: the last step of the name, or the zero value.
unfoldable pub step_by_name : String → FrozenStep → List FrozenStep → FrozenStep
step_by_name name d [] = d
step_by_name name d (s ∷ rest) = step_by_name name (if str_eq s.name name then s else d) rest

abbrev pub zero_step : FrozenStep
zero_step = record { name = ""; timeout = pos 0; retry = none }

abbrev deadline_of : ℕ → FrozenJob → Option ℕ
deadline_of now job = if ltb_ℤ (pos 0) job.timeout then some (now + pos_part job.timeout) else none

-- The outcome of a step whose upstream did not succeed.
abbrev pub skip_outcome : ℕ → StepOutcome
skip_outcome at = record {
  event = ev_upstream_failed;
  reason_code = "STEP_SKIPPED_UPSTREAM_FAILED";
  exit_code = none;
  signal = "";
  finished_at = some at;
  log_meta = record { rel_path = ""; bytes = 0; truncated = false; error_tail = "" };
  detail_json = "";
  retry = none;
}

module _ (e : Engine) where
  -- The loop of `skipPending`, from one step on.
  unfoldable pub skip_steps : String → ℕ → (ℕ → ℕ → Attempt) → ℕ → List Step → Act (Unit {0})
  unfolding record_step_outcome
  skip_steps id at weather i [] = pure tt
  skip_steps id at weather i (s ∷ rest) =
      transact e.writable (weather i) (record_step_outcome at id s.name (skip_outcome at))
      >> skip_steps id at weather (suc i) rest

  -- `skipPending`.
  unfoldable pub skip_pending : String → Closing → Act (Unit {0})
  unfolding pending_steps skip_steps
  skip_pending id c = do
    pending ← look c.pending_answers (pending_steps id)
    skip_steps id c.skipped_at c.skip_weather 0 pending

  -- `observeCancel`, which names who asked.
  unfoldable pub observe_cancel : String → String → Round → Act (Unit {0})
  unfolding observe_run_cancel
  observe_cancel id by r =
      transact e.writable r.cancel_weather
        (observe_run_cancel r.cancelled_at id e.owner by "RUN_CANCELLED_MANUAL")

  -- Nothing is runnable: a parked retry is waited for, or the loop is through.
  unfoldable pub sit_out : Round → Option ℕ → Act (Option Exit)
  sit_out r none = pure (some (drained false))
  sit_out r (some gap) = demand (not r.context_done) interrupted >> pure none

  unfoldable pub wait_for_retry : String → Round → Act (Option Exit)
  unfolding next_retry_wait sit_out
  wait_for_retry id r = do wait ← look r.wait_answers (next_retry_wait r.wait_at id); sit_out r wait

  -- The step that is runnable is run; a spent budget of the run ends the loop.
  unfoldable pub take_step :
      String → FrozenJob → Option ℕ → Round → Option String → Act (Option Exit)
  unfolding wait_for_retry step_by_name run_step
  take_step id job deadline r none = wait_for_retry id r
  take_step id job deadline r (some name) = do
    out_of_time ← run_step e id name (step_by_name name zero_step job.steps) deadline r.attempt
    pure (if out_of_time then some (drained true) else none)

  -- A waiting request is observed, and otherwise the next step is taken.
  unfoldable pub heed : String → FrozenJob → Option ℕ → Round → Bool × String → Act (Option Exit)
  unfolding observe_cancel next_runnable_step take_step
  heed id job deadline r (true, by) = observe_cancel id by r >> pure (some observed)
  heed id job deadline r (false, by) = do
    next ← look r.next_answers (next_runnable_step r.next-At id)
    take_step id job deadline r next

  -- One round of the loop; `none` goes round again.
  unfoldable pub one_round : String → FrozenJob → Option ℕ → Round → Act (Option Exit)
  unfolding cancel_requested heed
  one_round id job deadline r = do
    others r.before
    poll ← look r.poll_answers (cancel_requested id)
    request ← demand_some poll (store_said run_not_found)
    heed id job deadline r request

  -- The loop is left, or goes round again.
  abbrev pub or_again : Option Exit → Act (Option Exit) → Act (Option Exit)
  or_again (some exit) again = pure (some exit)
  or_again none again = again

  unfoldable pub loop : ℕ → ℕ → String → FrozenJob → Option ℕ → (ℕ → Round) → Act (Option Exit)
  unfolding one_round
  loop zero i id job deadline rounds = pure none
  loop (suc fuel) i id job deadline rounds =
      let again = loop fuel (suc i) id job deadline rounds in
      one_round id job deadline (rounds i) >>= λ left. or_again left again

  -- What follows the loop: the steps that never became runnable are skipped and the run is finished.
  unfoldable pub close_run : String → Bool → Closing → Act RunState
  unfolding skip_pending steps_of finish_reason finish_run
  close_run id out_of_time c = do
    others c.before
    skip_pending id c
    rows ← look c.steps_answer (λ db. steps_of db id)
    transact e.writable c.finish_weather
        (finish_run c.finished_at id e.owner (finish_reason e.marshal rows out_of_time))

  -- What the executor answers, by how the loop was left.
  unfoldable pub answer : String → World → Option Exit → Act Answer
  unfolding close_run
  answer id w none = pure still_running
  answer id w (some observed) = pure (ended run_cancelled)
  answer id w (some (drained out_of_time)) = do
    state ← close_run id out_of_time w.closing
    pure (ended state)

  -- From the claim on.
  unfoldable pub drive : ℕ → String → FrozenJob → World → RunState → Act Answer
  unfolding loop answer
  drive fuel id job w run_cancelled = pure (ended run_cancelled)
  drive fuel id job w _ = do
    exit ← loop fuel 0 id job (deadline_of w.clock job) w.rounds
    answer id w exit

  -- `ExecuteRun`, on a full id.
  unfoldable pub execute_run : ℕ → String → World → Act Answer
  unfolding find_run claim_run drive
  execute_run fuel id w = do
    found ← look w.run_answers (λ db. find_run db id)
    run ← demand_some found (store_said run_not_found)
    job ← demand_some (e.frozen_spec run.job_version_id) no_frozen_spec
    others w.early
    state ← transact e.writable w.claim_weather (claim_run w.claimed_at id e.owner e.lease_ttl)
    drive fuel id job w state
