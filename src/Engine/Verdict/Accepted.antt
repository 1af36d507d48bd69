-- ===== src/Engine/Verdict/Accepted.antt =====
-- What the executor hands to the store is what the machines accept.
use pulseq.Prelude.{
  ◌⊎◌, ◌≡◌, ◌≢◌, ◌↔◌, refl, ℕ, Bool, true, false, String, List, [], ◌∷◌, Option, none, arith,
  eq_iff, Bool-cases, inl, inr,
}
use pulseq.Model.State.{
  StepState, step_running, step_pending, step_failed, step_cancelled, step_succeeded, step_skipped,
  ev_step_succeeded, ev_step_failed, ev_cancel_observed, is_terminal_step,
}
use pulseq.Model.StepFsm.{next_step_state}
use pulseq.Store.Rows.{Step}
use pulseq.Store.StepMoves.{outcome_guards}
use pulseq.Store.Finish.Verdict.{some_step, has_failed}
use pulseq.Engine.Verdict.{
  Outcome, succeeded, failed, timed_out, spawn_failed, signalled, Value, Result, marked_true,
  verdict_for, reason_of_steps, finish_reason,
}

module _ (marshal : List (String × Value) → Option String) where
  pub verdict_shape :
      (res : Result) (tail : String) (bytes : ℕ) (truncated : Bool) (o : Outcome)
      → res.outcome ≡ o
      → let out = verdict_for marshal res tail bytes truncated in
        ((out.event ≡ ev_step_succeeded)
          ⊎ ((out.event ≡ ev_step_failed) ⊎ (out.event ≡ ev_cancel_observed)))
        × (out.reason_code ≢ "")
  unfolding verdict_for
  verdict_shape res tail bytes truncated succeeded e =
      rw e ((inl refl, λ h. ground (arith, eq_iff "STEP_SUCCEEDED" "")))
  verdict_shape res tail bytes truncated failed e =
      rw e ((inr (inl refl), λ h. ground (arith, eq_iff "STEP_FAILED_NONZERO_EXIT" "")))
  verdict_shape res tail bytes truncated timed_out e =
      rw e ((inr (inl refl), λ h. ground (arith, eq_iff "STEP_FAILED_TIMEOUT" "")))
  verdict_shape res tail bytes truncated spawn_failed e =
      rw e ((inr (inl refl), λ h. ground (arith, eq_iff "STEP_FAILED_SPAWN" "")))
  verdict_shape res tail bytes truncated signalled e =
      elim (Bool-cases (marked_true "cancelled" res.reason_data)) [
        | inl m ↦ rw (e, m) ((inr (inr refl), λ h. ground (arith, eq_iff "STEP_CANCELLED" "")))
        | inr m ↦ rw (e, m) ((inr (inl refl), λ h. ground (arith, eq_iff "STEP_FAILED_SIGNAL" "")))
      ]

  -- The verdict itself plans no further attempt.
  pub verdict_plans_nothing :
      (res : Result) (tail : String) (bytes : ℕ) (truncated : Bool)
      → (verdict_for marshal res tail bytes truncated).retry ≡ none
  unfolding verdict_for
  verdict_plans_nothing res tail bytes truncated = ground arith

  -- A running step accepts every verdict of the executor, and the verdict either ends the step or,
  -- if the step has an attempt left, puts it back to pending.
  pub verdict_accepted :
      (s : Step) (res : Result) (tail : String) (bytes : ℕ) (truncated : Bool)
      → s.state ≡ step_running
      → let out = verdict_for marshal res tail bytes truncated in
        let o = next_step_state s.state out.event (outcome_guards s out) in
        (o.error ≡ none)
        × (((o.state ≡ step_pending) × ((outcome_guards s out).attempts_left ≡ true))
            ⊎ (is_terminal_step o.state ≡ true))
  unfolding next_step_state is_terminal_step
  verdict_accepted s res tail bytes truncated running =
      let out = verdict_for marshal res tail bytes truncated in
      let (which, coded) = verdict_shape res tail bytes truncated res.outcome refl in
      ground (arith, eq_iff out.reason_code "")

  abbrev Blames : List Step → Type 0
  Blames steps =
      ((finish_reason marshal steps false).code ≢ "RUN_SUCCEEDED")
      ↔ (some_step has_failed steps ≡ true)

  blame-cons :
      (s : Step) (rest : List Step) (t : StepState) → s.state ≡ t → Blames rest → Blames (s ∷ rest)
  unfolding finish_reason reason_of_steps some_step
  blame-cons s rest step_failed e later =
      rw e ((λ h. refl, λ h k. ground (arith, eq_iff "RUN_FAILED_STEP" "RUN_SUCCEEDED")))
  blame-cons s rest step_cancelled e later =
      rw e ((λ h. refl, λ h k. ground (arith, eq_iff "RUN_CANCELLED_MANUAL" "RUN_SUCCEEDED")))
  blame-cons s rest step_pending e later = rw e later
  blame-cons s rest step_running e later = rw e later
  blame-cons s rest step_succeeded e later = rw e later
  blame-cons s rest step_skipped e later = rw e later

  -- A run that stayed within its budget ends for another reason than success exactly when one of its
  -- steps failed or was cancelled, which is what `FinishRun` reads off the same steps.
  pub finish_reason_lem :
      (steps : List Step)
      → ((finish_reason marshal steps false).code ≢ "RUN_SUCCEEDED")
        ↔ (some_step has_failed steps ≡ true)
  unfolding finish_reason reason_of_steps some_step
  finish_reason_lem [] = (λ h. absurd (h refl), λ h. cc)
  finish_reason_lem (s ∷ rest) = blame-cons s rest s.state refl (finish_reason_lem rest)
