-- ===== src/Examples/Logs.antt =====
-- The executor's verdicts and the logs' ring and tail on concrete inputs.
use pulseq.Prelude.{
  ℕ, ◌+◌, ◌≡◌, ◌⊎◌, refl, true, false, String, List, [], ◌∷◌, Option, none, some, arith,
}
use pulseq.Prelude.Int.{pos}
use pulseq.Model.State.{step_running, step_pending, step_failed, is_terminal_step}
use pulseq.Model.StepFsm.{next_step_state}
use pulseq.Store.Rows.{Step}
use pulseq.Store.StepMoves.{outcome_guards, StepOutcome}
use pulseq.Engine.Verdict.{failed, Value, number, Result, verdict_for}
use pulseq.Engine.Verdict.Accepted.{verdict_accepted}
use pulseq.Log.Quota.{Ring, push}
use pulseq.Log.Quota.Budget.{WithinBudget, raw_size, encoded_size, push_balance}

abbrev running_step : Step
running_step = record {
  run_id = "r1";
  name = "s1";
  idx = 0;
  state = step_running;
  attempt = 1;
  max_attempts = 3;
  next_attempt_at = none;
  started_at = some 11;
  finished_at = none;
  duration_ms = none;
  exit_code = none;
  signal = none;
  reason_code = none;
  reason_data = none;
  log_path = none;
  log_bytes = 0;
  log_truncated = false;
  error_tail = none;
}

abbrev exited : Result
exited = record {
  exit_code = pos 1;
  signal = "";
  finished_at = 20;
  outcome = failed;
  reason_data = ("exit_code", number (pos 1)) ∷ [];
}

abbrev no_json : List (String × Value) → Option String
no_json entries = none

abbrev exit_verdict : StepOutcome
exit_verdict = verdict_for no_json exited "boom" 12 false

verdict_accepted_example :
    ((next_step_state step_running exit_verdict.event
        (outcome_guards running_step exit_verdict)).error
      ≡ none)
    × ((((next_step_state step_running exit_verdict.event
              (outcome_guards running_step exit_verdict)).state
            ≡ step_pending)
          × ((outcome_guards running_step exit_verdict).attempts_left ≡ true))
        ⊎ (is_terminal_step
              (next_step_state step_running exit_verdict.event
                (outcome_guards running_step exit_verdict)).state
            ≡ true))
verdict_accepted_example = verdict_accepted no_json running_step exited "boom" 12 false refl

abbrev failed_steps : List Step
failed_steps = record running_step { state = step_failed } ∷ []

-- Two lines of two bytes in a ring of five, and a third that pushes the first one out.
abbrev full_ring : Ring
full_ring = record {
  entries =
      record { encoded = 1 ∷ 2 ∷ []; raw_len = 3 }
      ∷ record { encoded = 4 ∷ 5 ∷ []; raw_len = 3 }
      ∷ [];
  bytes = 4;
  limit = 5;
}

abbrev third_line : List ℕ
third_line = 7 ∷ 8 ∷ []

budget : WithinBudget full_ring
unfolding encoded_size
budget = record { counted = refl; within = omega arith }

push_balance_example :
    WithinBudget (push third_line 3 full_ring).0
    × ((push third_line 3 full_ring).1 + raw_size (push third_line 3 full_ring).0.entries
        ≡ raw_size full_ring.entries + 3)
push_balance_example = push_balance third_line 3 full_ring budget
