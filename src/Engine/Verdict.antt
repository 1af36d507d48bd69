-- ===== src/Engine/Verdict.antt =====
-- internal/engine/execute.go: what the runner observed in the words of the step machine
-- (`verdictFor`), and why a run ended (`finishReason`). The JSON encoder is a parameter.
pub mod Accepted
use pulseq.Prelude.{
  ℕ, Bool, true, false, String, List, [], ◌∷◌, Option, none, some, if◌then◌else◌, str_eq, ◌==◌,
}
use pulseq.Prelude.Int.{ℤ}
use pulseq.Model.State.{
  StepState, step_failed, step_cancelled, ev_step_succeeded, ev_step_failed, ev_cancel_observed,
}
use pulseq.Store.Rows.{Step}
use pulseq.Store.StepMoves.{StepOutcome, LogMeta}
use pulseq.Store.Finish.{FinishReason}

-- internal/runner/result.go: `Outcome`.
pub data Outcome : Type 0 where
  succeeded : Outcome
  failed : Outcome
  timed_out : Outcome
  spawn_failed : Outcome
  signalled : Outcome

-- A value of the runner's reason data.
pub data Value : Type 0 where
  number : ℤ → Value
  text : String → Value
  flag : Bool → Value

-- `Result`, in the fields that the executor reads.
pub record Result : Type 0 where
  pub exit_code : ℤ
  pub signal : String
  pub finished_at : ℕ
  pub outcome : Outcome
  pub reason_data : List (String × Value)

-- `res.ReasonData["cancelled"] == true`.
abbrev is_true : Value → Bool
is_true (flag b) = b
is_true _ = false

unfoldable pub marked_true : String → List (String × Value) → Bool
marked_true key [] = false
marked_true key ((k, v) ∷ rest) = if str_eq k key then is_true v else marked_true key rest

-- `msToTime`: no milliseconds at all are the zero time.
abbrev ms_to_time : ℕ → Option ℕ
ms_to_time ms = if ms == 0 then none else some ms

module _ (marshal : List (String × Value) → Option String) where
  -- `detailJSON`.
  unfoldable pub detail_json : List (String × Value) → String
  detail_json [] = "{}"
  detail_json (entry ∷ rest) = elim (marshal (entry ∷ rest)) [ none ↦ "{}" | some json ↦ json ]

  -- `verdictFor`.
  unfoldable pub verdict_for : Result → String → ℕ → Bool → StepOutcome
  verdict_for res tail bytes truncated =
      let out : StepOutcome = record {
        event = ev_step_failed;
        reason_code = "";
        exit_code = none;
        signal = "";
        finished_at = ms_to_time res.finished_at;
        log_meta = record {
          rel_path = "";
          bytes = bytes;
          truncated = truncated;
          error_tail = tail;
        };
        detail_json = "";
        retry = none;
      } in
      elim res.outcome [
        | succeeded ↦ record out {
          event = ev_step_succeeded;
          reason_code = "STEP_SUCCEEDED";
          exit_code = some res.exit_code;
        }
        | failed ↦ record out {
          reason_code = "STEP_FAILED_NONZERO_EXIT";
          exit_code = some res.exit_code;
          detail_json = detail_json res.reason_data;
        }
        | timed_out ↦ record out {
          reason_code = "STEP_FAILED_TIMEOUT";
          signal = res.signal;
          detail_json = detail_json res.reason_data;
        }
        | signalled ↦
            if marked_true "cancelled" res.reason_data
            then record out {
              event = ev_cancel_observed;
              reason_code = "STEP_CANCELLED";
              detail_json = detail_json res.reason_data;
            }
            else record out {
              reason_code = "STEP_FAILED_SIGNAL";
              signal = res.signal;
              detail_json = detail_json res.reason_data;
            }
        | spawn_failed ↦ record out {
          reason_code = "STEP_FAILED_SPAWN";
          detail_json = detail_json res.reason_data;
        }
      ]

  -- The loop of `finishReason`, and its answer on a run's steps.
  unfoldable pub reason_of_steps : List Step → FinishReason
  unfolding detail_json
  reason_of_steps [] = record { code = "RUN_SUCCEEDED"; detail = "" }
  reason_of_steps (s ∷ rest) =
      let later = reason_of_steps rest in
      elim s.state [
        | step_failed ↦ record {
          code = "RUN_FAILED_STEP";
          detail = detail_json (("step", text s.name) ∷ []);
        }
        | step_cancelled ↦ record { code = "RUN_CANCELLED_MANUAL"; detail = "" }
        | _ ↦ later
      ]

  unfoldable pub finish_reason : List Step → Bool → FinishReason
  unfolding reason_of_steps
  finish_reason steps timed_out_run =
      if timed_out_run
      then record { code = "RUN_TIMED_OUT"; detail = "" }
      else reason_of_steps steps
