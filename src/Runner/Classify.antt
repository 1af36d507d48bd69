-- ===== src/Runner/Classify.antt =====
-- internal/runner/result.go: `classify`, which turns what was observed of a process into the runner's
-- verdict, and what the executor's `verdictFor` makes of that. The names of signals are a parameter.
use pulseq.Prelude.{
  ℕ, ◌+◌, ◌≡◌, ◌↔◌, Bool, true, false, String, List, [], ◌∷◌, Option, none, some, ◌&&◌, ◌++◌, ◌==◌,
  if◌then◌else◌, arith,
}
use pulseq.Prelude.Int.{ℤ, pos, negsuc}
use pulseq.Model.State.{ev_step_succeeded, ev_cancel_observed}
use pulseq.Engine.Verdict.{
  Result, Value, number, text, flag, succeeded, failed, timed_out, spawn_failed, signalled,
  marked_true, verdict_for,
}

-- What `exitStatus` reads of a process that was waited for.
pub record ExitStatus : Type 0 where
  pub code : ℤ
  pub signal : ℕ
  pub signaled : Bool

abbrev pub is_code : ℕ → ℤ → Bool
is_code n (pos m) = n == m
is_code n (negsuc m) = false

module _ (sig_name : ℕ → String) where
  abbrev bare : Result
  bare = record {
    exit_code = pos 0;
    signal = "";
    finished_at = 0;
    outcome = succeeded;
    reason_data = [];
  }

  abbrev signal_data : ExitStatus → List (String × Value)
  signal_data st =
      ("signal", text (sig_name st.signal)) ∷ ("exit_code", number (pos (128 + st.signal))) ∷ []

  -- `classify`, on the state of the process, which a process that never started has not, on whether
  -- the deadline fired, whether the context ended, and the timeout in milliseconds.
  unfoldable pub classify : Option ExitStatus → Bool → Bool → ℕ → Result
  classify none timed cancelled timeout = record bare { outcome = spawn_failed }
  classify (some st) timed cancelled timeout =
      if st.signaled && timed
      then record bare {
        outcome = timed_out;
        reason_data = ("timeout_ms", number (pos timeout)) ∷ [];
      }
      else if st.signaled
      then record bare {
        outcome = signalled;
        signal = sig_name st.signal;
        exit_code = pos (128 + st.signal);
        reason_data =
            if cancelled then signal_data st ++ ("cancelled", flag true) ∷ [] else signal_data st;
      }
      else if is_code 0 st.code
      then bare
      else record bare {
        outcome = failed;
        exit_code = st.code;
        reason_data = ("exit_code", number st.code) ∷ ("transient", flag (is_code 75 st.code)) ∷ [];
      }

  -- The deadline and the context do not change what an exit status says: the executor counts a process
  -- that ran as succeeded exactly when it exited by itself with code 0, and as cancelled exactly when a
  -- signal ended it before the deadline and the context had ended.
  pub classify-verdict_for :
      (marshal : List (String × Value) → Option String) (st : ExitStatus) (timed cancelled : Bool)
      (timeout : ℕ) (tail : String) (bytes : ℕ) (truncated : Bool)
      → let out =
          verdict_for marshal (classify (some st) timed cancelled timeout) tail bytes truncated in
        ((out.event ≡ ev_step_succeeded) ↔ ((st.signaled ≡ false) × (is_code 0 st.code ≡ true)))
        × ((out.event ≡ ev_cancel_observed)
            ↔ ((st.signaled ≡ true) × ((timed ≡ false) × (cancelled ≡ true))))
  unfolding classify verdict_for marked_true
  classify-verdict_for marshal st timed cancelled timeout tail bytes truncated = ground arith
