-- ===== src/Examples/Escalations.antt =====
-- A process that is classified, and an escalation whose deadline and whose context both fire, with a group that outlives its grace.
use pulseq.Prelude.{
  true, ◌≡◌, ◌↔◌, ℕ, String, Option, none, some, false, refl, false, List, [], ◌∷◌,
}
use pulseq.Prelude.Int.{pos}
use pulseq.Model.State.{ev_step_succeeded, ev_cancel_observed}
use pulseq.Engine.Verdict.{Value, verdict_for}
use pulseq.Runner.Classify.{ExitStatus, is_code, classify, classify-verdict_for}
use pulseq.Runner.{
  sigterm, sigkill, new_escalation, fire, grace_ends, Move, starts, fires, times_out, stops, move,
  moves,
}
use pulseq.Runner.Delivered.{to}

abbrev outlives : List Move
outlives = starts 7 ∷ fires ∷ fires ∷ times_out ∷ stops ∷ []

both_delivered : (moves outlives new_escalation).delivered ≡ to 7 sigterm ∷ to 7 sigkill ∷ []
unfolding moves move fire grace_ends
both_delivered = refl

-- Fired before the group is known, an escalation delivers nothing, and cannot be fired again.
fired_too_early : (moves (fires ∷ starts 7 ∷ fires ∷ times_out ∷ []) new_escalation).delivered ≡ []
unfolding moves move fire grace_ends
fired_too_early = refl

-- Not fired, `stop` returns at once, and what fires later is still delivered.
fired_after_stop :
    (moves (starts 7 ∷ stops ∷ fires ∷ []) new_escalation).delivered ≡ to 7 sigterm ∷ []
unfolding moves move fire
fired_after_stop = refl

-- A process that exits with code 0 as its deadline fires and its context ends.
abbrev in_time : ExitStatus
in_time = record { code = pos 0; signal = 0; signaled = false }

abbrev a_signal : ℕ → String
a_signal n = "SIG"

abbrev no_json : List (String × Value) → Option String
no_json entries = none

classify-verdict_for_example :
    (((verdict_for no_json (classify a_signal (some in_time) true true 5) "" 0 false).event
        ≡ ev_step_succeeded)
      ↔ ((in_time.signaled ≡ false) × (is_code 0 in_time.code ≡ true)))
    × (((verdict_for no_json (classify a_signal (some in_time) true true 5) "" 0 false).event
          ≡ ev_cancel_observed)
        ↔ ((in_time.signaled ≡ true) × ((true ≡ false) × (true ≡ true))))
classify-verdict_for_example = classify-verdict_for a_signal no_json in_time true true 5 "" 0 false
