-- ===== src/Model/Parse.antt =====
-- internal/model/state.go: `ParseRunState` and `ParseStepState`, which turn a stored name back into
-- a state by a search through the closed set.
pub mod RoundTrip
use pulseq.Prelude.{String, List, [], ◌∷◌, if◌then◌else◌, str_eq}
use pulseq.Model.State.{
  RunState, StepState, name_of_run, name_of_step, all_run_states, all_step_states,
}
use pulseq.Model.Errors.{Result, ok, err, unknown}

-- The loop of both parsers: the first state of the list that has the name.
find_named : {S : Type 0} → (S → String) → String → List S → String → Result S
find_named name_of kind [] name = err (unknown kind name)
find_named name_of kind (s ∷ rest) name =
    if str_eq (name_of s) name then ok s else find_named name_of kind rest name

unfoldable pub parse_run_state : String → Result RunState
unfolding find_named name_of_run
parse_run_state name = find_named name_of_run "run" all_run_states name

unfoldable pub parse_step_state : String → Result StepState
unfolding find_named name_of_step
parse_step_state name = find_named name_of_step "step" all_step_states name
