-- ===== src/Model/State.antt =====
-- internal/model/state.go and internal/model/events.go: the closed sets of states and events.
-- A stored state is always one of the closed set, which the schema's CHECK constraints repeat. An
-- event can be any text a caller hands to the store: `other` is a name outside the set.
use pulseq.Prelude.{Bool, true, false, String, ℕ, ◌&&◌, List, [], ◌∷◌, ltb}

pub data RunState : Type 0 where
  run_queued run_running run_succeeded run_failed run_cancelled : RunState

pub data StepState : Type 0 where
  step_pending step_running step_succeeded step_failed step_skipped step_cancelled : StepState

-- The interface `State`: a state of either machine.
pub data State : Type 0 where
  of_run : RunState → State
  of_step : StepState → State

pub data Event : Type 0 where
  ev_claim ev_deferred ev_step_started ev_step_succeeded ev_step_failed : Event
  ev_upstream_failed ev_all_steps_done ev_cancel_observed ev_lease_expired : Event
  ev_operator_retry : Event
  other : String → Event

pub RunState-discrete : Discrete RunState
RunState-discrete = hlevel

pub StepState-discrete : Discrete StepState
StepState-discrete = hlevel

-- The names that the database stores.
unfoldable pub name_of_run : RunState → String
name_of_run run_queued = "queued"
name_of_run run_running = "running"
name_of_run run_succeeded = "succeeded"
name_of_run run_failed = "failed"
name_of_run run_cancelled = "cancelled"

unfoldable pub name_of_step : StepState → String
name_of_step step_pending = "pending"
name_of_step step_running = "running"
name_of_step step_succeeded = "succeeded"
name_of_step step_failed = "failed"
name_of_step step_skipped = "skipped"
name_of_step step_cancelled = "cancelled"

unfoldable pub is_terminal_run : RunState → Bool
is_terminal_run run_succeeded = true
is_terminal_run run_failed = true
is_terminal_run run_cancelled = true
is_terminal_run _ = false

unfoldable pub is_terminal_step : StepState → Bool
is_terminal_step step_succeeded = true
is_terminal_step step_failed = true
is_terminal_step step_skipped = true
is_terminal_step step_cancelled = true
is_terminal_step _ = false

unfoldable pub requires_reason_run : RunState → Bool
unfolding is_terminal_run
requires_reason_run s = is_terminal_run s

unfoldable pub requires_reason_step : StepState → Bool
unfolding is_terminal_step
requires_reason_step s = is_terminal_step s

-- The closed sets, in life order.
abbrev pub all_run_states : List RunState
all_run_states = run_queued ∷ run_running ∷ run_succeeded ∷ run_failed ∷ run_cancelled ∷ []

abbrev pub all_step_states : List StepState
all_step_states =
    step_pending ∷ step_running ∷ step_succeeded ∷ step_failed ∷ step_skipped ∷ step_cancelled ∷ []

abbrev is_queued : RunState → Bool
is_queued run_queued = true
is_queued _ = false

-- `IsDeferred`: a queued run that is not allowed to start yet.
unfoldable pub is_deferred : RunState → ℕ → ℕ → Bool
is_deferred state available_at now = is_queued state && ltb now available_at
