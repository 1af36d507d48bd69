-- ===== src/Model/Apply.antt =====
-- internal/model/apply.go: a history of events folded through a machine.
pub mod Histories
pub mod Leases
use pulseq.Prelude.{List, [], ◌∷◌, ◌++◌, none, some}
use pulseq.Model.State.{RunState, StepState, Event}
use pulseq.Model.Guards.{Guards, Effect}
use pulseq.Model.RunFsm.{Outcome, next_run_state}
use pulseq.Model.StepFsm.{next_step_state}

pub record Input : Type 0 where
  pub event : Event
  pub guards : Guards

-- The loop that `ApplyRun` and `ApplyStep` share, over the machine that they call.
module _ {S : Type 0} (next : S → Event → Guards → Outcome S) where
  unfoldable pub apply_from : S → List Effect → List Input → Outcome S
  apply_from cur all [] = record { state = cur; effects = all; error = none }
  apply_from cur all (i ∷ rest) =
      let o = next cur i.event i.guards in
      let more = apply_from o.state (all ++ o.effects) rest in
      elim o.error [ none ↦ more | some e ↦ record { state = cur; effects = all; error = some e } ]

unfoldable pub apply_run : RunState → List Input → Outcome RunState
unfolding apply_from
apply_run cur inputs = apply_from next_run_state cur [] inputs

unfoldable pub apply_step : StepState → List Input → Outcome StepState
unfolding apply_from
apply_step cur inputs = apply_from next_step_state cur [] inputs
