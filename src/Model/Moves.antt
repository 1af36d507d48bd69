-- ===== src/Model/Moves.antt =====
-- The transition tables of internal/model, as relations that are written independently of the code:
-- each rule names a state, an event, what the guards must say, and the state that follows. (The
-- table is the one that internal/model/transitions.golden.md draws.)
use pulseq.Prelude.{true, false, ◌≡◌, ◌≢◌, ◌≤◌, ◌↔◌, refl, subst, none, arith, eq_iff}
use pulseq.Model.State.{
  RunState, run_queued, run_running, run_succeeded, run_failed, run_cancelled, StepState,
  step_pending, step_running, step_succeeded, step_failed, step_skipped, step_cancelled, Event,
  ev_claim, ev_deferred, ev_step_started, ev_step_succeeded, ev_step_failed, ev_upstream_failed,
  ev_all_steps_done, ev_cancel_observed, ev_lease_expired, ev_operator_retry, is_terminal_run,
}
use pulseq.Model.Guards.{Guards}
use pulseq.Model.RunFsm.{next_run_state}
use pulseq.Model.StepFsm.{next_step_state}

pub data RunMove (g : Guards) : RunState → Event → RunState → Type 0 where
  start :
      g.cancel_requested ≡ false
      → g.available_at ≤ g.now
      → RunMove g run_queued ev_claim run_running
  cancel_early :
      g.cancel_requested ≡ true → g.reason_code ≢ "" → RunMove g run_queued ev_claim run_cancelled
  defer : g.defer_reason ≢ "" → RunMove g run_queued ev_deferred run_queued
  succeed :
      g.lease_valid ≡ true
      → g.all_steps_terminal ≡ true
      → g.any_step_failed ≡ false
      → g.reason_code ≢ ""
      → RunMove g run_running ev_all_steps_done run_succeeded
  fail :
      g.lease_valid ≡ true
      → g.all_steps_terminal ≡ true
      → g.any_step_failed ≡ true
      → g.reason_code ≢ ""
      → RunMove g run_running ev_all_steps_done run_failed
  cancel :
      g.lease_valid ≡ true
      → g.reason_code ≢ ""
      → RunMove g run_running ev_cancel_observed run_cancelled
  requeue :
      g.lease_valid ≡ false
      → g.crash_budget_left ≡ true
      → RunMove g run_running ev_lease_expired run_queued
  poison :
      g.lease_valid ≡ false
      → g.crash_budget_left ≡ false
      → g.reason_code ≢ ""
      → RunMove g run_running ev_lease_expired run_failed
  reopen : {s : RunState} → is_terminal_run s ≡ true → RunMove g s ev_operator_retry run_queued

pub data StepMove (g : Guards) : StepState → Event → StepState → Type 0 where
  start : StepMove g step_pending ev_step_started step_running
  skip : g.reason_code ≢ "" → StepMove g step_pending ev_upstream_failed step_skipped
  succeed : g.reason_code ≢ "" → StepMove g step_running ev_step_succeeded step_succeeded
  retry :
      g.attempts_left ≡ true
      → g.reason_code ≢ ""
      → StepMove g step_running ev_step_failed step_pending
  fail :
      g.attempts_left ≡ false
      → g.reason_code ≢ ""
      → StepMove g step_running ev_step_failed step_failed
  cancel : g.reason_code ≢ "" → StepMove g step_running ev_cancel_observed step_cancelled

ruleset run_moves = (
  RunMove.start, cancel_early, defer, RunMove.succeed, RunMove.fail, RunMove.cancel, requeue,
  poison, reopen,
)

ruleset step_moves = (StepMove.start, skip, StepMove.succeed, retry, StepMove.fail, StepMove.cancel)

-- The run machine accepts nothing that the table does not name, and goes where the table says.
pub next_run_state_sound :
    (s : RunState) (e : Event) (g : Guards)
    → (next_run_state s e g).error ≡ none
    → RunMove g s e (next_run_state s e g).state
unfolding next_run_state is_terminal_run
next_run_state_sound s e g h =
    grind (arith, run_moves, eq_iff g.reason_code "", eq_iff g.defer_reason "")

-- It accepts everything that the table names.
pub next_run_state_complete :
    {s t : RunState} {e : Event} (g : Guards)
    → RunMove g s e t
    → ((next_run_state s e g).error ≡ none) × ((next_run_state s e g).state ≡ t)
unfolding next_run_state is_terminal_run
next_run_state_complete g (RunMove.start a b) = ground arith
next_run_state_complete g (cancel_early a b) = ground (arith, eq_iff g.reason_code "")
next_run_state_complete g (defer a) = ground (arith, eq_iff g.defer_reason "")
next_run_state_complete g (RunMove.succeed a b c d) = ground (arith, eq_iff g.reason_code "")
next_run_state_complete g (RunMove.fail a b c d) = ground (arith, eq_iff g.reason_code "")
next_run_state_complete g (RunMove.cancel a b) = ground (arith, eq_iff g.reason_code "")
next_run_state_complete g (requeue a b) = ground arith
next_run_state_complete g (poison a b c) = ground (arith, eq_iff g.reason_code "")
next_run_state_complete g (reopen {s = run_succeeded} a) = (refl, refl)
next_run_state_complete g (reopen {s = run_failed} a) = (refl, refl)
next_run_state_complete g (reopen {s = run_cancelled} a) = (refl, refl)
next_run_state_complete g (reopen {s = run_queued} a) = cc
next_run_state_complete g (reopen {s = run_running} a) = cc

pub next_step_state_sound :
    (s : StepState) (e : Event) (g : Guards)
    → (next_step_state s e g).error ≡ none
    → StepMove g s e (next_step_state s e g).state
unfolding next_step_state
next_step_state_sound s e g h = grind (arith, step_moves, eq_iff g.reason_code "")

pub next_step_state_complete :
    {s t : StepState} {e : Event} (g : Guards)
    → StepMove g s e t
    → ((next_step_state s e g).error ≡ none) × ((next_step_state s e g).state ≡ t)
unfolding next_step_state
next_step_state_complete g StepMove.start = (refl, refl)
next_step_state_complete g (skip a) = ground (arith, eq_iff g.reason_code "")
next_step_state_complete g (StepMove.succeed a) = ground (arith, eq_iff g.reason_code "")
next_step_state_complete g (retry a b) = ground (arith, eq_iff g.reason_code "")
next_step_state_complete g (StepMove.fail a b) = ground (arith, eq_iff g.reason_code "")
next_step_state_complete g (StepMove.cancel a) = ground (arith, eq_iff g.reason_code "")

-- The run machine accepts an event and goes to a state exactly when the table has that move.
pub run_table :
    (s t : RunState) (e : Event) (g : Guards)
    → RunMove g s e t ↔ (((next_run_state s e g).error ≡ none) × ((next_run_state s e g).state ≡ t))
run_table s t e g =
    (next_run_state_complete g, λ h. subst (RunMove g s e) h.1 (next_run_state_sound s e g h.0))

-- The step machine accepts an event and goes to a state exactly when the table has that move.
pub step_table :
    (s t : StepState) (e : Event) (g : Guards)
    → StepMove g s e t
      ↔ (((next_step_state s e g).error ≡ none) × ((next_step_state s e g).state ≡ t))
step_table s t e g =
    (next_step_state_complete g, λ h. subst (StepMove g s e) h.1 (next_step_state_sound s e g h.0))
