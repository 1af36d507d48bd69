-- ===== src/Model/Safety.antt =====
-- What internal/model/doc.go promises of every transition of the two machines.
use pulseq.Prelude.{
  Bool, suc, ℕ, suc, true, false, ◌≡◌, ◌≢◌, ◌↔◌, List, [], ◌∷◌, none, some, arith, eq_iff,
  if◌then◌else◌,
}
use pulseq.Model.State.{
  RunState, run_queued, StepState, Event, ev_claim, ev_operator_retry, is_terminal_run,
  is_terminal_step, requires_reason_run, requires_reason_step, is_deferred,
}
use pulseq.Model.Guards.{Guards, Effect, EffectKind, is_emit}
use pulseq.Model.Errors.{Error, unwrap, sentinel, not_available}
use pulseq.Model.RunFsm.{next_run_state}
use pulseq.Model.StepFsm.{next_step_state}

-- How many effects of a list are of a kind, and how many `run_events` rows it asks for.
unfoldable pub count_effects : (EffectKind → Bool) → List Effect → ℕ
count_effects p [] = 0
count_effects p (fx ∷ rest) =
    let more = count_effects p rest in if p fx.kind then suc more else more

abbrev pub emits : List Effect → ℕ
emits = count_effects is_emit

-- A refused run event moves nothing and demands nothing, and a refused step event likewise.
pub refusal_inert :
    (r : RunState) (s : StepState) (e : Event) (g : Guards) (x y : Error)
    → (((next_run_state r e g).error ≡ some x)
        → ((next_run_state r e g).state ≡ r) × ((next_run_state r e g).effects ≡ []))
      × (((next_step_state s e g).error ≡ some y)
          → ((next_step_state s e g).state ≡ s) × ((next_step_state s e g).effects ≡ []))
unfolding next_run_state next_step_state
refusal_inert r s e g x y = (λ h. ground arith, λ h. ground arith)

-- An accepted event asks for exactly one `run_events` row (G10); a refused one for none.
pub run_emits_once :
    (s : RunState) (e : Event) (g : Guards)
    → emits (next_run_state s e g).effects
      ≡ elim (next_run_state s e g).error [ none ↦ 1 | some _ ↦ 0 ]
unfolding next_run_state count_effects
run_emits_once s e g = ground arith

pub step_emits_once :
    (s : StepState) (e : Event) (g : Guards)
    → emits (next_step_state s e g).effects
      ≡ elim (next_step_state s e g).error [ none ↦ 1 | some _ ↦ 0 ]
unfolding next_step_state count_effects
step_emits_once s e g = ground arith

-- Out of a terminal run only an operator's retry leads, and it leads to the queue; out of a
-- terminal step nothing leads.
pub terminal_exits :
    (r : RunState) (s : StepState) (e : Event) (g : Guards)
    → ((is_terminal_run r ≡ true)
        → ((next_run_state r e g).error ≡ none)
        → (e ≡ ev_operator_retry) × ((next_run_state r e g).state ≡ run_queued))
      × ((is_terminal_step s ≡ true) → (next_step_state s e g).error ≢ none)
unfolding next_run_state next_step_state is_terminal_run is_terminal_step
terminal_exits r s e g = (λ t h. ground arith, λ t h. ground arith)

-- Nothing ends without an explanation: a transition into a state that requires a reason code was
-- judged under a reason code that is not empty.
pub run_end_explained :
    (s : RunState) (e : Event) (g : Guards)
    → (next_run_state s e g).error ≡ none
    → requires_reason_run (next_run_state s e g).state ≡ true
    → g.reason_code ≢ ""
unfolding next_run_state requires_reason_run
run_end_explained s e g h t = ground (arith, eq_iff g.reason_code "")

pub step_end_explained :
    (s : StepState) (e : Event) (g : Guards)
    → (next_step_state s e g).error ≡ none
    → requires_reason_step (next_step_state s e g).state ≡ true
    → g.reason_code ≢ ""
unfolding next_step_state requires_reason_step
step_end_explained s e g h t = ground (arith, eq_iff g.reason_code "")

-- A claim that nobody cancelled is refused as not available exactly when the run is deferred.
pub claim_deferred :
    (g : Guards)
    → g.cancel_requested ≡ false
    → (is_deferred run_queued g.available_at g.now ≡ true)
      ↔ (sentinel (next_run_state run_queued ev_claim g).error ≡ some not_available)
unfolding next_run_state is_deferred unwrap
claim_deferred g c = (λ h. ground arith, λ h. ground arith)
