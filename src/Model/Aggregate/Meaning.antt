-- ===== src/Model/Aggregate/Meaning.antt =====
-- What the aggregate says of the steps, whatever their order, and how it agrees with the run machine.
use pulseq.Prelude.{
  Bool, true, false, ◌≡◌, refl, ◌∙◌, List, [], ◌∷◌, none, arith, ◌||◌, not, if◌then◌else◌,
}
use mathlib.Core.List.{Perm, Permᴰ}
use mathlib.Core.Logic.{∥∥₁_elim}
use pulseq.Model.State.{
  run_running, run_succeeded, run_failed, run_cancelled, StepState, step_pending, step_running,
  step_failed, step_cancelled, ev_all_steps_done,
}
use pulseq.Model.Guards.{Guards}
use pulseq.Model.RunFsm.{next_run_state}
use pulseq.Model.Aggregate.{Flags, no_flags, note, note_all, run_aggregate}

abbrev pub is_failed : StepState → Bool
is_failed step_failed = true
is_failed _ = false

abbrev pub is_cancelled : StepState → Bool
is_cancelled step_cancelled = true
is_cancelled _ = false

abbrev pub is_active : StepState → Bool
is_active step_pending = true
is_active step_running = true
is_active _ = false

-- Whether some step of the list passes the test.
unfoldable pub some_step : (StepState → Bool) → List StepState → Bool
some_step p [] = false
some_step p (s ∷ rest) = p s || some_step p rest

note_all-some_step :
    (f : Flags) (steps : List StepState)
    → note_all f steps ≡ record {
      any_active = f.any_active || some_step is_active steps;
      any_failed = f.any_failed || some_step is_failed steps;
      any_cancelled = f.any_cancelled || some_step is_cancelled steps;
    }
unfolding note_all some_step
note_all-some_step f [] = ground arith
note_all-some_step f (s ∷ rest) = note_all-some_step (note s f) rest ∙ ground arith

-- The aggregate is decided by three questions, in this order: is a step still pending or running,
-- did one fail, was one cancelled.
pub run_aggregate_lem :
    (steps : List StepState)
    → run_aggregate steps ≡ (
        if some_step is_active steps
        then run_running
        else if some_step is_failed steps
        then run_failed
        else if some_step is_cancelled steps
        then run_cancelled
        else run_succeeded)
unfolding run_aggregate
run_aggregate_lem steps = rw (note_all-some_step no_flags steps)

Bool-set : IsSet Bool
Bool-set = hlevel

some_step-Permᴰ :
    (p : StepState → Bool) {xs ys : List StepState} → Permᴰ xs ys → some_step p xs ≡ some_step p ys
unfolding some_step
some_step-Permᴰ p Permᴰ.nil = refl
some_step-Permᴰ p (Permᴰ.cons {a = a} {b = b} {l₁ = xs} {l₂ = ys} e d) =
    let ih = some_step-Permᴰ p d in rw (e, ih)
some_step-Permᴰ p (Permᴰ.swap e f) = rw (e, f) (ground arith)
some_step-Permᴰ p (Permᴰ.trans d e) = some_step-Permᴰ p d ∙ some_step-Permᴰ p e

some_step-perm :
    (p : StepState → Bool) {xs ys : List StepState} → Perm xs ys → some_step p xs ≡ some_step p ys
some_step-perm p d = ∥∥₁_elim d (Bool-set _ _) (some_step-Permᴰ p)

-- The order of the steps does not matter.
pub run_aggregate-perm : (xs ys : List StepState) → Perm xs ys → run_aggregate xs ≡ run_aggregate ys
run_aggregate-perm xs ys d = rw (
  run_aggregate_lem xs,
  run_aggregate_lem ys,
  some_step-perm is_active d,
  some_step-perm is_failed d,
  some_step-perm is_cancelled d,
)

-- The run machine, told of the steps by the flags of these questions, ends the run in the state
-- that the aggregate names, whenever no step was cancelled.
pub finish_agrees :
    (steps : List StepState) (g : Guards)
    → g.any_step_failed ≡ some_step is_failed steps
    → some_step is_cancelled steps ≡ false
    → (next_run_state run_running ev_all_steps_done g).error ≡ none
    → g.all_steps_terminal ≡ not (some_step is_active steps)
    → (next_run_state run_running ev_all_steps_done g).state ≡ run_aggregate steps
unfolding next_run_state
finish_agrees steps g f c h t = ground (arith, run_aggregate_lem steps)
