-- ===== src/Model/Apply/Histories.antt =====
-- What holds of a whole history of events (internal/model/apply.go).
use pulseq.Prelude.{
  ◌+◌, Bool, ◌≡◌, refl, ◌∙◌, List, [], ◌↔◌, subst, ◌∷◌, ◌++◌, none, some, arith, length,
}
use pulseq.Model.State.{RunState, StepState, Event}
use pulseq.Model.Guards.{Guards, Effect, EffectKind, is_emit}
use pulseq.Model.Errors.{Error}
use pulseq.Model.RunFsm.{Outcome, next_run_state}
use pulseq.Model.StepFsm.{next_step_state}
use pulseq.Model.Moves.{RunMove, next_run_state_sound, next_run_state_complete}
use pulseq.Model.Safety.{count_effects, emits, run_emits_once, step_emits_once}
use pulseq.Model.Apply.{Input, apply_from, apply_run, apply_step}

pub count_effects-append :
    (p : EffectKind → Bool) (xs ys : List Effect)
    → count_effects p (xs ++ ys) ≡ count_effects p xs + count_effects p ys
unfolding count_effects
count_effects-append p [] ys = omega arith
count_effects-append p (x ∷ xs) ys = ground (arith, count_effects-append p xs ys)

module _ {S : Type 0} (next : S → Event → Guards → Outcome S) where
  pub apply_from_accept :
      (cur : S) (all : List Effect) (i : Input) (rest : List Input)
      → (next cur i.event i.guards).error ≡ none
      → apply_from next cur all (i ∷ rest)
        ≡ apply_from next
            (next cur i.event i.guards).state
            (all ++ (next cur i.event i.guards).effects)
            rest
  unfolding apply_from
  apply_from_accept cur all i rest h = ground arith

  apply_from_head :
      (cur : S) (all : List Effect) (i : Input) (rest : List Input)
      → (apply_from next cur all (i ∷ rest)).error ≡ none
      → (next cur i.event i.guards).error ≡ none
  unfolding apply_from
  apply_from_head cur all i rest h = ground arith

  -- A history in two parts is the second part from where the first part ended, unless the first
  -- part was refused.
  apply_from-append :
      (cur : S) (all : List Effect) (xs ys : List Input)
      → (apply_from next cur all xs).error ≡ none
      → apply_from next cur all (xs ++ ys)
        ≡ apply_from next (apply_from next cur all xs).state (apply_from next cur all xs).effects ys
  unfolding apply_from
  apply_from-append cur all [] ys h = refl
  apply_from-append cur all (i ∷ xs) ys h =
      let o = next cur i.event i.guards in
      ground (arith, apply_from-append o.state (all ++ o.effects) xs ys)

  -- A refused input stops the fold: what follows it does not matter.
  apply_from_stops :
      (cur : S) (all : List Effect) (xs ys : List Input) (e : Error)
      → (apply_from next cur all xs).error ≡ some e
      → apply_from next cur all (xs ++ ys) ≡ apply_from next cur all xs
  unfolding apply_from
  apply_from_stops cur all [] ys e h = ground arith
  apply_from_stops cur all (i ∷ xs) ys e h =
      let o = next cur i.event i.guards in
      ground (arith, apply_from_stops o.state (all ++ o.effects) xs ys e)

  -- If each accepted event asks for one row of history, an accepted history of n asks for n.
  emits-apply_from :
      ((s : S) (e : Event) (g : Guards)
        → (next s e g).error ≡ none
        → emits (next s e g).effects ≡ 1)
      → (cur : S) (all : List Effect) (xs : List Input) → (apply_from next cur all xs).error ≡ none
      → emits (apply_from next cur all xs).effects ≡ emits all + length xs
  unfolding apply_from
  emits-apply_from one cur all [] h = omega arith
  emits-apply_from one cur all (i ∷ xs) h =
      let o = next cur i.event i.guards in
      ground (
        arith,
        one cur i.event i.guards,
        count_effects-append is_emit all o.effects,
        emits-apply_from one o.state (all ++ o.effects) xs,
      )

run_emits_one :
    (s : RunState) (e : Event) (g : Guards)
    → (next_run_state s e g).error ≡ none
    → emits (next_run_state s e g).effects ≡ 1
run_emits_one s e g h = run_emits_once s e g ∙ rw h

step_emits_one :
    (s : StepState) (e : Event) (g : Guards)
    → (next_step_state s e g).error ≡ none
    → emits (next_step_state s e g).effects ≡ 1
step_emits_one s e g h = step_emits_once s e g ∙ rw h

-- An accepted history of a run writes exactly one event row for each of its events.
pub emits-apply_run :
    (s : RunState) (xs : List Input)
    → (apply_run s xs).error ≡ none
    → emits (apply_run s xs).effects ≡ length xs
unfolding apply_run count_effects
emits-apply_run s xs h = omega (arith, emits-apply_from next_run_state run_emits_one s [] xs h)

-- So does an accepted history of a step.
pub emits-apply_step :
    (s : StepState) (xs : List Input)
    → (apply_step s xs).error ≡ none
    → emits (apply_step s xs).effects ≡ length xs
unfolding apply_step count_effects
emits-apply_step s xs h = omega (arith, emits-apply_from next_step_state step_emits_one s [] xs h)

-- The first refusal ends a run's history: the inputs behind it change nothing, neither the state
-- nor the effects nor the error.
pub apply_run_stops :
    (s : RunState) (xs ys : List Input) (e : Error)
    → (apply_run s xs).error ≡ some e
    → apply_run s (xs ++ ys) ≡ apply_run s xs
unfolding apply_run
apply_run_stops s xs ys e h = apply_from_stops next_run_state s [] xs ys e h

-- The states that a history passes through, each step a move of the run's table.
pub data RunPath : RunState → List Input → RunState → Type 0 where
  stay : {s : RunState} → RunPath s [] s
  advance :
      {s t u : RunState} {i : Input} {rest : List Input}
      → RunMove i.guards s i.event t
      → RunPath t rest u
      → RunPath s (i ∷ rest) u

apply_from-RunPath :
    (s : RunState) (all : List Effect) (xs : List Input)
    → (apply_from next_run_state s all xs).error ≡ none
    → RunPath s xs (apply_from next_run_state s all xs).state
unfolding apply_from
apply_from-RunPath s all [] h = stay
apply_from-RunPath s all (i ∷ xs) h =
    let o = next_run_state s i.event i.guards in
    let first = apply_from_head next_run_state s all i xs h in
    let step = apply_from_accept next_run_state s all i xs first in
    rw step (
      advance (next_run_state_sound s i.event i.guards first)
        (apply_from-RunPath o.state (all ++ o.effects) xs (rw step at h)))

RunPath-apply_from :
    {s t : RunState} {xs : List Input} (all : List Effect)
    → RunPath s xs t
    → let o = apply_from next_run_state s all xs in (o.error ≡ none) × (o.state ≡ t)
unfolding apply_from
RunPath-apply_from all stay = (refl, refl)
RunPath-apply_from {s} all (advance {t = m} {i = i} {rest = rest} move path) =
    let (taken, goes) = next_run_state_complete i.guards move in
    rw (apply_from_accept next_run_state s all i rest taken, goes) (RunPath-apply_from _ path)

-- A history is accepted to its end exactly when the table has a path for it, and then the path
-- leads to the state that the fold returns.
pub apply_run_path :
    (s t : RunState) (xs : List Input)
    → RunPath s xs t ↔ (((apply_run s xs).error ≡ none) × ((apply_run s xs).state ≡ t))
unfolding apply_run
apply_run_path s t xs =
    (RunPath-apply_from [], λ h. subst (RunPath s xs) h.1 (apply_from-RunPath s [] xs h.0))
