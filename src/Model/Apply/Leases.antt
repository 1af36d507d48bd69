-- ===== src/Model/Apply/Leases.antt =====
-- Leases and fencing epochs over a whole history of a run (internal/model/apply.go and run_fsm.go).
use pulseq.Prelude.{
  ℕ, suc, ◌+◌, ◌≤◌, Bool, true, false, ◌≡◌, List, [], ◌∷◌, ◌++◌, none, arith, if◌then◌else◌,
}
use pulseq.Model.State.{RunState, run_queued, run_running, Event, ev_lease_expired}
use pulseq.Model.Guards.{Guards, Effect, EffectKind, take_lease, release_lease, bump_epoch}
use pulseq.Model.RunFsm.{next_run_state}
use pulseq.Model.Safety.{count_effects}
use pulseq.Model.Apply.{Input, apply_from, apply_run}
use pulseq.Model.Apply.Histories.{count_effects-append}

abbrev pub is_take : EffectKind → Bool
is_take take_lease = true
is_take _ = false

abbrev pub is_release : EffectKind → Bool
is_release release_lease = true
is_release _ = false

abbrev pub is_bump : EffectKind → Bool
is_bump bump_epoch = true
is_bump _ = false

abbrev pub is_expiry : Event → Bool
is_expiry ev_lease_expired = true
is_expiry _ = false

-- How many of the inputs report an expired lease.
abbrev pub expiries : List Input → ℕ
expiries [] = 0
expiries (i ∷ rest) = let more = expiries rest in if is_expiry i.event then suc more else more

-- Only a running run holds a lease.
abbrev pub leases_held : RunState → ℕ
leases_held run_running = 1
leases_held _ = 0

lease_step :
    (s : RunState) (e : Event) (g : Guards)
    → let o = next_run_state s e g in
      o.error ≡ none
      → count_effects is_take o.effects + leases_held s
        ≡ count_effects is_release o.effects + (if is_expiry e then 1 else 0) + leases_held o.state
unfolding next_run_state count_effects
lease_step s e g h = ground arith

lease_balance_from :
    (s : RunState) (all : List Effect) (xs : List Input)
    → let o = apply_from next_run_state s all xs in
      o.error ≡ none
      → count_effects is_take o.effects + leases_held s + count_effects is_release all
        ≡ count_effects is_release o.effects
          + expiries xs
          + leases_held o.state
          + count_effects is_take all
unfolding apply_from
lease_balance_from s all [] h = omega arith
lease_balance_from s all (i ∷ xs) h =
    let o = next_run_state s i.event i.guards in
    ground (
      arith,
      lease_step s i.event i.guards,
      count_effects-append is_take all o.effects,
      count_effects-append is_release all o.effects,
      lease_balance_from o.state (all ++ o.effects) xs,
    )

-- Over an accepted history that starts in the queue, every lease that was taken was released or
-- reported as expired, but for the one that a running run still holds.
pub lease_balance :
    (xs : List Input)
    → let o = apply_run run_queued xs in
      o.error ≡ none
      → count_effects is_take o.effects
        ≡ count_effects is_release o.effects + expiries xs + leases_held o.state
unfolding apply_run count_effects
lease_balance xs h = omega (arith, lease_balance_from run_queued [] xs h)

bump_step :
    (s : RunState) (e : Event) (g : Guards)
    → let o = next_run_state s e g in
      count_effects is_take o.effects ≤ count_effects is_bump o.effects
unfolding next_run_state count_effects
bump_step s e g = ground arith

bump_from :
    (s : RunState) (all : List Effect) (xs : List Input)
    → count_effects is_take all ≤ count_effects is_bump all
    → let o = apply_from next_run_state s all xs in
      count_effects is_take o.effects ≤ count_effects is_bump o.effects
unfolding apply_from
bump_from s all [] h = h
bump_from s all (i ∷ xs) h =
    let o = next_run_state s i.event i.guards in
    ground (
      arith,
      bump_step s i.event i.guards,
      count_effects-append is_take all o.effects,
      count_effects-append is_bump all o.effects,
      bump_from o.state (all ++ o.effects) xs,
    )

-- No history takes more leases than it raises the fencing epoch, so each lease has an epoch of its
-- own; this holds of refused histories too.
pub epoch_per_lease :
    (s : RunState) (xs : List Input)
    → let o = apply_run s xs in count_effects is_take o.effects ≤ count_effects is_bump o.effects
unfolding apply_run count_effects
epoch_per_lease s xs = bump_from s [] xs (omega arith)
