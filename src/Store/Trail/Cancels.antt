-- ===== src/Store/Trail/Cancels.antt =====
-- `ObserveRunCancel` of internal/store leaves a trail of recorded transitions.
use pulseq.Prelude.{
  ℕ, ◌≡◌, ◌≢◌, true, refl, subst, String, none, some, arith, eq_refl, inl, inr, Option-cases,
}
use pulseq.Model.State.{RunState, run_running, run_cancelled, ev_cancel_observed, name_of_run}
use pulseq.Model.Guards.{Guards}
use pulseq.Model.Moves.{RunMove, next_run_state_sound}
use pulseq.Model.Parse.RoundTrip.{parse_run_state-name}
use pulseq.Model.RunFsm.{next_run_state}
use pulseq.Store.Rows.{Run, Db, find_run, WellKeyed}
use pulseq.Store.Tx.{◌>>◌, >>-done, done}
use pulseq.Store.Writes.{read_run_tx, exec_run, finish_transition, emit_kind}
use pulseq.Store.Claim.{skip_pending_steps_tx, step_cancelled_code}
use pulseq.Store.Finish.{observe_run_cancel, observed_row, observe_guards, same_run_state}
use pulseq.Store.Trail.{run_state, Trail}
use pulseq.Store.Trail.Finish.{run_event, Leased, holds_lease-Leased}
use pulseq.Store.Trail.Skips.{skip_pending-SkippedAll}
use pulseq.Store.Trail.Claims.{
  CancelledOver, CancelledOver-lands, NoneRunning, cancel_after_skips, explained_code,
}

observe_outcomes :
    {from to : RunState} {g : Guards}
    → RunMove g from ev_cancel_observed to
    → (from ≡ run_running) × (to ≡ run_cancelled)
observe_outcomes (RunMove.cancel a b) = (refl, refl)

observe_inversion :
    (now : ℕ) (id owner actor code : String) (db db' : Db)
    → observe_run_cancel now id owner actor code db ≡ done tt db'
    → (r : Run) × (find_run db id ≡ some r)
      × (r.cancel_requested_at ≢ none)
      × (let o = next_run_state r.state ev_cancel_observed (observe_guards now owner code r) in
          (o.error ≡ none)
          × ((skip_pending_steps_tx id now step_cancelled_code
                  >> finish_transition
                      (exec_run id (same_run_state r.state) (observed_row now code))
                      (run_event id now (emit_kind o.effects) r.state o.state code actor ""))
                db
              ≡ done tt db'))
unfolding observe_run_cancel read_run_tx
observe_inversion now id owner actor code db db' h = elim (Option-cases (find_run db id)) [
  | inl f ↦ absurd (ground arith)
  | inr (r, f) ↦
      let parsed = parse_run_state-name r.state in
      (r, f, (λ e. ground arith), (ground arith, ground arith))
]

observe_run_cancel_over :
    (now : ℕ) (id owner actor code : String) (db db' : Db)
    → WellKeyed db
    → NoneRunning db id
    → observe_run_cancel now id owner actor code db ≡ done tt db'
    → (r : Run) × (find_run db id ≡ some r)
      × RunMove (observe_guards now owner code r) r.state ev_cancel_observed run_cancelled
      × (r.cancel_requested_at ≢ none)
      × CancelledOver db id r.state db'
observe_run_cancel_over now id owner actor code db db' w idle h =
    let (r, found, asked, (accepted, ran)) = observe_inversion now id owner actor code db db' h in
    let g = observe_guards now owner code r in
    let o = next_run_state r.state ev_cancel_observed g in
    let move = next_run_state_sound r.state ev_cancel_observed g accepted in
    let (_, goes) = observe_outcomes move in
    let row = run_event id now (emit_kind o.effects) r.state run_cancelled code actor "" in
    let fin =
      finish_transition (exec_run id (same_run_state r.state) (observed_row now code)) row in
    let ran' =
      subst
        (λ x.
          (skip_pending_steps_tx id now step_cancelled_code
              >> finish_transition (exec_run id (same_run_state r.state) (observed_row now code))
                  (run_event id now (emit_kind o.effects) r.state x code actor ""))
            db
          ≡ done tt db')
        goes ran in
    let (mid, skips, last) =
      >>-done (skip_pending_steps_tx id now step_cancelled_code) fin db db' tt ran' in
    let goes_so = subst (λ x. RunMove g r.state ev_cancel_observed x) goes move in
    (
      r,
      found,
      goes_so,
      asked,
      cancel_after_skips db mid db' id r (same_run_state r.state) (observed_row now code)
          ev_cancel_observed g now (emit_kind o.effects) code actor "" w idle
          (skip_pending-SkippedAll id now step_cancelled_code db mid w explained_code skips) found
          (eq_refl (name_of_run r.state)) (λ q. refl) refl goes_so last,
    )

cancel_leased :
    {from to : RunState} {g : Guards} → RunMove g from ev_cancel_observed to → g.lease_valid ≡ true
cancel_leased (RunMove.cancel a b) = a

-- A cancel that the engine observes was asked for, and the run was running under a live lease of the owner. Its
-- pending steps are skipped and it is cancelled, and no other step and no other run moves, each by a recorded transition,
-- given that the steps have names that are keys and no step of the run is running.
pub observe_run_cancel-CancelledOver :
    (now : ℕ) (id owner actor code : String) (db db' : Db)
    → WellKeyed db
    → NoneRunning db id
    → observe_run_cancel now id owner actor code db ≡ done tt db'
    → (r : Run) × (find_run db id ≡ some r)
      × (r.cancel_requested_at ≢ none)
      × Leased now owner r
      × CancelledOver db id run_running db'
observe_run_cancel-CancelledOver now id owner actor code db db' w idle h =
    let (r, found, move, asked, over) =
      observe_run_cancel_over now id owner actor code db db' w idle h in
    (
      r,
      found,
      asked,
      holds_lease-Leased now owner r (cancel_leased move),
      subst (λ x. CancelledOver db id x db') (observe_outcomes move).0 over,
    )

pub observe_run_cancel-lands :
    (now : ℕ) (id owner actor code : String) (db db' : Db)
    → WellKeyed db
    → NoneRunning db id
    → observe_run_cancel now id owner actor code db ≡ done tt db'
    → Trail db db' × (run_state db' id ≡ some run_cancelled)
observe_run_cancel-lands now id owner actor code db db' w idle h =
    let (_, _, _, _, over) = observe_run_cancel_over now id owner actor code db db' w idle h in
    (over.trail, CancelledOver-lands over)

-- The trail that it leaves.
pub observe_run_cancel-Trail :
    (now : ℕ) (id owner actor code : String) (db db' : Db)
    → WellKeyed db
    → NoneRunning db id
    → observe_run_cancel now id owner actor code db ≡ done tt db'
    → Trail db db'
observe_run_cancel-Trail now id owner actor code db db' w idle h =
    (observe_run_cancel-lands now id owner actor code db db' w idle h).0
