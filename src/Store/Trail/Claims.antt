-- ===== src/Store/Trail/Claims.antt =====
-- `ClaimRun` of internal/store leaves a trail of recorded transitions.
use mathlib.Core.Path.{subst₂}
use pulseq.Prelude.{
  eq_refl, ◌⊎◌, ℕ, ◌+◌, ◌≤◌, str_eq, if◌then◌else◌, Option, false, not, ◌≡◌, ◌≢◌, refl, sym, ◌∙◌,
  subst, Bool, true, String, none, some, arith, eq_iff, eq_refl, inl, inr, ap, Bool-cases,
  Option-cases,
}
use pulseq.Prelude.Int.{ℤ}
use pulseq.Model.State.{
  RunState, run_queued, run_running, run_cancelled, StepState, step_pending, step_skipped,
  step_running, ev_claim, is_terminal_run, is_terminal_step, Event,
}
use pulseq.Model.Guards.{Guards, no_guards}
use pulseq.Model.Moves.{RunMove, next_run_state_sound}
use pulseq.Model.Parse.RoundTrip.{parse_run_state-name}
use pulseq.Model.RunFsm.{next_run_state}
use pulseq.Store.Rows.{Run, Db, find_run, find_step, WellKeyed, or_empty, is_null}
use pulseq.Store.Tx.{◌>>◌, >>-done, pure, done}
use pulseq.Store.Writes.{read_run_tx, exec_run, finish_transition, emit_kind}
use pulseq.Store.Claim.{
  claim_run, claim_to, claim_guards, claimed_row, cancelled_early_row, skip_pending_steps_tx,
  pending_names, is_queued, run_cancelled_manual, step_cancelled_code, lease_ttl,
}
use pulseq.Store.Pending.{contains, pending_names_complete}
use pulseq.Store.Recording.{finish_transition_run}
use pulseq.Store.Trail.{
  RunMoved, RunMoved-Recorded, Trail, still, onward, step_state-find, run_state, step_state,
}
use pulseq.Store.Trail.Finish.{run_event, RunWrite-RunMoved}
use pulseq.Store.Trail.Skips.{
  SkippedAll-steps, skipped_if_pending, SkippedAll, skip_pending-SkippedAll,
}

-- A run none of whose steps is running.
abbrev pub NoneRunning : Db → String → Type 0
NoneRunning db id = (n : String) → step_state db id n ≢ some step_running

ended_of : (t : StepState) → t ≢ step_pending → t ≢ step_running → is_terminal_step t ≡ true
unfolding is_terminal_step
ended_of t p q = ground arith

-- When no step runs, the skips leave every step of the run ended.
skipped_ended :
    (db db' : Db) (id n : String) (t : StepState)
    → NoneRunning db id
    → SkippedAll db id db'
    → step_state db' id n ≡ some t
    → is_terminal_step t ≡ true
skipped_ended db db' id n t idle k h =
    let moved = sym (k.steps_skipped id n) ∙ h in
    let reflexive = eq_refl id in
    elim (Bool-cases (contains n (pending_names db id))) [
      | inl listed ↦
          let skipped : step_skipped ≡ t = ground arith in
          subst (λ x. is_terminal_step x ≡ true) skipped (unfold is_terminal_step in refl)
      | inr unlisted ↦
          let before : step_state db id n ≡ some t = ground arith in
          let (s, found, is) = step_state-find db id n t before in
          ended_of t (λ e. let listed = pending_names_complete db id n s found (is ∙ e) in cc)
            (λ e. idle n (before ∙ ap some e))
    ]

-- A run is cancelled: its pending steps are skipped, no other step moves, and then it alone moves;
-- each of these is one recorded transition.
pub record CancelledOver (db : Db) (id : String) (from : RunState) (db' : Db) : Type 0 where
  pub trail : Trail db db'
  pub was : run_state db id ≡ some from
  pub runs_move :
      (j : String) → run_state db' j ≡ (if str_eq id j then some run_cancelled else run_state db j)
  pub steps_move :
      (j n : String)
      → step_state db' j n
        ≡ (if str_eq id j then skipped_if_pending (step_state db j n) else step_state db j n)

-- The run's own move behind the skips: the run is as it was, and closes over ended steps.
pub cancel_after_skips :
    (db mid db' : Db) (id : String) (r : Run) (within : RunState → Bool) (f : Run → Run)
    (ev : Event) (g : Guards) (at : ℕ) (kind reason actor detail : String)
    → WellKeyed db
    → NoneRunning db id
    → SkippedAll db id mid
    → find_run db id ≡ some r
    → within r.state ≡ true
    → ((q : Run) → (f q).id ≡ q.id)
    → (f r).state ≡ run_cancelled
    → RunMove g r.state ev run_cancelled
    → finish_transition
        (exec_run id within f)
        (run_event id at kind r.state run_cancelled reason actor detail)
        mid
      ≡ done tt db'
    → CancelledOver db id r.state db'
unfolding find_run find_step
cancel_after_skips db mid db' id r within f ev g at kind reason actor detail keyed idle k found w
      keeps goes move ran =
    let found' : find_run mid id ≡ some r = rw (k.runs_same) found in
    let write =
      finish_transition_run mid db' id within f _ r run_cancelled found' w keeps goes ran in
    record {
      trail = onward k.trail (
          RunMoved-Recorded (
            RunWrite-RunMoved mid db' id r run_cancelled ev g at kind reason actor detail found'
              move
              (record {
                over_terminal = λ _ n t h. skipped_ended db mid id n t idle k h;
                forward = λ e. cc;
              })
              write));
      was = rw found refl;
      runs_move = λ j. write.runs_move j ∙ rw (k.runs_same) refl;
      steps_move = λ j n. rw (write.same_steps) (SkippedAll-steps db mid id keyed k j n);
    }

pub CancelledOver-lands :
    {db db' : Db} {id : String} {from : RunState}
    → CancelledOver db id from db'
    → run_state db' id ≡ some run_cancelled
CancelledOver-lands {id = id} c = c.runs_move id ∙ rw (eq_refl id) refl

-- The guards of a claim that starts a run.
abbrev pub start_guards : ℕ → Run → Guards
start_guards now r = record no_guards { now = now; available_at = r.available_at }

-- What a claim does: it starts a run that was queued, is due and that nobody asked to cancel, and
-- moves no step; or it cancels a queued run that somebody asked to cancel.
pub data ClaimOutcome (now : ℕ) (db : Db) (id : String) (r : Run) : RunState → Db → Type 0 where
  starts :
      {db' : Db}
      → r.cancel_requested_at ≡ none
      → r.available_at ≤ now
      → RunMoved db db' id run_queued ev_claim (start_guards now r) run_running
      → ClaimOutcome now db id r run_running db'
  cancels :
      {db' : Db}
      → r.cancel_requested_at ≢ none
      → CancelledOver db id run_queued db'
      → ClaimOutcome now db id r run_cancelled db'

-- What a claim leaves: the run in the state that it answers, and its steps alone if it runs.
pub record Claimed (now : ℕ) (db : Db) (id : String) (to : RunState) (db' : Db) : Type 0 where
  pub run : Run
  pub found : find_run db id ≡ some run
  pub done_so : ClaimOutcome now db id run to db'
  pub trail : Trail db db'
  pub lands : run_state db' id ≡ some to
  pub outcome : ((to ≡ run_running) × (db'.steps ≡ db.steps)) ⊎ (to ≡ run_cancelled)

claim_outcomes :
    {from to : RunState} {g : Guards}
    → RunMove g from ev_claim to
    → (from ≡ run_queued) × ((to ≡ run_running) ⊎ (to ≡ run_cancelled))
claim_outcomes (RunMove.start a b) = (refl, inl refl)
claim_outcomes (RunMove.cancel_early a b) = (refl, inr refl)

claim_starts :
    {from : RunState} {g : Guards}
    → RunMove g from ev_claim run_running
    → (g.cancel_requested ≡ false) × (g.available_at ≤ g.now)
claim_starts (RunMove.start a b) = (a, b)

claim_cancels :
    {from : RunState} {g : Guards}
    → RunMove g from ev_claim run_cancelled
    → g.cancel_requested ≡ true
claim_cancels (RunMove.cancel_early a b) = a

not_null : (o : Option ℕ) → not (is_null o) ≡ true → o ≢ none
not_null none h e = absurd (ground (arith, h))
not_null (some a) h e = cc

is_null-none : (o : Option ℕ) → not (is_null o) ≡ false → o ≡ none
is_null-none none h = refl
is_null-none (some a) h = absurd (ground (arith, h))

pub claim_inversion :
    (now : ℕ) (id owner : String) (ttl : ℤ) (db db' : Db) (to : RunState)
    → claim_run now id owner ttl db ≡ done to db'
    → (r : Run) × (find_run db id ≡ some r)
      × (let o = next_run_state r.state ev_claim (claim_guards now r) in
          (o.error ≡ none)
          × (claim_to now id owner (lease_ttl ttl) r r.state (emit_kind o.effects) o.state db
              ≡ done to db'))
unfolding claim_run read_run_tx
claim_inversion now id owner ttl db db' to h = elim (Option-cases (find_run db id)) [
  | inl f ↦ absurd (ground arith)
  | inr (r, f) ↦ let parsed = parse_run_state-name r.state in (r, f, (ground arith, ground arith))
]

running_open : is_terminal_run run_running ≢ true
unfolding is_terminal_run
running_open = λ e. cc

pub explained_code : step_cancelled_code ≢ ""
explained_code = λ e. ground (arith, eq_iff step_cancelled_code "")

start-Claimed :
    (now : ℕ) (id owner kind : String) (ttl : ℕ) (db db' : Db) (to : RunState) (r : Run)
    → find_run db id ≡ some r
    → r.state ≡ run_queued
    → RunMove (claim_guards now r) r.state ev_claim run_running
    → claim_to now id owner ttl r r.state kind run_running db ≡ done to db'
    → Claimed now db id to db'
unfolding claim_to claim_guards
start-Claimed now id owner kind ttl db db' to r found queued move h =
    let (mid, ran, last) =
      >>-done
        (finish_transition (exec_run id is_queued (claimed_row now owner (now + ttl)))
          (run_event id now kind r.state run_running "" owner ""))
        (pure run_running) db db' to h in
    let write =
      finish_transition_run db mid id is_queued (claimed_row now owner (now + ttl)) _ r run_running
        found (rw queued) (λ q. refl) refl ran in
    let same : mid ≡ db' = ground arith in
    let answer : run_running ≡ to = ground arith in
    let (nobody, due) = claim_starts move in
    let moved : RunMoved db mid id run_queued ev_claim (start_guards now r) run_running =
      subst (λ x. RunMoved db mid id x ev_claim (start_guards now r) run_running) queued
        (RunWrite-RunMoved db mid id r run_running ev_claim (start_guards now r) now kind "" owner
          "" found (rw queued (RunMove.start refl due))
          (record { over_terminal = λ e name s t. absurd (running_open e); forward = λ e. cc })
          write) in
    subst₂ (Claimed now db id) answer same (record {
      run = r;
      found = found;
      done_so = starts (is_null-none r.cancel_requested_at nobody) due moved;
      trail = onward still (RunMoved-Recorded moved);
      lands = write.runs_move id ∙ rw (eq_refl id) refl;
      outcome = inl (refl, write.same_steps);
    })

cancel-Claimed :
    (now : ℕ) (id owner kind : String) (ttl : ℕ) (db db' : Db) (to : RunState) (r : Run)
    → WellKeyed db
    → NoneRunning db id
    → find_run db id ≡ some r
    → r.state ≡ run_queued
    → RunMove (claim_guards now r) r.state ev_claim run_cancelled
    → claim_to now id owner ttl r r.state kind run_cancelled db ≡ done to db'
    → Claimed now db id to db'
unfolding claim_to claim_guards
cancel-Claimed now id owner kind ttl db db' to r w idle found queued move h =
    let (fin, both, last) =
      >>-done
        (skip_pending_steps_tx id now step_cancelled_code
          >> finish_transition (exec_run id is_queued (cancelled_early_row now)) (
              run_event id now kind r.state run_cancelled run_cancelled_manual
                (or_empty r.cancel_requested_by) ""))
        (pure run_cancelled) db db' to h in
    let (mid, skips, ran) =
      >>-done (skip_pending_steps_tx id now step_cancelled_code)
        (finish_transition (exec_run id is_queued (cancelled_early_row now)) (
          run_event id now kind r.state run_cancelled run_cancelled_manual
            (or_empty r.cancel_requested_by) ""))
        db fin tt both in
    let same : fin ≡ db' = ground arith in
    let k = skip_pending-SkippedAll id now step_cancelled_code db mid w explained_code skips in
    let answer : run_cancelled ≡ to = ground arith in
    let over : CancelledOver db id run_queued fin =
      subst (λ x. CancelledOver db id x fin) queued
        (cancel_after_skips db mid fin id r is_queued (cancelled_early_row now) ev_claim
          (claim_guards now r) now kind run_cancelled_manual (or_empty r.cancel_requested_by) "" w
          idle k found (rw queued) (λ q. refl) refl move ran) in
    subst₂ (Claimed now db id) answer same (record {
      run = r;
      found = found;
      done_so = cancels (not_null r.cancel_requested_at (claim_cancels move)) over;
      trail = over.trail;
      lands = CancelledOver-lands over;
      outcome = inr refl;
    })

pub claim_run-Claimed :
    (now : ℕ) (id owner : String) (ttl : ℤ) (db db' : Db) (to : RunState)
    → WellKeyed db
    → NoneRunning db id
    → claim_run now id owner ttl db ≡ done to db'
    → Claimed now db id to db'
claim_run-Claimed now id owner ttl db db' to w idle h =
    let (r, found, (accepted, ran)) = claim_inversion now id owner ttl db db' to h in
    let o = next_run_state r.state ev_claim (claim_guards now r) in
    let move = next_run_state_sound r.state ev_claim (claim_guards now r) accepted in
    let (queued, outcome) = claim_outcomes move in
    elim outcome [
      | inl goes ↦
          start-Claimed now id owner (emit_kind o.effects) (lease_ttl ttl) db db' to r found queued
            (subst (λ x. RunMove (claim_guards now r) r.state ev_claim x) goes move)
            (subst
              (λ x.
                claim_to now id owner (lease_ttl ttl) r r.state (emit_kind o.effects) x db
                ≡ done to db')
              goes ran)
      | inr goes ↦
          cancel-Claimed now id owner (emit_kind o.effects) (lease_ttl ttl) db db' to r w idle found
            queued (subst (λ x. RunMove (claim_guards now r) r.state ev_claim x) goes move)
            (subst
              (λ x.
                claim_to now id owner (lease_ttl ttl) r r.state (emit_kind o.effects) x db
                ≡ done to db')
              goes ran)
    ]

-- A claim that succeeds answers running and starts the queued run, which is due and which nobody asked to cancel, and moves
-- no other run and no step; or it answers cancelled, for a queued run that somebody asked to cancel, and that
-- run is cancelled, its pending steps are skipped, and nothing else moves, each by a recorded transition. The steps have
-- names that are keys, and no step of the run is running.
pub claim_run-ClaimOutcome :
    (now : ℕ) (id owner : String) (ttl : ℤ) (db db' : Db) (to : RunState)
    → WellKeyed db
    → NoneRunning db id
    → claim_run now id owner ttl db ≡ done to db'
    → (r : Run) × (find_run db id ≡ some r) × ClaimOutcome now db id r to db'
claim_run-ClaimOutcome now id owner ttl db db' to w idle h =
    let c = claim_run-Claimed now id owner ttl db db' to w idle h in (c.run, c.found, c.done_so)

-- The trail that a claim leaves.
pub claim_run-Trail :
    (now : ℕ) (id owner : String) (ttl : ℤ) (db db' : Db) (to : RunState)
    → WellKeyed db
    → NoneRunning db id
    → claim_run now id owner ttl db ≡ done to db'
    → Trail db db'
claim_run-Trail now id owner ttl db db' to w idle h =
    (claim_run-Claimed now id owner ttl db db' to w idle h).trail

-- A run that `ClaimRun` claims was in the queue.
pub claim_from_queue :
    (now : ℕ) (id owner : String) (ttl : ℤ) (db db' : Db) (to : RunState)
    → claim_run now id owner ttl db ≡ done to db'
    → run_state db id ≡ some run_queued
claim_from_queue now id owner ttl db db' to h =
    let (r, found, (accepted, ran)) = claim_inversion now id owner ttl db db' to h in
    let (queued, _) =
      claim_outcomes (next_run_state_sound r.state ev_claim (claim_guards now r) accepted) in
    rw found (ap some queued)
