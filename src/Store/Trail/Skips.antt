-- ===== src/Store/Trail/Skips.antt =====
-- `skipPendingStepsTx` of internal/store leaves a trail of one recorded transition for each step that
-- was pending, and no pending step behind.
use pulseq.Prelude.{
  ℕ, ◌≡◌, ◌≢◌, refl, ◌∙◌, subst, false, ◌&&◌, String, List, [], ◌∷◌, some, arith, str_eq, eq_iff,
  true, Option, none, sym, Bool-cases, inl, inr, ap, if◌then◌else◌,
}
use pulseq.Model.State.{StepState, step_pending, step_skipped, ev_upstream_failed}
use pulseq.Model.Guards.{no_guards}
use pulseq.Model.Moves.{skip}
use pulseq.Model.StepFsm.{next_step_state}
use pulseq.Store.Rows.{Step, Db, find_step, is_pending, WellKeyed}
use pulseq.Store.Tx.{>>-done, done}
use pulseq.Store.Writes.{exec_step, finish_transition, emit_kind}
use pulseq.Store.Claim.{skip_step, skip_each, skipped_row, skip_pending_steps_tx, pending_names}
use pulseq.Store.Pending.{
  contains, pending_names_complete, Distinct, AllNames, PendingIn, pending_names-Distinct,
  pending_names-pending,
}
use pulseq.Store.Recording.{StepWrite, finish_transition_step}
use pulseq.Store.Trail.{
  StepMoved-Recorded, Recorded, Trail, still, onward, Trail-append, step_state-find, step_state,
}
use pulseq.Store.Trail.Steps.{step_event, StepWrite-StepMoved}

-- What a round of skips does to the tables.
pub record Skipped (db : Db) (id : String) (ns : List String) (db' : Db) : Type 0 where
  pub same_runs : db'.runs ≡ db.runs
  pub steps_move :
      (j n : String)
      → step_state db' j n
        ≡ (if str_eq id j && contains n ns then some step_skipped else step_state db j n)
  pub keeps_keys : WellKeyed db → WellKeyed db'

skip_step_inversion :
    (id : String) (now : ℕ) (code name : String) (db db' : Db)
    → code ≢ ""
    → skip_step id now code name db ≡ done tt db'
    → finish_transition
        (exec_step id name is_pending (skipped_row now code))
        (step_event id name now "step.skipped" step_pending step_skipped code "")
        db
      ≡ done tt db'
unfolding skip_step next_step_state emit_kind
skip_step_inversion id now code name db db' explained h = ground (arith, eq_iff code "")

-- One skip of a pending step.
skip_step-StepWrite :
    (id : String) (now : ℕ) (code name : String) (db db' : Db) (s : Step)
    → code ≢ ""
    → find_step db id name ≡ some s
    → s.state ≡ step_pending
    → skip_step id now code name db ≡ done tt db'
    → StepWrite db id name step_skipped
        (step_event id name now "step.skipped" s.state step_skipped code "")
        db'
skip_step-StepWrite id now code name db db' s explained found pending h = rw pending (
    finish_transition_step db db' id name is_pending (skipped_row now code) _ s step_skipped found
      (rw pending) (λ q. (refl, refl)) refl
      (skip_step_inversion id now code name db db' explained h))

skip_step-Recorded :
    (id : String) (now : ℕ) (code name : String) (db db' : Db) (s : Step)
    → code ≢ ""
    → name ≢ ""
    → find_step db id name ≡ some s
    → s.state ≡ step_pending
    → skip_step id now code name db ≡ done tt db'
    → Recorded db db'
skip_step-Recorded id now code name db db' s explained named found pending h = StepMoved-Recorded (
    StepWrite-StepMoved db db' id name s step_skipped ev_upstream_failed
      (record no_guards { reason_code = code }) now "step.skipped" code "" named found
      (rw pending (skip explained)) (λ e. cc)
      (skip_step-StepWrite id now code name db db' s explained found pending h))

-- Names of steps that are pending in the tables.
abbrev StillPending : Db → String → String → Type 0
StillPending db id n = (n ≢ "") × (step_state db id n ≡ some step_pending)

StillPending-next :
    (db db' : Db) (id name : String) (ns : List String)
    → ((j n : String)
        → step_state db' j n
          ≡ (if str_eq id j && str_eq name n then some step_skipped else step_state db j n))
    → contains name ns ≡ false
    → AllNames (StillPending db id) ns
    → AllNames (StillPending db' id) ns
unfolding contains
StillPending-next db db' id name [] moves fresh a = tt
StillPending-next db db' id name (n ∷ ns) moves fresh a = (
  (a.0.0, moves id n ∙ ground (arith, eq_iff n name, eq_iff name n)),
  StillPending-next db db' id name ns moves (ground arith) a.1,
)

skip_each_split :
    (id : String) (now : ℕ) (code name : String) (ns : List String) (db db' : Db)
    → skip_each id now code (name ∷ ns) db ≡ done tt db'
    → (mid : Db) × (skip_step id now code name db ≡ done tt mid)
      × (skip_each id now code ns mid ≡ done tt db')
unfolding skip_each
skip_each_split id now code name ns db db' h =
    >>-done (skip_step id now code name) (skip_each id now code ns) db db' tt h

skip_each-Skipped :
    (id : String) (now : ℕ) (code : String) (ns : List String) (db db' : Db)
    → code ≢ ""
    → Distinct ns
    → AllNames (StillPending db id) ns
    → skip_each id now code ns db ≡ done tt db'
    → Trail db db' × Skipped db id ns db'
unfolding skip_each contains
skip_each-Skipped id now code [] db db' explained d a h =
    let same : db ≡ db' = ground arith in
    subst (λ x. Trail db x × Skipped db id [] x) same
      (still, record { same_runs = refl; steps_move = λ j n. ground arith; keeps_keys = λ w. w })
skip_each-Skipped id now code (name ∷ ns) db db' explained d a h =
    let (mid, first, rest) = skip_each_split id now code name ns db db' h in
    let (s, found, pending) = step_state-find db id name step_pending a.0.1 in
    let w = skip_step-StepWrite id now code name db mid s explained found pending first in
    let (trail, k) =
      skip_each-Skipped id now code ns mid db' explained d.1
        (StillPending-next db mid id name ns w.steps_move d.0 a.1) rest in
    (
      Trail-append
          (onward still
            (skip_step-Recorded id now code name db mid s explained a.0.0 found pending first))
          trail,
      record {
        same_runs = k.same_runs ∙ w.same_runs;
        steps_move = λ j n. k.steps_move j n ∙ ground (arith, w.steps_move j n);
        keeps_keys = λ keyed. k.keeps_keys (w.keeps_keys keyed);
      },
    )

PendingIn-StillPending :
    (db : Db) (id : String) (ns : List String)
    → AllNames (PendingIn id db.steps) ns
    → AllNames (StillPending db id) ns
unfolding find_step
PendingIn-StillPending db id [] a = tt
PendingIn-StillPending db id (n ∷ ns) a =
    let (named, s, found, pending) = a.0 in
    ((named, rw found (ap some pending)), PendingIn-StillPending db id ns a.1)

-- After the skips no step of the run is pending, no other step has moved, and each skip is one
-- recorded transition.
pub record SkippedAll (db : Db) (id : String) (db' : Db) : Type 0 where
  pub trail : Trail db db'
  pub runs_same : db'.runs ≡ db.runs
  pub keyed : WellKeyed db → WellKeyed db'
  pub steps_skipped :
      (j n : String)
      → step_state db' j n ≡ (
          if str_eq id j && contains n (pending_names db id)
          then some step_skipped
          else step_state db j n)

pub skip_pending-SkippedAll :
    (id : String) (now : ℕ) (code : String) (db db' : Db)
    → WellKeyed db
    → code ≢ ""
    → skip_pending_steps_tx id now code db ≡ done tt db'
    → SkippedAll db id db'
unfolding skip_pending_steps_tx
skip_pending-SkippedAll id now code db db' w explained h =
    let (trail, k) =
      skip_each-Skipped id now code (pending_names db id) db db' explained
        (pending_names-Distinct db id w)
        (PendingIn-StillPending db id _ (pending_names-pending db id w)) h in
    record {
      trail = trail;
      runs_same = k.same_runs;
      keyed = k.keeps_keys;
      steps_skipped = k.steps_move;
    }

-- What a skip makes of a step: a pending one is skipped, and any other stays.
abbrev pub skipped_if_pending : Option StepState → Option StepState
skipped_if_pending (some step_pending) = some step_skipped
skipped_if_pending (some s) = some s
skipped_if_pending none = none

contains-AllNames :
    (P : String → Type 0) (n : String) (ns : List String)
    → AllNames P ns
    → contains n ns ≡ true
    → P n
unfolding contains
contains-AllNames P n [] a h = absurd (ground (arith, h))
contains-AllNames P n (m ∷ ns) a h = elim (Bool-cases (str_eq m n)) [
  | inl here ↦ subst P ((eq_iff m n).0 here) a.0
  | inr later ↦ contains-AllNames P n ns a.1 (ground arith)
]

skipped_if_pending-other : (o : Option StepState) → o ≢ some step_pending → skipped_if_pending o ≡ o
skipped_if_pending-other none h = refl
skipped_if_pending-other (some step_pending) h = absurd (h refl)
skipped_if_pending-other (some _) h = refl

listed_or_not :
    (db : Db) (id n : String)
    → WellKeyed db
    → (if contains n (pending_names db id) then some step_skipped else step_state db id n)
      ≡ skipped_if_pending (step_state db id n)
listed_or_not db id n w = elim (Bool-cases (contains n (pending_names db id))) [
  | inl listed ↦
      let (named, pending) =
        contains-AllNames (StillPending db id) n (pending_names db id)
          (PendingIn-StillPending db id _ (pending_names-pending db id w)) listed in
      rw (listed, pending) refl
  | inr unlisted ↦ rw unlisted (
      sym (
        skipped_if_pending-other (step_state db id n) λ pending.
          let (s, found, is) = step_state-find db id n step_pending pending in
          let listed = pending_names_complete db id n s found is in cc))
]

-- The skips, read by the states: the pending steps of the run are skipped, and no other step moves.
pub SkippedAll-steps :
    (db db' : Db) (id : String)
    → WellKeyed db
    → SkippedAll db id db'
    → (j n : String)
    → step_state db' j n
      ≡ (if str_eq id j then skipped_if_pending (step_state db j n) else step_state db j n)
SkippedAll-steps db db' id w k j n = elim (Bool-cases (str_eq id j)) [
  | inl here ↦
      let same = (eq_iff id j).0 here in
      k.steps_skipped j n
      ∙ rw here (
          subst
            (λ x.
              (if contains n (pending_names db id) then some step_skipped else step_state db x n)
              ≡ skipped_if_pending (step_state db x n))
            same (listed_or_not db id n w))
  | inr away ↦ k.steps_skipped j n ∙ rw away refl
]
