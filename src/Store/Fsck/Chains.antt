-- ===== src/Store/Fsck/Chains.antt =====
-- Every call of the store keeps the event chains whole, so the check I15 of internal/store/fsck.go finds
-- nothing.
use pulseq.Prelude.{◌≡◌, ◌≢◌, refl, ◌∙◌, false, [], ◌∷◌, ◌++◌, none, some, arith}
use pulseq.Model.State.{run_queued, name_of_run, name_of_step}
use pulseq.Store.Rows.{RunEvent, Db}
use pulseq.Store.Trail.{
  RunMoved-Recorded, StepMoved-Recorded, step_state-find, Recorded, run_recorded, step_recorded,
  Trail, still, onward,
}
use pulseq.Store.Trail.Steps.{
  find_step_named, start_step-StepMoved, record_step_outcome-StepMoved, start_step-moves,
  record_step_outcome-moves,
}
use pulseq.Store.Trail.Finish.{finish_run-RunMoved}
use pulseq.Store.Writes.{event_row}
use pulseq.Store.StepMoves.{or_else}
use pulseq.Store.Invariant.Restated.{Restates, of_run, of_step}
use pulseq.Store.Trail.Claims.{claim_run-Trail, claim_from_queue}
use pulseq.Store.Trail.Cancels.{observe_run_cancel-Trail}
use pulseq.Store.Create.Queued.{Heard, create_run_with_steps-Heard}
use pulseq.Store.Materialize.Queued.{materialize_manual_trigger-Heard}
use pulseq.Store.Invariant.{Sound}
use pulseq.Store.Invariant.Kept.{Trail-Sound}
use pulseq.Store.Calls.{
  Call, Calls, none_yet, then_call, claimed, started, ended, finished, observed, requested, created,
  materialized, appended, Heeds, AllHeed, append_event_alone_lem, Restates-at, Calls-Sound,
  request_cancel-Unseen,
}
use pulseq.Store.Fsck.{breaks, chain_breaks, broken_chains}
use pulseq.Store.Fsck.Unbroken.{
  Plain, Plain-append, told_run, told_step, picks_up, first_of_chain, chain_breaks-append,
}

-- Tables whose events are of runs and of named steps, in chains that the check passes.
record Chained (db : Db) : Type 0 where
  plain : Plain db.events
  whole : broken_chains db ≡ []

Chained-append :
    (db db' : Db) (e : RunEvent)
    → db'.events ≡ db.events ++ e ∷ []
    → e.step_name ≢ some ""
    → breaks db.events e ≡ false
    → Chained db
    → Chained db'
unfolding broken_chains
Chained-append db db' e one named next c = record {
  plain = rw one (Plain-append db.events e c.plain named);
  whole = rw one (chain_breaks-append [] db.events e c.whole next);
}

same-Chained : (db db' : Db) → db'.events ≡ db.events → Chained db → Chained db'
unfolding broken_chains
same-Chained db db' same c = record { plain = rw same c.plain; whole = rw same c.whole }

Recorded-Chained : (db db' : Db) → Recorded db db' → Sound db → Chained db → Chained db'
Recorded-Chained db db' (run_recorded id from to ev g e was move closes moves steps one row) s c =
    Chained-append db db' e one (λ h. let no = row.no_step in cc)
      (picks_up e (some (name_of_run run_queued)) (name_of_run from) db.events row.leaves
        (told_run e _ db.events row.no_step c.plain ∙ rw (row.about) (s.run_told id from was)))
      c
Recorded-Chained db db'
      (step_recorded id name from to ev g e was move first runs moves one row keys) s c =
    let (q, found, _) = step_state-find db id name from was in
    let named = find_step_named db id name q s.keyed found in
    Chained-append db db' e one (λ h. let is = row.of_step in named (ground arith))
      (picks_up e (some "pending") (name_of_step from) db.events row.leaves (
        told_step e name _ db.events row.of_step named
        ∙ rw (row.about) (s.step_told id name from was)))
      c

Trail-Chained : {db db' : Db} → Trail db db' → Sound db → Chained db → Chained db'
Trail-Chained still s c = c
Trail-Chained (onward {mid = mid} {db' = db'} t r) s c =
    Recorded-Chained mid db' r (Trail-Sound t s) (Trail-Chained t s c)

Heard-Chained : (db db' : Db) → Heard db db' → Sound db → Chained db → Chained db'
Heard-Chained db db' k s c =
    Chained-append db db' k.event k.one_event (λ h. let no = k.no_step in cc)
      (first_of_chain k.event db.events (
        told_run k.event none db.events k.no_step c.plain
        ∙ rw (k.about) (s.run_unheard k.id none k.fresh)))
      c

-- An event that restates its run's or its step's state does not break a chain.
Restates-Chained :
    (db db' : Db) (e : RunEvent)
    → db'.events ≡ db.events ++ e ∷ []
    → Restates db e
    → Sound db
    → Chained db
    → Chained db'
Restates-Chained db db' e one (of_run r was no_step leaves enters) s c =
    Chained-append db db' e one (λ h. cc)
      (picks_up e (some (name_of_run run_queued)) (name_of_run r) db.events leaves
        (told_run e _ db.events no_step c.plain ∙ s.run_told e.run_id r was))
      c
Restates-Chained db db' e one (of_step name t was is leaves enters) s c =
    let (q, found, _) = step_state-find db e.run_id name t was in
    let named = find_step_named db e.run_id name q s.keyed found in
    Chained-append db db' e one (λ h. named (ground arith))
      (picks_up e (some "pending") (name_of_step t) db.events leaves
        (told_step e name _ db.events is named ∙ s.step_told e.run_id name t was))
      c

Call-Chained : (db db' : Db) (call : Call db db') → Heeds call → Sound db → Chained db → Chained db'
Call-Chained db db' (claimed now id owner ttl to h) _ s c =
    Trail-Chained
      (claim_run-Trail now id owner ttl db db' to s.keyed
        (λ n. s.quiet id n (claim_from_queue now id owner ttl db db' to h)) h)
      s c
Call-Chained db db' (started now id name h) _ s c =
    let (named, _) = start_step-moves now id name db db' s.keyed h in
    Recorded-Chained db db' (StepMoved-Recorded (start_step-StepMoved now id name db db' named h).1)
      s c
Call-Chained db db' (ended now id name out h) other s c =
    let (named, _) = record_step_outcome-moves now id name out db db' s.keyed other h in
    let (_, _, _, m) = record_step_outcome-StepMoved now id name out db db' named other h in
    Recorded-Chained db db' (StepMoved-Recorded m) s c
Call-Chained db db' (finished now id owner fr to h) _ s c =
    let (_, _, _, _, m) = finish_run-RunMoved now id owner fr db db' to h in
    Recorded-Chained db db' (RunMoved-Recorded m) s c
Call-Chained db db' (observed now id owner actor code h) idle s c =
    Trail-Chained (observe_run_cancel-Trail now id owner actor code db db' s.keyed idle h) s c
Call-Chained db db' (requested now id by why asked h) _ s c =
    same-Chained db db' (request_cancel-Unseen now id by why db db' asked h).same_events c
Call-Chained db db' (created id now n run h) named s c =
    Heard-Chained db db' (create_run_with_steps-Heard id now n db db' run h) s c
Call-Chained db db' (materialized bad_spec current tick_id trigger_id id now i out h) named s c =
    Heard-Chained db db'
      (materialize_manual_trigger-Heard bad_spec current tick_id trigger_id id now i db db' out h) s
      c
Call-Chained db db' (appended now at e h) says s c =
    let (_, _, events) = append_event_alone_lem now at e db db' h in
    Restates-Chained db db' (event_row (record e { at = or_else at now })) events
      (Restates-at db e (or_else at now) says) s c

Calls-Chained :
    {db db' : Db} (calls : Calls db db') → AllHeed calls → Sound db → Chained db → Chained db'
Calls-Chained none_yet _ s c = c
Calls-Chained (then_call {mid = mid} {db' = db'} before call) heed s c =
    Call-Chained mid db' call heed.1 (Calls-Sound before heed.0 s) (Calls-Chained before heed.0 s c)

-- The consistency check of the event chains finds nothing in tables that any sequence of committed calls of the store
-- made of sound tables without an event, where the calls heed what callers are to heed (`Heeds`: no outcome is
-- `step_started`, a cancel is observed when no step of the run is running, new steps have names, and an event that
-- is recorded on its own restates a state): each event of a run or of a step leaves the state that the one before it
-- entered.
pub calls_unbroken :
    {db db' : Db} (calls : Calls db db')
    → AllHeed calls
    → Sound db
    → db.events ≡ []
    → broken_chains db' ≡ []
unfolding broken_chains chain_breaks
calls_unbroken calls heed s fresh =
    (Calls-Chained calls heed s (record { plain = rw fresh tt; whole = rw fresh refl })).whole
