-- ===== src/Store/Materialize/Queued.antt =====
-- `MaterializeManualTrigger` of internal/store keeps the tables sound.
use pulseq.Prelude.{
  ◌++◌, ap, sym, ◌∙◌, ◌≡◌, ◌≢◌, refl, ℕ, String, List, [], ◌∷◌, map, none, some, arith,
}
use pulseq.Model.State.{run_queued}
use pulseq.Store.Rows.{Tick, Trigger, Db, find_run}
use pulseq.Store.Tx.{>>-done, done, Failure}
use pulseq.Store.Trail.{run_state}
use pulseq.Store.Invariant.{Sound}
use pulseq.Store.Invariant.Unseen.{Unseen, Unseen-Sound}
use pulseq.Store.Create.Queued.{Heard, enqueued-Heard, AllNamed, enqueued-Sound}
use pulseq.Store.Materialize.{
  ManualTriggerInput, ManualTriggerResult, SpecStep, CurrentVersion, insert_tick, insert_trigger,
  or_text, frozen_step, insert_frozen_steps, manual_run_row, materialize_version,
  materialize_manual_trigger,
}

insert_tick-Unseen : (t : Tick) (db db' : Db) → insert_tick t db ≡ done tt db' → Unseen db db'
unfolding insert_tick find_run
insert_tick-Unseen t db db' h = record {
  same_runs = λ j. let same : db'.runs ≡ db.runs = ground arith in rw same refl;
  same_steps = ground arith;
  same_events = ground arith;
}

insert_trigger-Unseen :
    (t : Trigger) (db db' : Db) → insert_trigger t db ≡ done tt db' → Unseen db db'
unfolding insert_trigger find_run
insert_trigger-Unseen t db db' h = record {
  same_runs = λ j. let same : db'.runs ≡ db.runs = ground arith in rw same refl;
  same_steps = ground arith;
  same_events = ground arith;
}

-- Steps of a spec that all have a name.
abbrev pub SpecNamed : List SpecStep → Type 0
SpecNamed [] = Unit {0}
SpecNamed (s ∷ rest) = (s.name ≢ "") × SpecNamed rest

SpecNamed-AllNamed : (steps : List SpecStep) → SpecNamed steps → AllNamed (map frozen_step steps)
SpecNamed-AllNamed [] n = tt
SpecNamed-AllNamed (s ∷ rest) n = (n.0, SpecNamed-AllNamed rest n.1)

-- The steps of the version that is current.
abbrev pub VersionNamed : CurrentVersion → Type 0
VersionNamed none = Unit {0}
VersionNamed (some (version, none)) = Unit {0}
VersionNamed (some (version, some steps)) = SpecNamed steps

materialize_version-Sound :
    (tick_id trigger_id id : String) (now : ℕ) (i : ManualTriggerInput) (version : String)
    (steps : List SpecStep) (db db' : Db) (out : ManualTriggerResult)
    → SpecNamed steps
    → materialize_version tick_id trigger_id id now i version steps db ≡ done out db'
    → Sound db
    → Sound db' × (run_state db' id ≡ some run_queued)
unfolding materialize_version insert_frozen_steps manual_run_row
materialize_version-Sound tick_id trigger_id id now i version steps db db' out named h s =
    let (one, tick, a) = >>-done (insert_tick _) _ db db' out h in
    let (two, trigger, b) = >>-done (insert_trigger _) _ one db' out a in
    let params = or_text "{}" i.params_json in
    let run = manual_run_row id now i.job_name version trigger_id params in
    enqueued-Sound id now run (map frozen_step steps) "" (or_text "system" i.actor)
      (record { tick_id = tick_id; trigger_id = trigger_id; run = run }) out two db' refl refl
      (SpecNamed-AllNamed steps named) b
      (Unseen-Sound one two (insert_trigger-Unseen _ one two trigger)
        (Unseen-Sound db one (insert_tick-Unseen _ db one tick) s))

-- A manual trigger on a version with named steps leaves sound tables sound, and its run is queued.
pub materialize_manual_trigger-Sound :
    (bad_spec : Failure) (current : CurrentVersion) (tick_id trigger_id id : String) (now : ℕ)
    (i : ManualTriggerInput) (db db' : Db) (out : ManualTriggerResult)
    → VersionNamed current
    → materialize_manual_trigger bad_spec current tick_id trigger_id id now i db ≡ done out db'
    → Sound db
    → Sound db' × (run_state db' id ≡ some run_queued)
unfolding materialize_manual_trigger
materialize_manual_trigger-Sound bad_spec none tick_id trigger_id id now i db db' out named h s =
    absurd (ground arith)
materialize_manual_trigger-Sound bad_spec (some (version, none)) tick_id trigger_id id now i db db'
      out named h s =
    absurd (ground arith)
materialize_manual_trigger-Sound bad_spec (some (version, some steps)) tick_id trigger_id id now i
      db db' out named h s =
    materialize_version-Sound tick_id trigger_id id now i version steps db db' out named h s

-- A manual trigger writes one event, about its new run.
pub materialize_manual_trigger-Heard :
    (bad_spec : Failure) (current : CurrentVersion) (tick_id trigger_id id : String) (now : ℕ)
    (i : ManualTriggerInput) (db db' : Db) (out : ManualTriggerResult)
    → materialize_manual_trigger bad_spec current tick_id trigger_id id now i db ≡ done out db'
    → Heard db db'
unfolding materialize_manual_trigger materialize_version insert_frozen_steps manual_run_row
materialize_manual_trigger-Heard bad_spec none tick_id trigger_id id now i db db' out h =
    absurd (ground arith)
materialize_manual_trigger-Heard bad_spec (some (version, none)) tick_id trigger_id id now i db db'
      out h =
    absurd (ground arith)
materialize_manual_trigger-Heard bad_spec (some (version, some steps)) tick_id trigger_id id now i
      db db' out h =
    let (one, tick, a) = >>-done (insert_tick _) _ db db' out h in
    let (two, trigger, b) = >>-done (insert_trigger _) _ one db' out a in
    let params = or_text "{}" i.params_json in
    let run = manual_run_row id now i.job_name version trigger_id params in
    let silent_tick = insert_tick-Unseen _ db one tick in
    let silent_trigger = insert_trigger-Unseen _ one two trigger in
    let k =
      enqueued-Heard id now run (map frozen_step steps) "" (or_text "system" i.actor)
        (record { tick_id = tick_id; trigger_id = trigger_id; run = run }) out two db' refl b in
    record {
      id = k.id;
      event = k.event;
      fresh = sym (silent_tick.same_runs k.id) ∙ sym (silent_trigger.same_runs k.id) ∙ k.fresh;
      one_event =
          k.one_event
          ∙ ap (λ x. x ++ k.event ∷ []) (silent_trigger.same_events ∙ silent_tick.same_events);
      about = k.about;
      no_step = k.no_step;
      leaves = k.leaves;
    }
