-- ===== src/Store/Create/Announced.antt =====
-- The event of a new run, which says that it is in the queue.
use pulseq.Prelude.{
  subst, sym, ap, ◌∙◌, ◌≡◌, refl, ℕ, String, [], ◌∷◌, ◌++◌, Option, none, some, str_eq, eq_iff,
  if◌then◌else◌, arith, Bool-cases, inl, inr,
}
use pulseq.Model.State.{run_queued, name_of_run}
use pulseq.Store.Rows.{RunEvent, Db, find_run, find_step, null_if_empty}
use pulseq.Store.Tx.{done}
use pulseq.Store.Trail.{run_state, step_state}
use pulseq.Store.Invariant.{Sound, told, tells_run, tells_step}
use pulseq.Store.Invariant.Kept.{told-append}
use pulseq.Store.Writes.{append_run_event, event_row}
use pulseq.Store.Create.{queued_event}

-- An event that says that a run is in the queue, behind tables that say so.
pub record Announced (db : Db) (id : String) (e : RunEvent) (db' : Db) : Type 0 where
  pub same_runs : db'.runs ≡ db.runs
  pub same_steps : db'.steps ≡ db.steps
  pub one_event : db'.events ≡ db.events ++ e ∷ []
  pub about : e.run_id ≡ id
  pub no_step : e.step_name ≡ none
  pub enters : e.to_state ≡ some (name_of_run run_queued)
  pub leaves : e.from_state ≡ none

told_behind :
    (db db' : Db) (id j : String) (e : RunEvent) (start : Option String)
    → Announced db id e db'
    → told (tells_run j) start db'.events
      ≡ (if str_eq id j then some (name_of_run run_queued) else told (tells_run j) start db.events)
told_behind db db' id j e start k =
    let appended = told-append (tells_run j) start db.events e in
    rw (k.one_event, appended, k.about, k.no_step, k.enters)
      (ground (arith, eq_iff id j, eq_iff j id))

step_told_behind :
    (db db' : Db) (id j n : String) (e : RunEvent) (start : Option String)
    → Announced db id e db'
    → told (tells_step j n) start db'.events ≡ told (tells_step j n) start db.events
step_told_behind db db' id j n e start k =
    let appended = told-append (tells_step j n) start db.events e in
    rw (k.one_event, appended, k.no_step) (ground arith)

pub Announced-Sound :
    (db db' : Db) (id : String) (e : RunEvent)
    → run_state db id ≡ some run_queued
    → Announced db id e db'
    → Sound db
    → Sound db'
unfolding find_run find_step
Announced-Sound db db' id e queued k s =
    let runs : (j : String) → run_state db' j ≡ run_state db j = λ j. rw (k.same_runs) refl in
    let steps : (j n : String) → step_state db' j n ≡ step_state db j n =
      λ j n. rw (k.same_steps) refl in
    record {
      keyed = record {
        unique = rw (k.same_steps) s.keyed.unique;
        named = rw (k.same_steps) s.keyed.named;
      };
      ended = λ j n q t running over there.
          s.ended j n q t (sym (runs j) ∙ running) over (sym (steps j n) ∙ there);
      quiet = λ j n waits moves. s.quiet j n (sym (runs j) ∙ waits) (sym (steps j n) ∙ moves);
      owned = λ j n t there.
          let (q, running) = s.owned j n t (sym (steps j n) ∙ there) in (q, runs j ∙ running);
      run_unheard = λ j start gone.
          let before = sym (runs j) ∙ gone in
          let tells = told_behind db db' id j e start k in
          elim (Bool-cases (str_eq id j)) [
            | inl here ↦
                let there =
                  subst (λ x. run_state db x ≡ some run_queued) ((eq_iff id j).0 here) queued in
                absurd (ground arith)
            | inr away ↦ tells ∙ rw away (s.run_unheard j start before)
          ];
      step_unheard = λ j n start gone.
          step_told_behind db db' id j n e start k
          ∙ s.step_unheard j n start (sym (steps j n) ∙ gone);
      run_told = λ j q running.
          let before = sym (runs j) ∙ running in
          let tells = told_behind db db' id j e (some (name_of_run run_queued)) k in
          elim (Bool-cases (str_eq id j)) [
            | inl here ↦
                let there =
                  subst (λ x. run_state db x ≡ some run_queued) ((eq_iff id j).0 here) queued in
                let is : run_queued ≡ q = ground arith in
                tells ∙ rw here (ap (λ x. some (name_of_run x)) is)
            | inr away ↦ tells ∙ rw away (s.run_told j q before)
          ];
      step_told = λ j n t there.
          step_told_behind db db' id j n e (some "pending") k
          ∙ s.step_told j n t (sym (steps j n) ∙ there);
    }

pub queued_event-Announced :
    (id : String) (now : ℕ) (reason actor : String) (db db' : Db)
    → queued_event id now reason actor db ≡ done tt db'
    → (e : RunEvent) × Announced db id e db'
unfolding queued_event append_run_event event_row null_if_empty name_of_run
queued_event-Announced id now reason actor db db' h =
    let e = event_row (record {
      run_id = id;
      step_name = "";
      at = now;
      kind = "run.queued";
      from_state = "";
      to_state = name_of_run run_queued;
      reason_code = reason;
      actor = actor;
      detail_json = "";
    }) in
    (
      e,
      record {
        same_runs = ground arith;
        same_steps = ground arith;
        one_event = ground arith;
        about = refl;
        no_step = refl;
        enters = refl;
        leaves = refl;
      },
    )
