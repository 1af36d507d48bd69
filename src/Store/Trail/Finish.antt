-- ===== src/Store/Trail/Finish.antt =====
-- `FinishRun` of internal/store leaves a trail of one recorded transition, over terminal steps.
use pulseq.Prelude.{
  ap, subst, sym, ◌∙◌, ℕ, ◌≡◌, ◌≢◌, refl, true, false, String, none, some, arith, eq_refl,
  Option-cases, inl, inr, ◌&&◌, ◌||◌, ◌<◌, Bool, eq_iff,
}
use pulseq.Model.State.{
  RunState, run_queued, run_running, ev_all_steps_done, name_of_run, Event, is_terminal_step,
  is_terminal_run,
}
use pulseq.Model.Guards.{Guards, no_guards}
use pulseq.Model.Moves.{RunMove, next_run_state_sound}
use pulseq.Model.Parse.RoundTrip.{parse_run_state-name}
use pulseq.Model.RunFsm.{next_run_state}
use pulseq.Store.Rows.{Run, Step, Db, find_run, find_step, null_if_empty, or_empty}
use pulseq.Store.Tx.{done}
use pulseq.Store.Writes.{
  read_run_tx, read_steps_tx, steps_of, NewEvent, event_row, exec_run, finish_transition, emit_kind,
}
use pulseq.Store.Finish.{
  finish_run, FinishReason, finished_row, finish_guards, same_run_state, detail_or_empty, StepFlags,
  holds_lease,
}
use pulseq.Store.Finish.Verdict.{
  every_step, some_step, has_ended, has_failed, scan_flags_lem, every_step_of,
}
use pulseq.Store.Trail.{run_state, step_state-find, Closes, RunMoved}
use pulseq.Store.Recording.{RunWrite, finish_transition_run}

-- The event of a run's transition.
abbrev pub run_event :
    String → ℕ → String → RunState → RunState → String → String → String → NewEvent
run_event run_id at kind from to reason actor detail = record {
  run_id = run_id;
  step_name = "";
  at = at;
  kind = kind;
  from_state = name_of_run from;
  to_state = name_of_run to;
  reason_code = reason;
  actor = actor;
  detail_json = detail;
}

null_if_empty-name_of_run : (s : RunState) → null_if_empty (name_of_run s) ≡ some (name_of_run s)
unfolding null_if_empty name_of_run
null_if_empty-name_of_run run_queued = refl
null_if_empty-name_of_run _ = refl

null_if_empty-none : null_if_empty "" ≡ none
unfolding null_if_empty
null_if_empty-none = refl

-- A committed write of a run, along a move of the table, moves that run alone.
pub RunWrite-RunMoved :
    (db db' : Db) (id : String) (r : Run) (to : RunState) (ev : Event) (g : Guards) (at : ℕ)
    (kind reason actor detail : String)
    → find_run db id ≡ some r
    → RunMove g r.state ev to
    → Closes db id to
    → RunWrite db id to (run_event id at kind r.state to reason actor detail) db'
    → RunMoved db db' id r.state ev g to
unfolding event_row
RunWrite-RunMoved db db' id r to ev g at kind reason actor detail found move closes w = record {
  was = rw found;
  move = move;
  closes = closes;
  runs_move = w.runs_move;
  same_steps = w.same_steps;
  event = event_row (run_event id at kind r.state to reason actor detail);
  one_event = w.one_event;
  row = record {
    about = refl;
    no_step = null_if_empty-none;
    leaves = null_if_empty-name_of_run r.state;
    enters = null_if_empty-name_of_run to;
  };
}

-- The flags that `FinishRun` computes for a run.
abbrev pub flags_of : Db → String → StepFlags
flags_of db id = record {
  all_terminal = true && every_step has_ended (steps_of db id);
  any_failed = false || some_step has_failed (steps_of db id);
}

pub finish_inversion :
    (now : ℕ) (id owner : String) (fr : FinishReason) (db db' : Db) (to : RunState)
    → finish_run now id owner fr db ≡ done to db'
    → (r : Run) × (find_run db id ≡ some r)
      × (let o =
            next_run_state r.state ev_all_steps_done
              (finish_guards now owner fr r (flags_of db id)) in
          (o.error ≡ none)
          × (o.state ≡ to)
          × (finish_transition
                (exec_run id (same_run_state r.state) (finished_row now fr o.state))
                (run_event id now
                  (emit_kind o.effects)
                  r.state
                  o.state
                  fr.code
                  ""
                  (detail_or_empty fr.detail))
                db
              ≡ done tt db'))
unfolding finish_run read_run_tx read_steps_tx
finish_inversion now id owner fr db db' to h = elim (Option-cases (find_run db id)) [
  | inl f ↦ ground arith
  | inr (r, f) ↦ (
    r,
    f,
    let flags =
          scan_flags_lem (record { all_terminal = true; any_failed = false }) (steps_of db id) in
        let parsed = parse_run_state-name r.state in
        (
          ground (arith, flags, parsed),
          ground (arith, flags, parsed),
          ground (arith, flags, parsed),
        ),
  )
]

finish_needs :
    {from to : RunState} {g : Guards}
    → RunMove g from ev_all_steps_done to
    → g.all_steps_terminal ≡ true
finish_needs (RunMove.succeed a b c d) = b
finish_needs (RunMove.fail a b c d) = b

finish_ended :
    {from to : RunState} {g : Guards}
    → RunMove g from ev_all_steps_done to
    → is_terminal_run to ≡ true
unfolding is_terminal_run
finish_ended (RunMove.succeed a b c d) = refl
finish_ended (RunMove.fail a b c d) = refl

finish_forward :
    {from to : RunState} {g : Guards} → RunMove g from ev_all_steps_done to → to ≢ run_queued
finish_forward (RunMove.succeed a b c d) e = cc
finish_forward (RunMove.fail a b c d) e = cc

-- A run that the machine lets finish closes over terminal steps.
finish-Closes :
    {from to : RunState} (db : Db) (id : String) (g : Guards)
    → g.all_steps_terminal ≡ every_step has_ended (steps_of db id)
    → RunMove g from ev_all_steps_done to
    → Closes db id to
finish-Closes db id g told move = record {
  over_terminal = λ _ name t h.
      let (s, found, is) = step_state-find db id name t h in
      subst (λ x. is_terminal_step x ≡ true) is
        (every_step_of has_ended db id name s (sym told ∙ finish_needs move) found);
  forward = finish_forward move;
}

-- A committed finish, under the guards that the code computes.
finish_run_move :
    (now : ℕ) (id owner : String) (fr : FinishReason) (db db' : Db) (to : RunState)
    → finish_run now id owner fr db ≡ done to db'
    → (r : Run) × (find_run db id ≡ some r)
      × RunMoved db db' id r.state ev_all_steps_done
          (finish_guards now owner fr r (flags_of db id))
          to
finish_run_move now id owner fr db db' to h =
    let (r, found, (accepted, answers, ran)) = finish_inversion now id owner fr db db' to h in
    let g = finish_guards now owner fr r (flags_of db id) in
    let o = next_run_state r.state ev_all_steps_done g in
    (
      r,
      found,
      subst (λ x. RunMoved db db' id r.state ev_all_steps_done g x) answers
          (RunWrite-RunMoved db db' id r o.state ev_all_steps_done g now (emit_kind o.effects)
            fr.code "" (detail_or_empty fr.detail) found
            (next_run_state_sound r.state ev_all_steps_done g accepted)
            (finish-Closes db id g refl (next_run_state_sound r.state ev_all_steps_done g accepted))
            (finish_transition_run db db' id (same_run_state r.state) (finished_row now fr o.state)
              _ r o.state found (eq_refl (name_of_run r.state)) (λ q. refl) refl ran)),
    )

-- A lease of an owner that has not run out at an instant: one without an end never does.
pub record Leased (now : ℕ) (owner : String) (r : Run) : Type 0 where
  pub of_owner : or_empty r.lease_owner ≡ owner
  pub live : (t : ℕ) → r.lease_expires_at ≡ some t → now < t

pub holds_lease-Leased :
    (now : ℕ) (owner : String) (r : Run) → holds_lease now owner r ≡ true → Leased now owner r
unfolding holds_lease
holds_lease-Leased now owner r h = record {
  of_owner = ground (arith, eq_iff (or_empty r.lease_owner) owner);
  live = λ t ends. ground arith;
}

-- The guards of a finish that goes through.
abbrev pub finished_guards : ℕ → FinishReason → Run → Bool → Guards
finished_guards now fr r failed = record no_guards {
  lease_valid = true;
  all_steps_terminal = true;
  any_step_failed = failed;
  reason_code = fr.code;
  now = now;
  available_at = r.available_at;
}

finish_reads :
    {from to : RunState} {g : Guards}
    → RunMove g from ev_all_steps_done to
    → (from ≡ run_running) × (g.lease_valid ≡ true)
finish_reads (RunMove.succeed a b c d) = (refl, a)
finish_reads (RunMove.fail a b c d) = (refl, a)

finish_again :
    {from to : RunState} {g g' : Guards}
    → RunMove g from ev_all_steps_done to
    → g'.lease_valid ≡ true
    → g'.all_steps_terminal ≡ true
    → g'.any_step_failed ≡ g.any_step_failed
    → g'.reason_code ≡ g.reason_code
    → RunMove g' from ev_all_steps_done to
finish_again (RunMove.succeed a b c d) l t f r = RunMove.succeed l t (f ∙ c) (λ e. d (sym r ∙ e))
finish_again (RunMove.fail a b c d) l t f r = RunMove.fail l t (f ∙ c) (λ e. d (sym r ∙ e))

-- A run that `FinishRun` finishes was running under a live lease of the owner and each of its steps has ended. It
-- alone moves, as the table allows for the given reason code, to failed or succeeded by whether a step has failed or was
-- cancelled; no step moves, and one event is appended, which names the run and both states.
pub finish_run-RunMoved :
    (now : ℕ) (id owner : String) (fr : FinishReason) (db db' : Db) (to : RunState)
    → finish_run now id owner fr db ≡ done to db'
    → (r : Run) × (find_run db id ≡ some r)
      × Leased now owner r
      × ((name : String) (s : Step)
          → find_step db id name ≡ some s
          → is_terminal_step s.state ≡ true)
      × RunMoved db db' id run_running ev_all_steps_done
          (finished_guards now fr r (some_step has_failed (steps_of db id)))
          to
finish_run-RunMoved now id owner fr db db' to h =
    let (r, found, m) = finish_run_move now id owner fr db db' to h in
    let (running, leased) = finish_reads m.move in
    let g = finished_guards now fr r (some_step has_failed (steps_of db id)) in
    let move : RunMove g r.state ev_all_steps_done to = finish_again m.move refl refl refl refl in
    (
      r,
      found,
      holds_lease-Leased now owner r leased,
      (λ name s there. every_step_of has_ended db id name s (finish_needs m.move) there),
      subst (λ x. RunMoved db db' id x ev_all_steps_done g to) running
          (record {
            was = m.was;
            move = move;
            closes = m.closes;
            runs_move = m.runs_move;
            same_steps = m.same_steps;
            event = m.event;
            one_event = m.one_event;
            row = m.row;
          }),
    )

-- A run that `FinishRun` finishes is in the state that it answers, and has ended.
pub finish_run-lands :
    (now : ℕ) (id owner : String) (fr : FinishReason) (db db' : Db) (to : RunState)
    → finish_run now id owner fr db ≡ done to db'
    → (run_state db' id ≡ some to) × (is_terminal_run to ≡ true)
finish_run-lands now id owner fr db db' to h =
    let (r, found, (accepted, answers, ran)) = finish_inversion now id owner fr db db' to h in
    let g = finish_guards now owner fr r (flags_of db id) in
    let o = next_run_state r.state ev_all_steps_done g in
    let write =
      finish_transition_run db db' id (same_run_state r.state) (finished_row now fr o.state) _ r
        o.state found (eq_refl (name_of_run r.state)) (λ q. refl) refl ran in
    (
      write.runs_move id ∙ (rw (eq_refl id) (ap some answers)),
      subst (λ x. is_terminal_run x ≡ true) answers
          (finish_ended (next_run_state_sound r.state ev_all_steps_done g accepted)),
    )
