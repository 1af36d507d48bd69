-- ===== src/Store/Invariant/Unseen.antt =====
-- A change of the tables that no state and no event shows keeps them sound.
use pulseq.Prelude.{sym, ◌∙◌, ◌≡◌, String}
use pulseq.Store.Rows.{Db, find_step}
use pulseq.Store.Trail.{run_state}
use pulseq.Store.Invariant.{Sound}

pub record Unseen (db db' : Db) : Type 0 where
  pub same_runs : (j : String) → run_state db' j ≡ run_state db j
  pub same_steps : db'.steps ≡ db.steps
  pub same_events : db'.events ≡ db.events

pub Unseen-Sound : (db db' : Db) → Unseen db db' → Sound db → Sound db'
unfolding find_step
Unseen-Sound db db' u s = record {
  keyed = record {
    unique = rw (u.same_steps) s.keyed.unique;
    named = rw (u.same_steps) s.keyed.named;
  };
  ended = λ j n r t running over there.
      s.ended j n r t (sym (u.same_runs j) ∙ running) over
        (let h = rw (u.same_steps) at there in h);
  quiet = λ j n queued moves.
      s.quiet j n (sym (u.same_runs j) ∙ queued) (let h = rw (u.same_steps) at moves in h);
  owned = λ j n t there.
      let (r, running) = s.owned j n t (let h = rw (u.same_steps) at there in h) in
      (r, u.same_runs j ∙ running);
  run_unheard =
      λ j start gone. rw (u.same_events) (s.run_unheard j start (sym (u.same_runs j) ∙ gone));
  step_unheard = λ j n start gone.
      rw (u.same_events) (s.step_unheard j n start (let h = rw (u.same_steps) at gone in h));
  run_told = λ j r running. rw (u.same_events) (s.run_told j r (sym (u.same_runs j) ∙ running));
  step_told = λ j n t there.
      rw (u.same_events) (s.step_told j n t (let h = rw (u.same_steps) at there in h));
}
