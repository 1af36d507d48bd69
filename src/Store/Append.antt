-- ===== src/Store/Append.antt =====
-- internal/store/runs.go: `AppendRunEvent`, which records an event on its own, outside every
-- transition. It does not look at what the event says.
use pulseq.Prelude.{ℕ, Option, none, some}
use pulseq.Store.Rows.{find_run}
use pulseq.Store.Tx.{Tx, failed, constraint}
use pulseq.Store.Writes.{NewEvent, append_run_event}
use pulseq.Store.StepMoves.{or_else}

-- `AppendRunEvent`, with the event's time as an option (the zero time is none). The foreign key on
-- the run refuses an event of a run that is not there.
unfoldable pub append_event_alone : ℕ → Option ℕ → NewEvent → Tx (Unit {0})
unfolding append_run_event
append_event_alone now at e db = elim (find_run db e.run_id) [
  | none ↦ failed constraint
  | some _ ↦ append_run_event (record e { at = or_else at now }) db
]
