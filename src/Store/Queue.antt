-- ===== src/Store/Queue.antt =====
-- internal/store/transitions.go: the reads that the executor asks what to do next,
-- `NextRunnableStep`, `NextRetryWait` and `PendingSteps`. Each is its SQL statement over the tables.
pub mod Selected
pub mod Ready
use pulseq.Prelude.{
  ℕ, ◌-◌, Bool, true, false, not, ◌&&◌, ◌||◌, String, List, [], ◌∷◌, Option, none, some,
  if◌then◌else◌, str_eq, leb, min,
}
use pulseq.Model.State.{StepState, step_succeeded}
use pulseq.Store.Table.{select}
use pulseq.Store.Rows.{Step, StepDep, Db, is_pending}
use pulseq.Store.Writes.{order_by_idx, of_run_id}

abbrev pub is_succeeded : StepState → Bool
is_succeeded step_succeeded = true
is_succeeded _ = false

-- `EXISTS`.
unfoldable pub exists_row {ℓ} : {R : Type ℓ} → (R → Bool) → List R → Bool
exists_row p [] = false
exists_row p (r ∷ rows) = p r || exists_row p rows

-- `next_attempt_at IS NULL OR next_attempt_at <= ?`.
abbrev pub past_gate : ℕ → Option ℕ → Bool
past_gate now none = true
past_gate now (some due) = leb due now

-- A row of `step_deps` joined with the row of `steps` it depends on: the upstream has not succeeded.
abbrev pub holds_back : Step → StepDep → Step → Bool
holds_back s d up =
    (str_eq up.run_id d.run_id && str_eq up.name d.depends_on)
    && (str_eq d.run_id s.run_id && str_eq d.step_name s.name)
    && not (is_succeeded up.state)

-- The `NOT EXISTS` of the statement, without its `NOT`.
abbrev pub blocked : Db → Step → Bool
blocked db s = exists_row (λ d. exists_row (holds_back s d) db.steps) db.deps

-- The `WHERE` of `nextRunnableStepSQL`.
unfoldable pub runnable : ℕ → String → Db → Step → Bool
unfolding exists_row
runnable now run_id db s =
    of_run_id run_id s
    && is_pending s.state
    && past_gate now s.next_attempt_at
    && not (blocked db s)

-- `LIMIT 1`.
abbrev pub first_of {ℓ} : {R : Type ℓ} → List R → Option R
first_of [] = none
first_of (r ∷ _) = some r

abbrev pub name_of : Option Step → Option String
name_of none = none
name_of (some s) = some s.name

unfoldable pub next_runnable_step : ℕ → String → Db → Option String
unfolding runnable order_by_idx
next_runnable_step now run_id db =
    name_of (first_of (order_by_idx (select (runnable now run_id db) db.steps)))

-- `MIN(next_attempt_at)` over the rows that carry one.
abbrev pub sooner : Option ℕ → Option ℕ → Option ℕ
sooner none d = d
sooner (some a) none = some a
sooner (some a) (some b) = some (min a b)

unfoldable pub soonest : List Step → Option ℕ
soonest [] = none
soonest (s ∷ rest) = sooner s.next_attempt_at (soonest rest)

-- `NextRetryWait`: the gap to the soonest retry, which stops at 0, in milliseconds.
abbrev pub gap_to : ℕ → Option ℕ → Option ℕ
gap_to now none = none
gap_to now (some due) = some (due - now)

abbrev pub pending_of : String → Step → Bool
pending_of run_id s = of_run_id run_id s && is_pending s.state

unfoldable pub next_retry_wait : ℕ → String → Db → Option ℕ
unfolding soonest
next_retry_wait now run_id db = gap_to now (soonest (select (pending_of run_id) db.steps))

-- `PendingSteps`.
unfoldable pub pending_steps : String → Db → List Step
unfolding order_by_idx
pending_steps run_id db = order_by_idx (select (pending_of run_id) db.steps)
