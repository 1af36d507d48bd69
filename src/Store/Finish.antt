-- ===== src/Store/Finish.antt =====
-- internal/store/transitions.go: `FinishRun`, `RequestCancel`, `CancelRequested` and
-- `ObserveRunCancel`.
pub mod Verdict
use pulseq.Prelude.{
  ℕ, Bool, true, false, not, ◌&&◌, ◌||◌, String, List, [], ◌∷◌, Option, none, some, if◌then◌else◌,
  str_eq, ltb,
}
use pulseq.Prelude.Int.{sub_ℕ, ℤ}
use pulseq.Model.State.{
  RunState, run_cancelled, StepState, step_failed, step_cancelled, ev_all_steps_done,
  ev_cancel_observed, name_of_run, name_of_step, is_terminal_step,
}
use pulseq.Model.Errors as Model
use pulseq.Model.Guards.{Guards, no_guards}
use pulseq.Model.Parse.{parse_run_state, parse_step_state}
use pulseq.Model.RunFsm.{next_run_state}
use pulseq.Store.Rows.{Run, Step, Db, is_null, or_empty, null_if_empty, has_id, find_run}
use pulseq.Store.Table.{update}
use pulseq.Store.Tx.{
  Tx, ◌>>=◌, ◌>>◌, pure, fail, require, lift, done, failed, refused, nobody_requested,
  run_not_found,
}
use pulseq.Store.Writes.{read_run_tx, read_steps_tx, exec_run, finish_transition, emit_kind}
use pulseq.Store.Claim.{skip_pending_steps_tx, step_cancelled_code}

abbrev pub same_run_state : RunState → RunState → Bool
same_run_state s t = str_eq (name_of_run s) (name_of_run t)

-- The two flags of the loop of `FinishRun` over the steps.
pub record StepFlags : Type 0 where
  pub all_terminal : Bool
  pub any_failed : Bool

abbrev pub ends_run_failed : StepState → Bool
ends_run_failed step_failed = true
ends_run_failed step_cancelled = true
ends_run_failed _ = false

-- The body of the loop.
abbrev pub note_step : StepFlags → StepState → StepFlags
note_step f st = record {
  all_terminal = f.all_terminal && is_terminal_step st;
  any_failed = f.any_failed || ends_run_failed st;
}

unfoldable pub scan_flags : StepFlags → List Step → Model.Result StepFlags
scan_flags f [] = Model.ok f
scan_flags f (s ∷ rest) = elim (parse_step_state (name_of_step s.state)) [
  | Model.err e ↦ Model.err e
  | Model.ok st ↦ scan_flags (note_step f st) rest
]

-- `run.LeaseOwner == owner && (run.LeaseExpiresAt.IsZero() || run.LeaseExpiresAt.After(now))`.
abbrev pub not_expired : ℕ → Option ℕ → Bool
not_expired now none = true
not_expired now (some expires) = ltb now expires

unfoldable pub holds_lease : ℕ → String → Run → Bool
holds_lease now owner r =
    str_eq (or_empty r.lease_owner) owner && not_expired now r.lease_expires_at

pub record FinishReason : Type 0 where
  pub code : String
  pub detail : String

abbrev elapsed_since : ℕ → Option ℕ → Option ℤ
elapsed_since now none = none
elapsed_since now (some started) = some (sub_ℕ now started)

abbrev pub detail_or_empty : String → String
detail_or_empty d = if str_eq d "" then "{}" else d

abbrev pub finished_row : ℕ → FinishReason → RunState → Run → Run
finished_row now fr to r = record r {
  state = to;
  reason_code = some fr.code;
  reason_data = some (detail_or_empty fr.detail);
  finished_at = some now;
  duration_ms = elapsed_since now r.started_at;
  lease_owner = none;
  lease_expires_at = none;
  updated_at = now;
}

abbrev pub finish_guards : ℕ → String → FinishReason → Run → StepFlags → Guards
finish_guards now owner fr run flags = record no_guards {
  lease_valid = holds_lease now owner run;
  all_steps_terminal = flags.all_terminal;
  any_step_failed = flags.any_failed;
  reason_code = fr.code;
  now = now;
  available_at = run.available_at;
}

-- `FinishRun`.
unfoldable pub finish_run : ℕ → String → String → FinishReason → Tx RunState
finish_run now run_id owner fr = do
  run ← read_run_tx run_id
  cur ← lift (parse_run_state (name_of_run run.state))
  steps ← read_steps_tx run_id
  flags ← lift (scan_flags (record { all_terminal = true; any_failed = false }) steps)
  let o = next_run_state cur ev_all_steps_done (finish_guards now owner fr run flags)
  elim o.error [
    | some e ↦ fail (refused e)
    | none ↦
        finish_transition (exec_run run_id (same_run_state cur) (finished_row now fr o.state))
          (record {
            run_id = run_id;
            step_name = "";
            at = now;
            kind = emit_kind o.effects;
            from_state = name_of_run cur;
            to_state = name_of_run o.state;
            reason_code = fr.code;
            actor = "";
            detail_json = detail_or_empty fr.detail;
          })
        >> pure o.state
  ]

abbrev pub observed_row : ℕ → String → Run → Run
observed_row now code r = record r {
  state = run_cancelled;
  finished_at = some now;
  reason_code = some code;
  reason_data = some "{}";
  lease_owner = none;
  lease_expires_at = none;
  updated_at = now;
}

abbrev pub observe_guards : ℕ → String → String → Run → Guards
observe_guards now owner code run = record no_guards {
  lease_valid = holds_lease now owner run;
  reason_code = code;
}

-- `ObserveRunCancel`.
unfoldable pub observe_run_cancel : ℕ → String → String → String → String → Tx (Unit {0})
observe_run_cancel now run_id owner actor code = do
  run ← read_run_tx run_id
  require (not (is_null run.cancel_requested_at)) nobody_requested
  cur ← lift (parse_run_state (name_of_run run.state))
  let o = next_run_state cur ev_cancel_observed (observe_guards now owner code run)
  elim o.error [
    | some e ↦ fail (refused e)
    | none ↦
        skip_pending_steps_tx run_id now step_cancelled_code
        >> finish_transition (exec_run run_id (same_run_state cur) (observed_row now code))
            (record {
              run_id = run_id;
              step_name = "";
              at = now;
              kind = emit_kind o.effects;
              from_state = name_of_run cur;
              to_state = name_of_run o.state;
              reason_code = code;
              actor = actor;
              detail_json = "";
            })
  ]

-- The record that `RequestCancel` reads back.
pub record CancelRequest : Type 0 where
  pub requested_at : Option ℕ
  pub requested_by : String
  pub reason : String

-- `COALESCE(column, ?)`.
abbrev pub coalesce : {A : Type 0} → Option A → Option A → Option A
coalesce none d = d
coalesce (some a) d = some a

abbrev pub cancel_requested_row : ℕ → String → String → Run → Run
cancel_requested_row now by why r = record r {
  cancel_requested_at = coalesce r.cancel_requested_at (some now);
  cancel_requested_by = coalesce r.cancel_requested_by (null_if_empty by);
  cancel_reason = coalesce r.cancel_reason (some why);
  updated_at = now;
}

-- `RequestCancel`: the UPDATE and the read back. It moves no state, so it writes no event.
unfoldable pub request_cancel : ℕ → String → String → String → Tx CancelRequest
request_cancel now run_id by why db = elim (find_run db run_id) [
  | none ↦ failed run_not_found
  | some r ↦
      let row = cancel_requested_row now by why r in
      done
        (record {
          requested_at = row.cancel_requested_at;
          requested_by = or_empty row.cancel_requested_by;
          reason = or_empty row.cancel_reason;
        })
        (record db { runs = update (has_id run_id) (cancel_requested_row now by why) db.runs })
]

-- `CancelRequested`: whether a request is waiting, and who asked.
unfoldable pub cancel_requested : String → Db → Option (Bool × String)
cancel_requested run_id db = elim (find_run db run_id) [
  | none ↦ none
  | some r ↦ some (not (is_null r.cancel_requested_at), or_empty r.cancel_requested_by)
]
