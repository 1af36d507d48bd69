-- ===== src/Store/Claim.antt =====
-- internal/store/transitions.go: `ClaimRun`, with the skips of pending steps that a run's end asks
-- for. Each method takes the clock's reading and the tables; the transaction around it is `with_tx`.
use pulseq.Prelude.{
  ℕ, zero, suc, ◌+◌, Bool, true, false, not, ◌&&◌, String, List, [], ◌∷◌, map, none, some,
  if◌then◌else◌,
}
use pulseq.Prelude.Int.{ℤ, pos, negsuc}
use pulseq.Model.State.{
  RunState, run_queued, run_running, run_cancelled, step_pending, step_skipped, ev_claim,
  ev_upstream_failed, name_of_run, name_of_step,
}
use pulseq.Model.Guards.{Guards, no_guards}
use pulseq.Model.Parse.{parse_run_state}
use pulseq.Model.RunFsm.{next_run_state}
use pulseq.Model.StepFsm.{next_step_state}
use pulseq.Store.Table.{select}
use pulseq.Store.Rows.{Run, Step, Db, is_null, or_empty, is_pending}
use pulseq.Store.Tx.{Tx, ◌>>=◌, ◌>>◌, pure, fail, lift, refused, not_claimable, strayed}
use pulseq.Store.Writes.{
  read_run_tx, order_by_idx, of_run_id, exec_run, exec_step, finish_transition, emit_kind,
}

-- internal/reason/codes.go: the codes that the store writes itself.
abbrev pub run_cancelled_manual : String
run_cancelled_manual = "RUN_CANCELLED_MANUAL"

abbrev pub step_cancelled_code : String
step_cancelled_code = "STEP_CANCELLED"

-- The UPDATE of one skipped step.
abbrev pub skipped_row : ℕ → String → Step → Step
skipped_row now code s = record s {
  state = step_skipped;
  finished_at = some now;
  reason_code = some code;
  reason_data = some "{}";
}

-- One round of the loop of `skipPendingStepsTx`.
unfoldable pub skip_step : String → ℕ → String → String → Tx (Unit {0})
skip_step run_id now code name =
    let o =
      next_step_state step_pending ev_upstream_failed (record no_guards { reason_code = code }) in
    elim o.error [
      | some e ↦ fail (refused e)
      | none ↦ finish_transition (exec_step run_id name is_pending (skipped_row now code)) (record {
        run_id = run_id;
        step_name = name;
        at = now;
        kind = emit_kind o.effects;
        from_state = name_of_step step_pending;
        to_state = name_of_step o.state;
        reason_code = code;
        actor = "";
        detail_json = "";
      })
    ]

unfoldable pub skip_each : String → ℕ → String → List String → Tx (Unit {0})
skip_each run_id now code [] = pure tt
skip_each run_id now code (name ∷ names) =
    skip_step run_id now code name >> skip_each run_id now code names

-- `SELECT name FROM steps WHERE run_id = ? AND state = 'pending' ORDER BY idx`.
unfoldable pub pending_names : Db → String → List String
unfolding order_by_idx
pending_names db run_id =
    map (λ s. s.name)
      (order_by_idx (select (λ s. of_run_id run_id s && is_pending s.state) db.steps))

-- `skipPendingStepsTx`.
unfoldable pub skip_pending_steps_tx : String → ℕ → String → Tx (Unit {0})
unfolding skip_each
skip_pending_steps_tx run_id now code db = skip_each run_id now code (pending_names db run_id) db

-- `LeaseInput.TTL` in milliseconds, five minutes unless it is positive.
abbrev pub default_lease_ttl : ℕ
default_lease_ttl = 300000

abbrev pub lease_ttl : ℤ → ℕ
lease_ttl (pos zero) = default_lease_ttl
lease_ttl (pos (suc n)) = suc n
lease_ttl (negsuc n) = default_lease_ttl

abbrev pub is_queued : RunState → Bool
is_queued run_queued = true
is_queued _ = false

abbrev pub claimed_row : ℕ → String → ℕ → Run → Run
claimed_row now owner expires r = record r {
  state = run_running;
  lease_owner = some owner;
  lease_epoch = r.lease_epoch + 1;
  lease_expires_at = some expires;
  started_at = some now;
  updated_at = now;
}

abbrev pub cancelled_early_row : ℕ → Run → Run
cancelled_early_row now r = record r {
  state = run_cancelled;
  finished_at = some now;
  reason_code = some run_cancelled_manual;
  updated_at = now;
}

unfoldable pub claim_guards : ℕ → Run → Guards
claim_guards now run = record no_guards {
  now = now;
  available_at = run.available_at;
  cancel_requested = not (is_null run.cancel_requested_at);
  reason_code = if not (is_null run.cancel_requested_at) then run_cancelled_manual else "";
}

-- The `switch` on the state that the machine answered.
unfoldable pub claim_to : ℕ → String → String → ℕ → Run → RunState → String → RunState → Tx RunState
claim_to now run_id owner ttl run cur kind run_running =
    finish_transition (exec_run run_id is_queued (claimed_row now owner (now + ttl))) (record {
      run_id = run_id;
      step_name = "";
      at = now;
      kind = kind;
      from_state = name_of_run cur;
      to_state = name_of_run run_running;
      reason_code = "";
      actor = owner;
      detail_json = "";
    })
    >> pure run_running
claim_to now run_id owner ttl run cur kind run_cancelled =
    skip_pending_steps_tx run_id now step_cancelled_code
    >> finish_transition (exec_run run_id is_queued (cancelled_early_row now)) (record {
      run_id = run_id;
      step_name = "";
      at = now;
      kind = kind;
      from_state = name_of_run cur;
      to_state = name_of_run run_cancelled;
      reason_code = run_cancelled_manual;
      actor = or_empty run.cancel_requested_by;
      detail_json = "";
    })
    >> pure run_cancelled
claim_to now run_id owner ttl run cur kind state = fail (strayed state)

-- `ClaimRun`.
unfoldable pub claim_run : ℕ → String → String → ℤ → Tx RunState
unfolding claim_to claim_guards
claim_run now run_id owner ttl = do
  run ← read_run_tx run_id
  cur ← lift (parse_run_state (name_of_run run.state))
  let o = next_run_state cur ev_claim (claim_guards now run)
  elim o.error [
    | some e ↦ fail (not_claimable e)
    | none ↦ claim_to now run_id owner (lease_ttl ttl) run cur (emit_kind o.effects) o.state
  ]
