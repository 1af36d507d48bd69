-- ===== src/Model/Guards.antt =====
-- internal/model/guards.go and internal/model/effects.go: what a machine may know beyond the state
-- and the event, and what a transition asks of its caller. Instants are milliseconds since 1970.
use pulseq.Prelude.{ℕ, Bool, String, leb}

pub record Guards : Type 0 where
  pub now : ℕ
  pub available_at : ℕ
  pub cancel_requested : Bool
  pub lease_valid : Bool
  pub attempts_left : Bool
  pub any_step_failed : Bool
  pub all_steps_terminal : Bool
  pub crash_budget_left : Bool
  pub reason_code : String
  pub defer_reason : String

-- The zero value of Go's `Guards{}`.
abbrev pub no_guards : Guards
no_guards = record {
  now = 0;
  available_at = 0;
  cancel_requested = Bool.false;
  lease_valid = Bool.false;
  attempts_left = Bool.false;
  any_step_failed = Bool.false;
  all_steps_terminal = Bool.false;
  crash_budget_left = Bool.false;
  reason_code = "";
  defer_reason = "";
}

unfoldable pub available : Guards → Bool
available g = leb g.available_at g.now

pub data EffectKind : Type 0 where
  bump_epoch take_lease release_lease set_started set_finished : EffectKind
  kill_process_group inc_crash_count inc_attempt set_next_attempt_at : EffectKind
  set_available_at set_defer_reason emit_event : EffectKind

pub EffectKind-discrete : Discrete EffectKind
EffectKind-discrete = hlevel

pub record Effect : Type 0 where
  pub kind : EffectKind
  pub arg : String

abbrev pub act : EffectKind → Effect
act k = record { kind = k; arg = "" }

abbrev pub emit : String → Effect
emit name = record { kind = emit_event; arg = name }

abbrev pub defer_because : String → Effect
defer_because reason = record { kind = set_defer_reason; arg = reason }

abbrev pub is_emit : EffectKind → Bool
is_emit emit_event = Bool.true
is_emit _ = Bool.false
