-- ===== src/Model/Errors.antt =====
-- internal/model/errors.go: the refusals of the machines and the sentinels that callers match.
use pulseq.Prelude.{String, Option, none, some}
use pulseq.Model.State.{State, Event}

pub data Sentinel : Type 0 where
  illegal_transition not_available missing_reason_code missing_defer_reason : Sentinel
  steps_not_terminal stale_lease lease_still_valid unknown_state : Sentinel

pub Sentinel-discrete : Discrete Sentinel
Sentinel-discrete = hlevel

pub data Error : Type 0 where
  illegal : State → Event → Error
  guarded : State → Event → State → Sentinel → Error
  unknown : String → String → Error

-- `Unwrap`: what `errors.Is` compares a refusal with.
unfoldable pub unwrap : Error → Sentinel
unwrap (illegal s e) = illegal_transition
unwrap (guarded s e t want) = want
unwrap (unknown kind name) = unknown_state

-- `errors.Is` on the error of a call, as the sentinel that it matches.
abbrev pub sentinel : Option Error → Option Sentinel
sentinel none = none
sentinel (some e) = some (unwrap e)

-- The results of a call that returns a value or an error, and nothing of the value with the error.
pub data Result {ℓ} (A : Type ℓ) : Type ℓ where
  ok : A → Result A
  err : Error → Result A
