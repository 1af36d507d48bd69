-- ===== src/Engine/Attempt.antt =====
-- internal/engine/execute.go: `runStep`, one attempt of a step: started in one transaction, run outside
-- any, and its verdict recorded in another. The process, its log, the clock and the JSON package are
-- parameters; a timeout is in nanoseconds and an instant of the tables in milliseconds.
pub mod Plans
use pulseq.Prelude.{
  ℕ, suc, ◌+◌, ◌*◌, ◌/◌, Bool, true, false, ◌&&◌, String, List, [], ◌∷◌, Option, none, some,
  if◌then◌else◌, str_eq, ltb, leb, ◌==◌,
}
use pulseq.Prelude.Int.{ℤ, pos, negsuc, pos_part, sub_ℕ, ltb_ℤ, leb_ℤ}
use pulseq.Model.State.{Event, ev_step_failed, ev_cancel_observed}
use pulseq.Store.Rows.{Run, Step, Db, find_run}
use pulseq.Store.Tx.{Attempt, run_not_found}
use pulseq.Store.Writes.{steps_of}
use pulseq.Store.StepMoves.{StepOutcome, start_step, record_step_outcome, or_else}
use pulseq.Retry.{delay, Source}
use pulseq.Engine.Policy.{RetryBlock, retry_policy_of}
use pulseq.Engine.Verdict.{
  Outcome, timed_out, failed, Value, number, text, flag, Result, verdict_for, detail_json,
}
use pulseq.Engine.Acts.{
  Act, ◌>>=◌, ◌>>◌, pure, demand, demand_some, look, transact, others, Request, store_said,
  log_trouble, not_spawned, panicked,
}

abbrev pub JsonObject : Type 0
JsonObject = List (String × Value)

-- What an executor is built from, with the JSON package and its read of a frozen version.
pub record FrozenStep : Type 0 where
  pub name : String
  pub timeout : ℤ
  pub retry : Option RetryBlock

pub record FrozenJob : Type 0 where
  pub timeout : ℤ
  pub steps : List FrozenStep

pub record Engine : Type 0 where
  pub owner : String
  pub lease_ttl : ℤ
  pub writable : Bool
  pub marshal : JsonObject → Option String
  pub unmarshal : String → Option JsonObject
  pub frozen_spec : String → Option FrozenJob

-- What happens outside during one attempt: when the calls are made, what becomes of them, what
-- others ask for meanwhile, and what the process does within its timeout.
pub record StepWorld : Type 0 where
  pub reads : Bool
  pub started_at : ℕ
  pub start_weather : ℕ → Attempt
  pub log_opens : Bool
  pub clock : ℕ
  pub meanwhile : List Request
  pub process : ℤ → Result
  pub spawns : Bool
  pub seen_by : String
  pub tail : String
  pub bytes : ℕ
  pub truncated : Bool
  pub rel_path : String
  pub log_closes : Bool
  pub random : Source
  pub clock_after : ℕ
  pub recorded_at : ℕ
  pub record_weather : ℕ → Attempt

-- `runner.DefaultTimeout`: one hour.
abbrev default_timeout : ℤ
default_timeout = pos 3600000000000

-- The step's own timeout, cut to what is left of the run's, and whether it was cut.
unfoldable pub effective_timeout : ℤ → Option ℕ → ℕ → ℤ × Bool
effective_timeout own deadline now =
    let timeout = if leb_ℤ own (pos 0) then default_timeout else own in
    elim deadline [
      | none ↦ (timeout, false)
      | some d ↦ if ltb_ℤ (sub_ℕ d now) timeout then (sub_ℕ d now, true) else (timeout, false)
    ]

-- `Milliseconds`: the quotient goes to zero.
abbrev milliseconds : ℤ → ℤ
milliseconds (pos n) = pos (n / 1000000)
milliseconds (negsuc n) = sub_ℕ 0 ((suc n) / 1000000)

-- `m[k] = v`.
unfoldable pub set_key : String → Value → JsonObject → JsonObject
set_key key v [] = (key, v) ∷ []
set_key key v ((k, w) ∷ rest) =
    let later = set_key key v rest in if str_eq k key then (key, v) ∷ rest else (k, w) ∷ later

unfoldable pub set_keys : JsonObject → JsonObject → JsonObject
unfolding set_key
set_keys [] m = m
set_keys ((k, v) ∷ extra) m = set_keys extra (set_key k v m)

-- The first row with the name, or the zero values.
abbrev pub row_before : String → List Step → ℕ × ℕ
row_before name [] = (0, 0)
row_before name (s ∷ rest) =
    if str_eq s.name name then (s.attempt, s.max_attempts) else row_before name rest

abbrev pub is_timed_out : Outcome → Bool
is_timed_out timed_out = true
is_timed_out _ = false

-- Exit 75 is EX_TEMPFAIL.
abbrev is_75 : ℤ → Bool
is_75 (pos n) = n == 75
is_75 (negsuc n) = false

abbrev transient : Result → JsonObject
transient res = elim res.outcome [
  | failed ↦ ("transient", flag (is_75 res.exit_code)) ∷ []
  | _ ↦ []
]

-- The instant that the retry counts from, in nanoseconds.
abbrev counted_from : Option ℕ → ℕ → ℕ
counted_from none clock = clock
counted_from (some ms) clock = ms * 1000000

module _ (e : Engine) where
  -- `mergeDetail`.
  unfoldable pub merge_detail : String → JsonObject → String
  unfolding set_keys detail_json
  merge_detail base extra = elim (e.unmarshal base) [
    | none ↦ detail_json e.marshal (set_keys extra [])
    | some m ↦ detail_json e.marshal (set_keys extra m)
  ]

  -- The plan that buys another attempt, so many nanoseconds from now.
  unfoldable pub retry_outcome : StepOutcome → Result → ℕ → ℕ → ℤ → StepOutcome
  unfolding detail_json
  retry_outcome out res attempt clock d =
      let next = (counted_from out.finished_at clock + pos_part d) / 1000000 in
      record out {
        retry = some (record {
          next_attempt_at = some next;
          reason_code = "STEP_RETRY_SCHEDULED";
          detail_json = detail_json e.marshal (
              ("attempt", number (pos attempt))
              ∷ ("backoff_ms", number (milliseconds d))
              ∷ ("next_attempt_at", number (pos next))
              ∷ transient res);
        });
      }

  -- What is recorded of an attempt that failed; `none` if the draw of the delay panics.
  unfoldable pub failed_outcome :
      StepOutcome → Result → ℕ → ℕ → Option RetryBlock → ℤ → Bool → StepWorld → Option StepOutcome
  unfolding merge_detail retry_outcome
  failed_outcome out res attempt max_attempts block timeout cut w =
      if is_timed_out res.outcome && cut
      then some (record out {
        detail_json =
            merge_detail out.detail_json
              (("scope", text "run") ∷ ("timeout_ms", number (milliseconds timeout)) ∷ []);
      })
      else if leb max_attempts 1
      then some out
      else if ltb attempt max_attempts
      then elim (delay (retry_policy_of block) (pos attempt) w.random) [
        | none ↦ none
        | some d ↦ some (retry_outcome out res attempt w.clock_after d)
      ]
      else some (record out {
        reason_code = "STEP_RETRIES_EXHAUSTED";
        detail_json =
            merge_detail out.detail_json (
              ("attempt", number (pos attempt)) ∷ ("max_attempts", number (pos max_attempts)) ∷ []);
      })

  -- The `switch` of `runStep` over the verdict's event.
  unfoldable pub recorded_outcome :
      StepOutcome → Result → ℕ → ℕ → Option RetryBlock → ℤ → Bool → StepWorld → Option StepOutcome
  unfolding merge_detail failed_outcome
  recorded_outcome out res attempt max_attempts block timeout cut w = elim out.event [
    | ev_cancel_observed ↦ some (record out {
      detail_json = merge_detail out.detail_json (("requested_by", text w.seen_by) ∷ []);
    })
    | ev_step_failed ↦ failed_outcome out res attempt max_attempts block timeout cut w
    | _ ↦ some out
  ]

  -- `verdictFor` on what the process did, with the log's path.
  unfoldable pub observed_outcome : Result → StepWorld → StepOutcome
  unfolding verdict_for
  observed_outcome res w =
      let out = verdict_for e.marshal res w.tail w.bytes w.truncated in
      record out { log_meta = record (out.log_meta) { rel_path = w.rel_path } }

  -- `runStep`: whether the step ended because the run's own deadline ran out.
  unfoldable pub run_step : String → String → FrozenStep → Option ℕ → StepWorld → Act Bool
  unfolding find_run steps_of start_step record_step_outcome effective_timeout observed_outcome
      recorded_outcome
  run_step id name st deadline w = do
    current ← look w.reads (λ db. find_run db id)
    run ← demand_some current (store_said run_not_found)
    rows ← look true (λ db. steps_of db id)
    transact e.writable w.start_weather (start_step w.started_at id name)
    demand w.log_opens log_trouble
    others w.meanwhile
    demand w.log_closes log_trouble
    demand w.spawns not_spawned
    let attempt = (row_before name rows).0 + 1
    let max_attempts = (row_before name rows).1
    let budget = effective_timeout st.timeout deadline w.clock
    let res = w.process budget.0
    out ←
        demand_some
          (recorded_outcome (observed_outcome res w) res attempt max_attempts st.retry budget.0
            budget.1 w)
          panicked
    transact e.writable w.record_weather (record_step_outcome w.recorded_at id name out)
    pure (budget.1 && is_timed_out res.outcome)
