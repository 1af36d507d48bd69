-- ===== src/Lib.antt =====
-- pulseq: a model of paceq's core and the theorems that make it correct.
--
-- paceq runs jobs. A run and its steps live in SQLite tables, and every change of their states is
-- decided by two pure state machines, written by one transaction of the store together with one row
-- of `run_events`, and driven by an engine that claims a run, starts its steps, waits for retries
-- and finishes the run. A lease fences the writers of a run.
--
-- Model: internal/model. `Model.State` has the states and events, `Model.Guards` the facts a
--   transition is judged by and the effects it asks for, `Model.Errors` the sentinels and errors.
--   `Model.RunFsm.next_run_state` is `NextRunState`, `Model.StepFsm.next_step_state` is
--   `NextStepState`, `Model.Apply` is `ApplyRun` and `ApplyStep`, `Model.Aggregate` is
--   `RunAggregate`, `Model.Parse` is `ParseRunState` and `ParseStepState`. The transition tables of
--   the documentation are the relations of `Model.Moves`.
-- Retry: internal/retry. `Retry.delay` is `Delay`, on int64 nanoseconds with the wrap-around
--   written out; the random source is a parameter.
-- Engine: internal/engine. `Engine.Policy` is `retryPolicyOf`, `Engine.Verdict` is `verdictFor` and
--   `finishReason`, `Engine.Attempt` is `runStep` and `mergeDetail`, and `Engine.Execute` is
--   `ExecuteRun` with `skipPending` and `observeCancel`, on the transactions of the store model.
--   `Engine.Acts` is the sequencing of calls, reads and errors, and `Engine.Acts.Rules` a rule for
--   each. The JSON package, the decoded specification of a version, the process and its log, the
--   readings of the clock and what others ask for between two calls are parameters.
-- Store: internal/store. The tables are lists of rows (`Store.Rows`, `Store.Table`), with the
--   primary keys and the CHECK constraints of the migrations; a transaction takes the tables to a
--   value and new tables, or to a failure (`Store.Tx`, with `withTx` and its retries, in which a
--   closure finds in the variables that it captures what a failed attempt left there). `Store.Writes`
--   has the shared reads and writes, `Store.Claim` is `ClaimRun`, `Store.StepMoves` is `StartStep`
--   and `RecordStepOutcome`, `Store.Finish` is `FinishRun`, `ObserveRunCancel` and `RequestCancel`,
--   `Store.Queue` is `NextRunnableStep`, `NextRetryWait` and `PendingSteps`. `Store.Trail` is the
--   abstract view: what a caller sees of the states, and trails of recorded transitions.
--   `Store.Create` is `CreateRunWithSteps` and `Store.Materialize` is `MaterializeManualTrigger`.
--   `Store.Append` is `AppendRunEvent`. `Store.Invariant` says what sound tables are, and `Store.Calls`
--   puts the calls together, with what their callers are to heed since the store does not check it.
--   `Store.Fsck` is the check I15 of fsck.go.
--   `Store.Jobs` is jobs.go and apply.go, with the pause and the reads of versions of materialize.go.
--   `Store.Migrate` is migrate.go, with a module for each part of it: the ledger and the single
--   statements (`Ledger`), what is missing and whether the ledger fits (`Plan`), the names of lock
--   holders (`Holder`), the lock (`Locking`), the files (`Load`) and the whole start (`Startup`), as a
--   sequence of transactions (`Steps`). What the SQL of a migration does, the check of the foreign
--   keys, the hash, the machine's names and processes and what other processes do are parameters.
-- Runner: internal/runner. `Runner` is the escalation of signal.go, with the moves of its goroutines,
--   and `Runner.Classify` is `classify` of result.go, over what the operating system tells of a process.
-- Spec: internal/spec. `Spec.Duration` is duration.go: `ParseDuration`, with each of its refusals, and
--   `FormatDuration`, on bytes and milliseconds; `strings.TrimSpace` is a parameter.
-- Log: internal/logsink. `Log.Quota` is the ring and the tail buffer of quota.go, and `SeqCheck` of
--   tail.go.
-- Prefix: internal/id. `Prefix` is prefix.go; the ulid library's alphabet and width are parameters.
-- Clock: internal/clock. `Clock` is the detector of jump.go.
-- Suggest: internal/diag. `Suggest.suggest` is `Suggest` and `Suggest.Distance` is `Distance` of
--   suggest.go, on runes; lowering the case, the sort and the length in bytes are parameters.
-- Examples holds runs on concrete inputs.
--
-- Numbers: an instant is a natural number of milliseconds, a duration of internal/retry an int64,
-- a line of a log its bytes. The loop of `Delay` runs on the attempts before the current one, which
-- are all the rounds that the source makes, so no fuel is spent early. The loop of `withTx` makes at
-- most `maxWriteAttempts` tries. The loop of `ExecuteRun` runs on fuel, one unit for a round; what is
-- said of the tables holds for every fuel, and a loop out of fuel answers `still_running`. The loop of
-- `ParseDuration` has the length of the text as fuel, since a part takes two bytes, and the digits of
-- a number the number itself. The wait for the migrator's lock has 601 rounds, one more than its 30
-- seconds have pauses of 50 milliseconds.
--
-- Not modelled: the driver of SQLite and the operating system's processes, signals and files, of
-- which the model takes only whether a transaction went through; the command line, the doctor and
-- the texts of messages; the minting of identifiers, the sources of time and the
-- decoding of job files; the listings and the other consistency checks of internal/store; other executors
-- at work on the same tables.
pub mod Clock
pub mod Engine
pub mod Examples
pub mod Log
pub mod Model
pub mod Prefix
pub mod Prelude
pub mod Retry
pub mod Runner
pub mod Spec
pub mod Store
pub mod Suggest
