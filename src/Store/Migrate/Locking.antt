-- ===== src/Store/Migrate/Locking.antt =====
-- internal/store/migrate.go: the migrator's lock.
use pulseq.Prelude.{
  ℕ, zero, suc, ◌+◌, Bool, true, false, not, ◌||◌, ◌&&◌, [], Option, none, some, Text, same_text,
  if◌then◌else◌, leb,
}
use pulseq.Store.Tx.{
  Over, done, failed, driver, Attempt, Closure, with_tx_on, lock_held, still_waiting, context_over,
}
use pulseq.Store.Migrate.Ledger.{Database, Lock}
use pulseq.Store.Migrate.Holder.{Host, lock_holder, holder_alive}
use pulseq.Store.Migrate.Steps.{Act, stop, ◌>>=◌, ◌>>◌, give, others, transact}

-- `migrationLockTTL`, `migrationLockPoll` and `migrationLockWait`, in milliseconds.
abbrev pub migration_lock_ttl : ℕ
migration_lock_ttl = 300000

abbrev pub migration_lock_poll : ℕ
migration_lock_poll = 50

abbrev pub migration_lock_wait : ℕ
migration_lock_wait = 30000

abbrev pub lock_row : Text → ℕ → Lock
lock_row me now = record { holder = me; acquired_at = now; expires_at = now + migration_lock_ttl }

-- What one round of `lockMigrations` meets: the transaction's tries and its instant, the time since
-- the first round, whether the context ends before the timer, and what others do in the pause.
pub record Round (Sch : Type 0) : Type 0 where
  pub tries : ℕ → Attempt
  pub now : ℕ
  pub elapsed : ℕ
  pub context_done : Bool
  pub meanwhile : Database Sch → Database Sch

-- More rounds than a wait of `migrationLockWait` has pauses of `migrationLockPoll`.
abbrev pub enough_rounds : ℕ
enough_rounds = 601

-- Whether an attempt got past so many statements.
abbrev past : Option ℕ → ℕ → Bool
past none k = true
past (some n) k = leb k n

module _ {Sch : Type 0} where
  abbrev put_lock : Option Lock → Database Sch → Database Sch
  put_lock row db = record db { lock = some row }

  -- The closure of `tryLockMigrations`, at an instant, from the value `held` of the variable
  -- `holder` that it captures: the holder that the method answers with. The closure does not reset
  -- it, so that it is empty behind a lock that was free only if no earlier attempt has read a holder.
  unfoldable pub try_lock : Host → ℕ → Text → Over (Database Sch) Text
  try_lock host now held db = elim db.lock [
    | none ↦ failed (driver false)
    | some none ↦ done held (put_lock (some (lock_row (lock_holder host) now)) db)
    | some (some row) ↦
        if same_text row.holder (lock_holder host) || leb row.expires_at now
        then done held (put_lock (some (lock_row (lock_holder host) now)) db)
        else if not (holder_alive host row.holder)
        then done [] (put_lock (some (lock_row (lock_holder host) now)) db)
        else done row.holder db
  ]

  -- What `holder` is behind an attempt: the second statement reads the row's holder into it, and
  -- behind the third, which takes a dead holder's lock, it is emptied.
  unfoldable pub holder_left : Host → ℕ → Option ℕ → Text → Database Sch → Text
  holder_left host now cut held db = elim db.lock [
    | none ↦ held
    | some none ↦ held
    | some (some row) ↦
        if same_text row.holder (lock_holder host) || leb row.expires_at now
        then held
        else if not (past cut 2)
        then held
        else if not (holder_alive host row.holder) && past cut 3
        then []
        else row.holder
  ]

  -- `tryLockMigrations` but for its transaction.
  abbrev pub try_lock_migrations : Host → ℕ → Closure Text (Database Sch) Text
  try_lock_migrations host now = record { runs = try_lock host now; holds = holder_left host now }

  -- The body of `unlockMigrations`.
  unfoldable pub unlock_migrations : Host → Over (Database Sch) (Unit {0})
  unlock_migrations host db = elim db.lock [
    | none ↦ failed (driver false)
    | some none ↦ done tt db
    | some (some row) ↦
        if same_text row.holder (lock_holder host) then done tt (put_lock none db) else done tt db
  ]

  -- The loop of `lockMigrations`, on fuel.
  unfoldable pub lock_rounds : Bool → Host → (ℕ → Round Sch) → ℕ → ℕ → Act (Database Sch) (Unit {0})
  unfolding try_lock holder_left with_tx_on ◌>>=◌
  lock_rounds writable host rounds zero i = stop still_waiting
  lock_rounds writable host rounds (suc fuel) i =
      let again = lock_rounds writable host rounds fuel (suc i) in
      transact (with_tx_on writable (rounds i).tries (try_lock_migrations host (rounds i).now) [])
      >>= λ holder.
          if same_text holder []
          then give tt
          else if leb migration_lock_wait (rounds i).elapsed
          then stop lock_held
          else if (rounds i).context_done
          then stop context_over
          else (others (rounds i).meanwhile >> again)

  unfoldable pub lock_migrations : Bool → Host → (ℕ → Round Sch) → Act (Database Sch) (Unit {0})
  unfolding lock_rounds
  lock_migrations writable host rounds = lock_rounds writable host rounds enough_rounds 0
