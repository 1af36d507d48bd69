-- ===== src/Store/Migrate/Undisturbed.antt =====
-- The part of a start of internal/store/migrate.go that holds the lock, when nothing disturbs it.
use pulseq.Prelude.{
  ℕ, suc, ◌≡◌, refl, sym, ap, ◌∙◌, subst, Bool, false, List, [], Option, none, some, Text, take,
}
use pulseq.Store.Tx.{done, with_tx, with_tx_on}
use pulseq.Store.Migrate.Ledger.{
  Migration, AppliedMigration, Database, Lock, ledger_rows, ensure_migration_tables,
}
use pulseq.Store.Migrate.Plan.{pending, check_applied}
use pulseq.Store.Migrate.Prefix.{Numbered, pending-Recorded}
use pulseq.Store.Migrate.Fits.{check_applied-Recorded}
use pulseq.Store.Migrate.Stages.{At, schema_after}
use pulseq.Store.Migrate.Calm.{
  Calm, Answers, transact-Answers, transact_on-Answers, heed-Answers, Ready, apply_each-Answers,
}
use pulseq.Store.Migrate.Holder.{lock_holder}
use pulseq.Store.Migrate.Locking.{
  try_lock, try_lock_migrations, unlock_migrations, lock_rounds, lock_migrations, lock_row,
}
use pulseq.Store.Migrate.Steps.{
  Ran, Act, answered, stopped, ◌>>◌, heed, others, transact, with_answer, with_error, finally,
  >>=-Leaves,
}
use pulseq.Store.Migrate.Startup.{
  World, preparing, unlocking, before_reading, applied_migrations, migrate_locked, migrate_pending,
}

-- Nobody holds the migrator's lock.
abbrev pub Free : Option (Option Lock) → Type 0
Free none = Unit {0}
Free (some none) = Unit {0}
Free (some (some row)) = ⊥

-- Any answer will do.
abbrev pub Any : {Sch : Type 0} → Unit {0} → Database Sch → Type 0
Any _ _ = Unit {0}

module _ {Sch : Type 0} (exec : Text → Sch → Option Sch) (violates : Sch → Bool) (base : Sch)
    (all : List Migration) (numbered : Numbered 0 all) (w : World Sch) (calm : Calm w) (end : Sch)
    (whole : schema_after exec base all ≡ some end)
    (keeps_keys : (k : ℕ) (s : Sch)
      → schema_after exec base (take k all) ≡ some s
      → violates s ≡ false) where
  abbrev R : ℕ → Database Sch → Type 0
  R = Ready exec violates base all numbered w calm end whole keeps_keys

  passes :
      (rows : List AppliedMigration) (k : ℕ) (db : Database Sch)
      → R k db
      → rows ≡ ledger_rows db
      → check_applied all rows ≡ none
  passes rows k db r read =
      ap (check_applied all) read
      ∙ check_applied-Recorded all k (ledger_rows db) numbered r.at.recorded r.at.within

  migrate_locked-Answers :
      (k : ℕ) (db : Database Sch) → R k db → Answers Any (migrate_locked exec violates w all db)
  unfolding migrate_locked
  migrate_locked-Answers k db r =
      >>=-Leaves {between = λ rows d. (rows ≡ ledger_rows d) × R k d}
        (others (w.meanwhile before_reading)
          >> heed w.second_read
          >> applied_migrations exec violates)
        _ db
        (>>=-Leaves {between = λ _. R k} (others (w.meanwhile before_reading) >> heed w.second_read)
          _ db
          (heed-Answers w.second_read (w.meanwhile before_reading db) calm.second_read
            (subst (R k) (sym (calm.alone before_reading db)) r))
          λ _ d r. with_answer {db = d} (refl, r))
        λ rows d found.
          let r = found.1 in
          >>=-Leaves {between = λ _ d'. (rows ≡ ledger_rows d') × R k d'}
            (heed (check_applied all rows)) _ d
            (heed-Answers (check_applied all rows) d (passes rows k d r found.0) found)
            λ _ d' found'.
              apply_each-Answers exec violates base all numbered w calm end whole keeps_keys
                (pending all rows) k d' found'.1
                (sym (
                  ap (pending all) found'.0
                  ∙ pending-Recorded 0 all k (ledger_rows d') numbered found'.1.at.recorded))

  -- The deferred call's error is dropped.
  finally-Answers :
      {B : Type 0} (m : Act (Database Sch) (Unit {0})) (last : Act (Database Sch) B)
      (db : Database Sch)
      → Answers Any (m db)
      → Answers Any (finally m last db)
  unfolding finally
  finally-Answers {B = B} m last db h = go (m db) h
    where
      go :
          (r : Ran (Database Sch) (Unit {0}))
          → Answers Any r
          → Answers Any (finally (λ _. r) last db)
      go (answered a mid) h = with_answer tt
      go (stopped e mid) (with_error h) = absurd h

  -- The tables of the migrator, free and there.
  prepared : Database Sch → Database Sch
  prepared db = record db { ledger = some (ledger_rows db); lock = some none }

  ensure-Free :
      (db : Database Sch) → Free db.lock → ensure_migration_tables db ≡ done tt (prepared db)
  unfolding ensure_migration_tables prepared
  ensure-Free db free =
      ap (λ l. done tt (record db { ledger = some (ledger_rows db); lock = l })) (go db.lock free)
    where
      go :
          (l : Option (Option Lock))
          → Free l
          → elim l [ none ↦ some none | some row ↦ some row ] ≡ some none
      go none h = refl
      go (some none) h = refl
      go (some (some row)) h = absurd h

  ready : (k : ℕ) (db : Database Sch) → At exec base all k db → R k (prepared db)
  unfolding prepared
  ready k db at = record { at = at; rows = ledger_rows db; table = refl }

  first_round :
      (k fuel : ℕ) (db : Database Sch)
      → At exec base all k db
      → Answers (λ _. R k) (lock_rounds w.writable w.host w.rounds (suc fuel) 0 (prepared db))
  unfolding lock_rounds try_lock prepared
  first_round k fuel db at =
      >>=-Leaves {between = λ holder d. (holder ≡ []) × R k d}
        (transact (
          with_tx_on w.writable (w.rounds 0).tries (try_lock_migrations w.host (w.rounds 0).now)
            []))
        _ (prepared db)
        (transact_on-Answers w.writable (w.rounds 0).tries
          (try_lock_migrations w.host (w.rounds 0).now) [] (prepared db)
          (record (prepared db) {
            lock = some (some (lock_row (lock_holder w.host) (w.rounds 0).now));
          })
          [] calm.writable calm.first_round refl
          (refl, record { at = at; rows = ledger_rows db; table = refl }))
        λ holder d found. rw found.0 (with_answer found.1)

  lock_first :
      (k : ℕ) (db : Database Sch)
      → At exec base all k db
      → Answers (λ _. R k) (lock_migrations w.writable w.host w.rounds (prepared db))
  unfolding lock_migrations
  lock_first k db at = first_round k 600 db at

  pub migrate_pending-Answers :
      (k : ℕ) (db : Database Sch)
      → At exec base all k db
      → Free db.lock
      → Answers Any (migrate_pending exec violates w all db)
  unfolding migrate_pending
  migrate_pending-Answers k db at free =
      >>=-Leaves {between = λ _. R k}
        (transact (with_tx w.writable (w.tries preparing) ensure_migration_tables)
          >> lock_migrations w.writable w.host w.rounds)
        _ db
        (>>=-Leaves {between = λ _ d. prepared db ≡ d}
          (transact (with_tx w.writable (w.tries preparing) ensure_migration_tables)) _ db
          (transact-Answers w.writable (w.tries preparing) ensure_migration_tables db (prepared db)
            tt calm.writable (calm.first_try preparing) (ensure-Free db free) refl)
          λ _ d same.
            subst (λ d. Answers (λ _. R k) (lock_migrations w.writable w.host w.rounds d)) same
              (lock_first k db at))
        λ _ d r.
          finally-Answers (migrate_locked exec violates w all)
            (transact (with_tx w.writable (w.tries unlocking) (unlock_migrations w.host))) d
            (migrate_locked-Answers k d r)
