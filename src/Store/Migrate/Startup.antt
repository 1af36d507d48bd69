-- ===== src/Store/Migrate/Startup.antt =====
-- internal/store/migrate.go: `migrateFS` from the loaded set on, with the two ways of applying one
-- migration.
use pulseq.Prelude.{
  ℕ, Bool, true, false, not, List, [], ◌∷◌, Option, none, some, String, Text, if◌then◌else◌, ltb,
}
use pulseq.Store.Tx.{
  TxResult, done, failed, Failure, driver, newer_schema, unloadable, Attempt, with_tx,
}
use pulseq.Store.Migrate.Ledger.{
  Migration, AppliedMigration, Database, ledger_rows, ensure_migration_tables, set_user_version,
  apply_body, rebuild_in_tx,
}
use pulseq.Store.Migrate.Plan.{max_version, highest_applied, pending, check_applied}
use pulseq.Store.Migrate.Load.{Directory, loads, refuses, load_migrations}
use pulseq.Store.Migrate.Holder.{Host}
use pulseq.Store.Migrate.Locking.{Round, lock_migrations, unlock_migrations}
use pulseq.Store.Migrate.Steps.{
  Ran, Act, answered, stopped, ◌>>=◌, ◌>>◌, give, stop, heed, others, transact, finally,
}

-- Which statements around a rebuild's transaction go through: taking the connection, the pragma off,
-- the beginning and the commit, the pragma on again, and closing.
pub record RebuildFate : Type 0 where
  pub connects : Bool
  pub turns_off : Bool
  pub begins : Bool
  pub commits : Bool
  pub turns_on : Bool
  pub closes : Bool

-- The write transactions of a start, and the places where others may have been at work.
pub data Write : Type 0 where
  repairing preparing unlocking : Write
  applying : ℕ → Write

pub data Place : Type 0 where
  after_version after_ledger before_reading : Place
  before_applying : ℕ → Place

-- What a start meets: its machine, whether its reads fail, the tries and the instant of each of its
-- transactions, the rounds for the lock, the fates of rebuilds, and what others do.
pub record World (Sch : Type 0) : Type 0 where
  pub host : Host
  pub writable : Bool
  pub version_read : Option Failure
  pub ledger_read : Option Failure
  pub second_read : Option Failure
  pub tries : Write → ℕ → Attempt
  pub now : ℕ → ℕ
  pub rounds : ℕ → Round Sch
  pub rebuilding : ℕ → RebuildFate
  pub meanwhile : Place → Database Sch → Database Sch

abbrev pub none_pending : List Migration → Bool
none_pending [] = true
none_pending (_ ∷ _) = false

module _ {Sch : Type 0} (exec : Text → Sch → Option Sch) (violates : Sch → Bool) where
  -- The end of `applyRebuild`, in the order in which its deferred calls run.
  abbrev pub closed : Bool → Ran (Database Sch) (Unit {0}) → Ran (Database Sch) (Unit {0})
  closed true r = r
  closed false (answered a db) = stopped (driver false) db
  closed false (stopped e db) = stopped e db

  abbrev pub turned_on : Bool → Ran (Database Sch) (Unit {0}) → Ran (Database Sch) (Unit {0})
  turned_on true (answered a db) = answered a (record db { foreign_keys = true })
  turned_on true (stopped e db) = stopped e (record db { foreign_keys = true })
  turned_on false (answered a db) = stopped (driver false) db
  turned_on false (stopped e db) = stopped e db

  abbrev pub commit_rebuild :
      Bool → Database Sch → TxResult (Database Sch) (Unit {0}) → Ran (Database Sch) (Unit {0})
  commit_rebuild commits db (failed e) = stopped e db
  commit_rebuild true db (done a db') = answered a db'
  commit_rebuild false db (done a db') = stopped (driver false) db

  -- The transaction of a rebuild, on the connection whose pragma is off.
  unfoldable pub rebuild_tx : RebuildFate → ℕ → Migration → Act (Database Sch) (Unit {0})
  unfolding rebuild_in_tx
  rebuild_tx fate now m db =
      if not fate.begins
      then stopped (driver false) db
      else commit_rebuild fate.commits db (rebuild_in_tx exec violates now m db)

  -- `applyRebuild`.
  unfoldable pub apply_rebuild : RebuildFate → ℕ → Migration → Act (Database Sch) (Unit {0})
  unfolding rebuild_tx
  apply_rebuild fate now m db =
      if not fate.connects
      then stopped (driver false) db
      else closed fate.closes (
          turned_on fate.turns_on (
            if not fate.turns_off
            then stopped (driver false) db
            else rebuild_tx fate now m (record db { foreign_keys = false })))

  -- `applyOne`.
  unfoldable pub apply_one : World Sch → Migration → Act (Database Sch) (Unit {0})
  unfolding apply_rebuild apply_body with_tx
  apply_one w m =
      if m.rebuild
      then apply_rebuild (w.rebuilding m.version) (w.now m.version) m
      else transact
          (with_tx w.writable (w.tries (applying m.version)) (apply_body exec (w.now m.version) m))

  -- The loop over the pending migrations.
  unfoldable pub apply_each : World Sch → List Migration → Act (Database Sch) (Unit {0})
  unfolding apply_one ◌>>=◌
  apply_each w [] = give tt
  apply_each w (m ∷ rest) =
      others (w.meanwhile (before_applying m.version)) >> apply_one w m >> apply_each w rest

  abbrev pub read_version : Act (Database Sch) ℕ
  read_version db = answered db.user_version db

  -- `appliedMigrations`: a ledger that does not exist yet has no rows.
  abbrev pub applied_migrations : Act (Database Sch) (List AppliedMigration)
  applied_migrations db = answered (ledger_rows db) db

  -- The second half of `migrateFS`, with the lock held.
  unfoldable pub migrate_locked : World Sch → List Migration → Act (Database Sch) (Unit {0})
  unfolding apply_each check_applied pending ◌>>=◌
  migrate_locked w all =
      others (w.meanwhile before_reading) >> heed w.second_read >> applied_migrations >>= λ applied.
      heed (check_applied all applied) >> apply_each w (pending all applied)

  -- What `migrateFS` does when migrations are missing.
  unfoldable pub migrate_pending : World Sch → List Migration → Act (Database Sch) (Unit {0})
  unfolding migrate_locked lock_migrations unlock_migrations with_tx ensure_migration_tables finally
      ◌>>=◌
  migrate_pending w all =
      transact (with_tx w.writable (w.tries preparing) ensure_migration_tables)
      >> lock_migrations w.writable w.host w.rounds
      >> finally (migrate_locked w all)
          (transact (with_tx w.writable (w.tries unlocking) (unlock_migrations w.host)))

  -- What it does when none is missing: the fence is put back if it fell behind the ledger.
  unfoldable pub repair_fence : World Sch → ℕ → ℕ → Act (Database Sch) (Unit {0})
  unfolding set_user_version with_tx
  repair_fence w current highest =
      if ltb current highest
      then transact (with_tx w.writable (w.tries repairing) (set_user_version highest))
      else give tt

  -- `migrateFS` from the reading of the fence on.
  unfoldable pub migrate_at_version : World Sch → List Migration → ℕ → Act (Database Sch) (Unit {0})
  unfolding migrate_pending repair_fence check_applied max_version pending highest_applied ◌>>=◌
  migrate_at_version w all current =
      heed (if ltb (max_version all) current then some newer_schema else none)
      >> others (w.meanwhile after_version)
      >> heed w.ledger_read
      >> applied_migrations
      >>= λ applied.
          heed (check_applied all applied)
          >> others (w.meanwhile after_ledger)
          >> (if none_pending (pending all applied)
              then repair_fence w current (highest_applied applied)
              else migrate_pending w all)

  -- `migrateFS`, on the migrations that were loaded.
  unfoldable pub migrate_all : World Sch → List Migration → Act (Database Sch) (Unit {0})
  unfolding migrate_at_version ◌>>=◌
  migrate_all w all = heed w.version_read >> read_version >>= migrate_at_version w all

  -- `migrateFS`.
  unfoldable pub migrate_fs :
      (Text → String) → (Text → Text) → Directory → World Sch → Act (Database Sch) (Unit {0})
  unfolding load_migrations migrate_all
  migrate_fs sum trim_space dir w = elim (load_migrations sum trim_space dir) [
    | refuses e ↦ stop unloadable
    | loads all ↦ migrate_all w all
  ]
