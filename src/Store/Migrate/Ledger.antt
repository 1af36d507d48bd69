-- ===== src/Store/Migrate/Ledger.antt =====
-- internal/store/migrate.go: the migrations that a build carries, the two tables that the migrator
-- keeps, and the single statements on them. `Sch` is all else in the database, on which the
-- migrations' SQL works; running SQL is a parameter.
use pulseq.Prelude.{
  ℕ, Bool, true, false, String, List, [], ◌∷◌, Option, none, some, Text, if◌then◌else◌, ltb, ◌==◌,
}
use pulseq.Store.Tx.{Over, done, failed, driver, constraint, foreign_key, ◌>>=◌, ◌>>◌, pure}

pub record Migration : Type 0 where
  pub version : ℕ
  pub name : Text
  pub file : Text
  pub sql : Text
  pub checksum : String
  pub rebuild : Bool

pub record AppliedMigration : Type 0 where
  pub version : ℕ
  pub name : Text
  pub checksum : String
  pub applied_at : ℕ

-- The row of `schema_migration_lock`.
pub record Lock : Type 0 where
  pub holder : Text
  pub acquired_at : ℕ
  pub expires_at : ℕ

-- A table that does not exist is `none`. The ledger is in the order of its primary key, as SQLite
-- keeps it. The pragma `foreign_keys` is the one of the writer's connection.
pub record Database (Sch : Type 0) : Type 0 where
  pub ledger : Option (List AppliedMigration)
  pub lock : Option (Option Lock)
  pub user_version : ℕ
  pub foreign_keys : Bool
  pub schema : Sch

abbrev pub ledger_rows : {Sch : Type 0} → Database Sch → List AppliedMigration
ledger_rows db = elim db.ledger [ none ↦ [] | some rows ↦ rows ]

-- `SELECT count(*) ... WHERE version = ?`, as whether there is a row.
unfoldable pub holds_version : ℕ → List AppliedMigration → Bool
holds_version v [] = false
holds_version v (a ∷ rest) = if a.version == v then true else holds_version v rest

-- The insertion into the table under its primary key.
unfoldable pub insert_applied :
    AppliedMigration → List AppliedMigration → Option (List AppliedMigration)
insert_applied a [] = some (a ∷ [])
insert_applied a (b ∷ rest) =
    let later = insert_applied a rest in
    if a.version == b.version
    then none
    else if ltb a.version b.version
    then some (a ∷ b ∷ rest)
    else elim later [ none ↦ none | some rows ↦ some (b ∷ rows) ]

-- The row that `recordMigration` writes.
abbrev pub applied_row : ℕ → Migration → AppliedMigration
applied_row now m = record {
  version = m.version;
  name = m.name;
  checksum = m.checksum;
  applied_at = now;
}

module _ {Sch : Type 0} where
  -- `ensureMigrationTables`.
  unfoldable pub ensure_migration_tables : Over (Database Sch) (Unit {0})
  ensure_migration_tables db = done tt (record db {
    ledger = some (ledger_rows db);
    lock = elim db.lock [ none ↦ some none | some row ↦ some row ];
  })

  -- `migrationApplied`, under the write lock.
  unfoldable pub migration_applied : ℕ → Over (Database Sch) Bool
  unfolding holds_version
  migration_applied version db = elim db.ledger [
    | none ↦ failed (driver false)
    | some rows ↦ done (holds_version version rows) db
  ]

  -- `setUserVersion`.
  unfoldable pub set_user_version : ℕ → Over (Database Sch) (Unit {0})
  set_user_version version db = done tt (record db { user_version = version })

  -- The statement of `recordMigration`.
  unfoldable pub insert_ledger : ℕ → Migration → Over (Database Sch) (Unit {0})
  unfolding insert_applied
  insert_ledger now m db = elim db.ledger [
    | none ↦ failed (driver false)
    | some rows ↦ elim (insert_applied (applied_row now m) rows) [
      | none ↦ failed constraint
      | some rows' ↦ done tt (record db { ledger = some rows' })
    ]
  ]

  -- `recordMigration`.
  unfoldable pub record_migration : ℕ → Migration → Over (Database Sch) (Unit {0})
  unfolding insert_ledger set_user_version
  record_migration now m = insert_ledger now m >> set_user_version m.version

  -- The migration's own SQL, which fails or changes the schema.
  unfoldable pub run_sql : (Text → Sch → Option Sch) → Text → Over (Database Sch) (Unit {0})
  run_sql exec sql db = elim (exec sql db.schema) [
    | none ↦ failed (driver false)
    | some schema ↦ done tt (record db { schema = schema })
  ]

  -- The body of `applyOne`: the ledger is read again, and the SQL, the ledger's row and the fence go
  -- together.
  unfoldable pub apply_body :
      (Text → Sch → Option Sch) → ℕ → Migration → Over (Database Sch) (Unit {0})
  unfolding migration_applied run_sql record_migration
  apply_body exec now m = migration_applied m.version >>= λ already.
      if already then pure tt else (run_sql exec m.sql >> record_migration now m)

  -- `checkForeignKeys`: `PRAGMA foreign_key_check` has a row if the schema violates a key.
  unfoldable pub check_foreign_keys : (Sch → Bool) → Over (Database Sch) (Unit {0})
  check_foreign_keys violates db = if violates db.schema then failed foreign_key else done tt db

  -- `rebuildInTx`.
  unfoldable pub rebuild_in_tx :
      (Text → Sch → Option Sch) → (Sch → Bool) → ℕ → Migration → Over (Database Sch) (Unit {0})
  unfolding migration_applied run_sql record_migration check_foreign_keys
  rebuild_in_tx exec violates now m = migration_applied m.version >>= λ already.
      if already
      then pure tt
      else (run_sql exec m.sql >> record_migration now m >> check_foreign_keys violates)
