-- ===== src/Store/Migrate/Applied.antt =====
-- What the transaction of one migration of internal/store/migrate.go does, when it commits.
use pulseq.Prelude.{
  ℕ, zero, suc, ◌+◌, ◌≤◌, ◌<◌, ◌≡◌, sym, subst, inl, inr, Bool, false, List, [], ◌∷◌, ◌++◌, Option,
  none, some, Text, length, get_elem?, take, arith, if◌then◌else◌, ltb, Bool-cases, Option-cases,
}
use pulseq.Store.Tx.{done, failed, driver}
use pulseq.Store.Migrate.Ledger.{
  Migration, AppliedMigration, Database, ledger_rows, holds_version, applied_row, migration_applied,
  run_sql, record_migration, insert_ledger, set_user_version, apply_body, rebuild_in_tx,
  check_foreign_keys,
}
use pulseq.Store.Migrate.Prefix.{
  Numbered, Recorded, version_at, holds_version-Recorded, insert_applied-Recorded,
}
use pulseq.Store.Migrate.Stages.{At, Kept, Kept-here, schema_after-take}

pub get_elem?_bound :
    (all : List Migration) (j : ℕ) (m : Migration) → get_elem? all j ≡ some m → j < length all
get_elem?_bound [] j m h = cc
get_elem?_bound (x ∷ all) zero m h = omega arith
get_elem?_bound (x ∷ all) (suc j) m h = omega (arith, get_elem?_bound all j m h)

module _ {Sch : Type 0} (exec : Text → Sch → Option Sch) (violates : Sch → Bool) (base : Sch)
    (all : List Migration) (numbered : Numbered 0 all) where
  -- The tables behind a migration that was run on them.
  abbrev pub with_migration :
      ℕ → Migration → List AppliedMigration → Sch → Database Sch → Database Sch
  with_migration now m rows s db = record db {
    ledger = some (rows ++ applied_row now m ∷ []);
    user_version = m.version;
    schema = s;
  }

  -- A migration of the ledger is left out, and the next one is run, recorded and fenced.
  pub apply_body_lem :
      (k j now : ℕ) (m : Migration) (db : Database Sch) (rows : List AppliedMigration)
      → db.ledger ≡ some rows
      → Recorded (take k all) rows
      → get_elem? all j ≡ some m
      → j ≤ k
      → apply_body exec now m db ≡ (
          if ltb j k then done tt db else elim (exec m.sql db.schema) [
            | none ↦ failed (driver false)
            | some s ↦ done tt (with_migration now m rows s db)
          ])
  unfolding apply_body migration_applied run_sql record_migration insert_ledger set_user_version
  apply_body_lem k j now m db rows t r at below =
      let version : m.version ≡ suc (0 + j) = version_at 0 all j m numbered at in
      let held : holds_version m.version rows ≡ ltb j k =
        subst (λ v. holds_version v rows ≡ ltb j k) (sym version)
          (holds_version-Recorded 0 all k rows j numbered r (get_elem?_bound all j m at)) in
      elim (Bool-cases (ltb j k)) [
        | inl old ↦ ground (arith, t, held, old)
        | inr new ↦
            let next : get_elem? all k ≡ some m =
              subst (λ i. get_elem? all i ≡ some m) (ground arith) at in
            let put = (insert_applied-Recorded 0 all k rows m now numbered r next).0 in
            elim (Option-cases (exec m.sql db.schema)) [
              | inl fails ↦ ground (arith, t, held, new, fails)
              | inr (s, runs) ↦ ground (arith, t, held, new, runs, put)
            ]
      ]

  -- A rebuild that commits did what the plain way does.
  pub rebuild_in_tx-apply_body :
      (now : ℕ) (m : Migration) (db db' : Database Sch)
      → rebuild_in_tx exec violates now m db ≡ done tt db'
      → apply_body exec now m db ≡ done tt db'
  unfolding apply_body rebuild_in_tx migration_applied run_sql record_migration insert_ledger
      set_user_version check_foreign_keys
  rebuild_in_tx-apply_body now m db db' h = ground arith

  -- A plain run that leaves no violation is a rebuild.
  pub apply_body-rebuild_in_tx :
      (now : ℕ) (m : Migration) (db db' : Database Sch)
      → apply_body exec now m db ≡ done tt db'
      → holds_version m.version (ledger_rows db) ≡ false
      → violates db'.schema ≡ false
      → rebuild_in_tx exec violates now m db ≡ done tt db'
  unfolding apply_body rebuild_in_tx migration_applied run_sql record_migration insert_ledger
      set_user_version check_foreign_keys
  apply_body-rebuild_in_tx now m db db' h new kept = ground arith

  abbrev pub Advanced : (k j : ℕ) (db db' : Database Sch) → Type 0
  Advanced k j db db' = (l : Kept exec base all k db.user_version db') × (suc j ≤ l.stage)

  -- The next migration leads to the next stage.
  pub next-At :
      (k now : ℕ) (m : Migration) (db : Database Sch) (rows : List AppliedMigration) (s : Sch)
      → db.ledger ≡ some rows
      → At exec base all k db
      → get_elem? all k ≡ some m
      → exec m.sql db.schema ≡ some s
      → At exec base all (suc k) (with_migration now m rows s db)
  next-At k now m db rows s t h at runs = record {
    within = omega (arith, get_elem?_bound all k m at);
    recorded =
        (insert_applied-Recorded 0 all k rows m now numbered
          (subst (Recorded (take k all)) (ground (arith, t)) h.recorded) at).1;
    shape = schema_after-take exec base all k m db.schema s h.shape at runs;
    fenced = omega (arith, version_at 0 all k m numbered at);
  }

  next_stage :
      (k now : ℕ) (m : Migration) (db : Database Sch) (rows : List AppliedMigration) (s : Sch)
      → db.ledger ≡ some rows
      → At exec base all k db
      → get_elem? all k ≡ some m
      → exec m.sql db.schema ≡ some s
      → Advanced k k db (with_migration now m rows s db)
  next_stage k now m db rows s t h at runs = (
    record {
      stage = suc k;
      at = next-At k now m db rows s t h at runs;
      grown = inr (omega arith, omega (arith, version_at 0 all k m numbered at));
    },
    omega arith,
  )

  needs_ledger :
      (now : ℕ) (m : Migration) (db db' : Database Sch)
      → db.ledger ≡ none
      → apply_body exec now m db ≡ done tt db'
      → ⊥
  unfolding apply_body migration_applied
  needs_ledger now m db db' absent ran = ground (arith, absent, ran)

  -- A committed migration that is not beyond the next one keeps the stage, or reaches the stage
  -- behind it.
  pub apply_body-Kept :
      (k j now : ℕ) (m : Migration) (db db' : Database Sch)
      → At exec base all k db
      → get_elem? all j ≡ some m
      → j ≤ k
      → apply_body exec now m db ≡ done tt db'
      → Advanced k j db db'
  apply_body-Kept k j now m db db' h at below ran = elim (Option-cases db.ledger) [
    | inl absent ↦ absurd (needs_ledger now m db db' absent ran)
    | inr (rows, t) ↦
        let r : Recorded (take k all) rows =
          subst (Recorded (take k all)) (ground (arith, t)) h.recorded in
        let does = apply_body_lem k j now m db rows t r at below in
        elim (Bool-cases (ltb j k)) [
          | inl old ↦
              let same : db ≡ db' = ground (arith, does, ran, old) in
              subst (Advanced k j db) same (Kept-here exec base all k db h, ground (arith, old))
          | inr new ↦
              let next : get_elem? all k ≡ some m =
                subst (λ i. get_elem? all i ≡ some m) (ground arith) at in
              elim (Option-cases (exec m.sql db.schema)) [
                | inl fails ↦ absurd (ground (arith, does, ran, new, fails))
                | inr (s, runs) ↦
                    let same : with_migration now m rows s db ≡ db' =
                      ground (arith, does, ran, new, runs) in
                    let (l, reached) = next_stage k now m db rows s t h next runs in
                    subst (Advanced k j db) same (l, omega (arith, below, reached))
              ]
        ]
  ]
