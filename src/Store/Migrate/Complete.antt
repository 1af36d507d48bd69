-- ===== src/Store/Migrate/Complete.antt =====
-- A start of internal/store/migrate.go that succeeds leaves the database complete.
use pulseq.Prelude.{
  ℕ, ◌≤◌, ◌<◌, ◌≡◌, refl, sym, ap, ◌∙◌, subst, inl, inr, Bool, List, [], ◌∷◌, Option, none, some,
  String, Text, length, drop, arith, if◌then◌else◌, ltb, Bool-cases,
}
use pulseq.Store.Tx.{newer_schema, with_tx}
use pulseq.Store.Migrate.Ledger.{
  Migration, AppliedMigration, Database, ledger_rows, ensure_migration_tables, set_user_version,
}
use pulseq.Store.Migrate.Plan.{pending, check_applied, highest_applied, max_version}
use pulseq.Store.Migrate.Prefix.{
  Numbered, pending-Recorded, highest_applied-Recorded, drop_end, drop_more,
}
use pulseq.Store.Migrate.Stages
use pulseq.Store.Migrate.Stages.{Later, At, Kept, Kept-here, Kept-onward}
use pulseq.Store.Migrate.Kept.{transact-Leaves, Benign, Held, Reached}
use pulseq.Store.Migrate.Locking.{unlock_migrations, lock_migrations, enough_rounds}
use pulseq.Store.Migrate.Steps.{
  ◌>>◌, heed, others, transact, Leaves, with_answer, weaken-Leaves, heed-Leaves, finally-Leaves,
  >>=-Leaves,
}
use pulseq.Store.Migrate.Startup.{
  World, preparing, unlocking, repairing, after_version, after_ledger, applied_migrations,
  read_version, migrate_locked, migrate_pending, repair_fence, none_pending, migrate_at_version,
  migrate_all, migrate_fs,
}
use pulseq.Store.Migrate.Load.{Directory, loads, load_migrations}
use pulseq.Store.Migrate.Loaded.{load_migrations-Numbered}
use pulseq.Store.Migrate.Whole.{
  meet, migrate_locked-Leaves, lock_rounds-Leaves, unlock_migrations-Leaves, ensure_keeps,
}

module _ {Sch : Type 0} (exec : Text → Sch → Option Sch) (violates : Sch → Bool) (base : Sch)
    (all : List Migration) (numbered : Numbered 0 all) (w : World Sch)
    (benign : Benign exec base all w) where
  abbrev H : ℕ → ℕ → Database Sch → Type 0
  H = Held exec violates base all numbered

  abbrev R : ℕ → ℕ → ℕ → Unit {0} → Database Sch → Type 0
  R = Reached exec violates base all numbered

  migrate_pending-Leaves :
      (k u : ℕ) (db : Database Sch)
      → H k u db
      → Leaves (H k u) (R (length all) k u) (migrate_pending exec violates w all db)
  unfolding migrate_pending lock_migrations
  migrate_pending-Leaves k u db h =
      >>=-Leaves {between = λ _. H k u}
        (transact (with_tx w.writable (w.tries preparing) ensure_migration_tables)
          >> lock_migrations w.writable w.host w.rounds)
        _ db
        (>>=-Leaves {between = λ _. H k u}
          (transact (with_tx w.writable (w.tries preparing) ensure_migration_tables)) _ db
          (transact-Leaves w.writable (w.tries preparing) ensure_migration_tables db h
            λ a db' ran. ensure_keeps exec violates base all numbered w benign k u db db' ran h)
          λ _ mid h'.
            lock_rounds-Leaves exec violates base all numbered w benign enough_rounds 0 k u mid h')
        λ _ mid h'.
          finally-Leaves (migrate_locked exec violates w all)
            (transact (with_tx w.writable (w.tries unlocking) (unlock_migrations w.host))) mid
            (migrate_locked-Leaves exec violates base all numbered w benign k u mid h')
            (λ end held.
              unlock_migrations-Leaves exec violates base all numbered w benign (H k u) end
                (λ l. held) held)
            λ a end reached.
              unlock_migrations-Leaves exec violates base all numbered w benign
                (R (length all) k u a) end (λ l. reached) reached

  abbrev C : Unit {0} → Database Sch → Type 0
  C = Stages.Complete exec base all

  -- When all is recorded that was not, the fence is at the end.
  reached_end : (k u : ℕ) (db : Database Sch) → k < length all → R (length all) k u tt db → C tt db
  reached_end k u db more (l, end) =
      let top : l.stage ≡ length all = omega (arith, end, l.at.within) in
      let fence : db.user_version ≡ l.stage = elim l.grown [
        | inl e ↦ absurd (omega (arith, e.0, more, top))
        | inr e ↦ e.1
      ] in
      (subst (λ n. At exec base all n db) top l.at, omega (arith, fence, top))

  -- Nothing was missing: the fence is at the end, or is put there.
  repair_fence-Leaves :
      (k u highest : ℕ) (db : Database Sch) (h : H k u db)
      → highest ≡ length all
      → length all ≤ h.stage
      → Leaves (H k u) C (repair_fence exec violates w u highest db)
  unfolding repair_fence set_user_version
  repair_fence-Leaves k u highest db h top end =
      let last : h.stage ≡ length all = omega (arith, end, h.at.within) in
      let at : At exec base all (length all) db = subst (λ n. At exec base all n db) last h.at in
      elim (Bool-cases (ltb u highest)) [
        | inl behind ↦ rw behind (
            transact-Leaves w.writable (w.tries repairing) (set_user_version highest) db h
              λ a db' ran.
                let same : record db { user_version = highest } ≡ db' = ground (arith, ran) in
                subst (C tt) same (
                  record {
                    within = at.within;
                    recorded = at.recorded;
                    shape = at.shape;
                    fenced = omega (arith, top);
                  },
                  top,
                ))
        | inr level ↦
            let full : length all ≤ u = ground (arith, level, top) in
            let fence : db.user_version ≡ length all = elim h.grown [
              | inl e ↦ omega (arith, e.1, full, at.fenced)
              | inr e ↦ omega (arith, e.1, last)
            ] in
            rw level (with_answer (at, fence))
      ]

  -- From the reading of the ledger on.
  judged-Leaves :
      (k u : ℕ) (rows : List AppliedMigration) (db : Database Sch) (h : H k u db)
      → rows ≡ ledger_rows db
      → Leaves (H k u) C (
          (heed (check_applied all rows)
              >> others (w.meanwhile after_ledger)
              >> (if none_pending (pending all rows)
                  then repair_fence exec violates w u (highest_applied rows)
                  else migrate_pending exec violates w all))
            db)
  judged-Leaves k u rows db h read =
      let left : pending all rows ≡ drop h.stage all =
        ap (pending all) read
        ∙ pending-Recorded 0 all h.stage (ledger_rows db) numbered h.at.recorded in
      let top : highest_applied rows ≡ h.stage =
        ap highest_applied read
        ∙ highest_applied-Recorded all h.stage (ledger_rows db) numbered h.at.recorded
            h.at.within in
      let (met, onward) = meet exec violates base all numbered w benign after_ledger k u db h in
      let late = benign.at_place after_ledger h.stage db h.at in
      >>=-Leaves {between = λ _ mid. w.meanwhile after_ledger db ≡ mid}
        (heed (check_applied all rows) >> others (w.meanwhile after_ledger)) _ db
        (>>=-Leaves {between = λ _ db'. db ≡ db'} (heed (check_applied all rows)) _ db
          (heed-Leaves (check_applied all rows) db refl h)
          λ _ db' same. with_answer (ap (w.meanwhile after_ledger) same))
        λ _ mid same.
          subst
            (λ d. Leaves (H k u) C (
              (if none_pending (pending all rows)
                  then repair_fence exec violates w u (highest_applied rows)
                  else migrate_pending exec violates w all)
                d))
            same (choose (pending all rows) left top met onward late)
    where
      choose :
          (ps : List Migration)
          → ps ≡ drop h.stage all
          → highest_applied rows ≡ h.stage
          → (met : H k u (w.meanwhile after_ledger db)) → h.stage ≤ met.stage
          → H h.stage db.user_version (w.meanwhile after_ledger db)
          → Leaves (H k u) C (
              (if none_pending ps
                  then repair_fence exec violates w u (highest_applied rows)
                  else migrate_pending exec violates w all)
                (w.meanwhile after_ledger db))
      choose [] none_left top met onward late =
          let end : length all ≤ h.stage = drop_end all h.stage (sym none_left) in
          repair_fence-Leaves k u (highest_applied rows) (w.meanwhile after_ledger db) met
            (omega (arith, top, end, h.at.within)) (omega (arith, end, onward))
      choose (m ∷ rest) some_left top met onward late =
          weaken-Leaves _
            (migrate_pending-Leaves h.stage db.user_version (w.meanwhile after_ledger db) late)
            (λ end held. (Kept-onward exec base all k u db end h held).0)
            λ a end reached.
              reached_end h.stage db.user_version end (drop_more all h.stage m rest (sym some_left))
                reached

  -- From the reading of the fence on.
  read-Leaves :
      (k u : ℕ) (db : Database Sch)
      → H k u db
      → Leaves (H k u) C (migrate_at_version exec violates w all u db)
  unfolding migrate_at_version
  read-Leaves k u db h =
      let newer = if ltb (max_version all) u then some newer_schema else none in
      let held : Unit {0} → Database Sch → Type 0 = λ _. H k u in
      >>=-Leaves {between = λ rows d. (rows ≡ ledger_rows d) × H k u d}
        (heed newer
          >> others (w.meanwhile after_version)
          >> heed w.ledger_read
          >> applied_migrations exec violates)
        _ db
        (>>=-Leaves {between = held}
          (heed newer >> others (w.meanwhile after_version) >> heed w.ledger_read) _ db
          (>>=-Leaves {between = held} (heed newer >> others (w.meanwhile after_version)) _ db
            (>>=-Leaves {between = held} (heed newer) _ db (heed-Leaves newer db h h) λ _ d h.
              with_answer (meet exec violates base all numbered w benign after_version k u d h).0)
            λ _ d h. heed-Leaves w.ledger_read d h h)
          λ _ d h. with_answer {db = d} (refl, h))
        λ rows d found. judged-Leaves k u rows d found.1 found.0

  -- Wherever a start ends that loaded these migrations.
  pub migrate_all-Complete :
      (k : ℕ) (db : Database Sch)
      → At exec base all k db
      → Leaves (Kept exec base all k db.user_version) C (migrate_all exec violates w all db)
  unfolding migrate_all
  migrate_all-Complete k db at =
      >>=-Leaves {between = λ current db'. (current ≡ db.user_version) × (db ≡ db')}
        (heed w.version_read >> read_version exec violates) _ db
        (>>=-Leaves {between = λ _ db'. db ≡ db'} (heed w.version_read) _ db
          (heed-Leaves w.version_read db refl (Kept-here exec base all k db at))
          λ _ db' same. with_answer {db = db'} (ap (λ d. d.user_version) (sym same), same))
        λ current db' found.
          subst
            (λ d. Leaves (H k db.user_version) C (migrate_at_version exec violates w all current d))
            found.1
            (subst
              (λ c. Leaves (H k db.user_version) C (migrate_at_version exec violates w all c db))
              (sym found.0) (read-Leaves k db.user_version db (Kept-here exec base all k db at)))

-- A start on a database at some stage, whatever fails and whatever others do meanwhile who keep
-- what is recorded and only add the next migrations: wherever it ends, the ledger records the first
-- migrations of the build, not fewer than before, the schema is what exactly these make of the base
-- in their order, and the fence is not beyond them; and a start that succeeds leaves all the
-- migrations recorded and run, with the fence at the last one.
pub migrate_fs-Complete :
    {Sch : Type 0} (exec : Text → Sch → Option Sch) (violates : Sch → Bool) (base : Sch)
    (sum : Text → String) (trim_space : Text → Text) (dir : Directory) (all : List Migration)
    (w : World Sch) (k : ℕ) (db : Database Sch)
    → load_migrations sum trim_space dir ≡ loads all
    → Benign exec base all w
    → At exec base all k db
    → Leaves
        (Kept exec base all k db.user_version)
        (Stages.Complete exec base all)
        (migrate_fs exec violates sum trim_space dir w db)
unfolding migrate_fs
migrate_fs-Complete exec violates base sum trim_space dir all w k db loaded benign at =
    let numbered = (load_migrations-Numbered sum trim_space dir all loaded).0 in
    rw (migrate_fs, loaded) (migrate_all-Complete exec violates base all numbered w benign k db at)
