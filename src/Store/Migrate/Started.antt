-- ===== src/Store/Migrate/Started.antt =====
-- An undisturbed start of internal/store/migrate.go comes to its end.
use pulseq.Prelude.{
  ℕ, ◌≤◌, ◌≡◌, refl, sym, ap, ◌∙◌, subst, inl, inr, Bool, false, List, [], ◌∷◌, Option, none, some,
  String, Text, length, take, arith, if◌then◌else◌, ltb, Bool-cases,
}
use pulseq.Store.Tx.{newer_schema}
use pulseq.Store.Migrate.Ledger.{Migration, Database, ledger_rows, set_user_version}
use pulseq.Store.Migrate.Plan.{pending, check_applied, highest_applied, max_version}
use pulseq.Store.Migrate.Prefix.{Numbered}
use pulseq.Store.Migrate.Fits.{check_applied-Recorded, max_version_lem}
use pulseq.Store.Migrate.Stages.{At, Kept, Kept-here, Complete, schema_after}
use pulseq.Store.Migrate.Kept.{Benign}
use pulseq.Store.Migrate.Complete.{migrate_fs-Complete}
use pulseq.Store.Migrate.Calm.{Calm, Answers, transact-Answers, heed-Answers}
use pulseq.Store.Migrate.Load.{Directory, loads, load_migrations}
use pulseq.Store.Migrate.Loaded.{load_migrations-Numbered}
use pulseq.Store.Migrate.Steps.{
  Ran, answered, stopped, ◌>>◌, heed, others, Leaves, with_answer, with_error, >>=-Leaves,
}
use pulseq.Store.Migrate.Startup.{
  World, Place, repairing, after_version, after_ledger, applied_migrations, read_version,
  migrate_pending, repair_fence, none_pending, migrate_at_version, migrate_all, migrate_fs,
}
use pulseq.Store.Migrate.Undisturbed.{Free, Any, migrate_pending-Answers}

module _ {Sch : Type 0} (exec : Text → Sch → Option Sch) (violates : Sch → Bool) (base : Sch)
    (all : List Migration) (numbered : Numbered 0 all) (w : World Sch) (calm : Calm w) (end : Sch)
    (whole : schema_after exec base all ≡ some end)
    (keeps_keys : (k : ℕ) (s : Sch)
      → schema_after exec base (take k all) ≡ some s
      → violates s ≡ false) where
  repair_fence-Answers :
      (current highest : ℕ) (db : Database Sch)
      → Answers Any (repair_fence exec violates w current highest db)
  unfolding repair_fence set_user_version
  repair_fence-Answers current highest db = elim (Bool-cases (ltb current highest)) [
    | inl behind ↦ rw behind (
        transact-Answers w.writable (w.tries repairing) (set_user_version highest) db
          (record db { user_version = highest }) tt calm.writable (calm.first_try repairing) refl
          tt)
    | inr level ↦ rw level (with_answer tt)
  ]

  not_newer :
      (k : ℕ) (db : Database Sch)
      → At exec base all k db
      → (if ltb (max_version all) db.user_version then some newer_schema else none) ≡ none
  not_newer k db at =
      let known = max_version_lem all numbered in
      let fence : db.user_version ≤ length all = omega (arith, at.fenced, at.within) in
      let small : ltb (max_version all) db.user_version ≡ false = ground (arith, known, fence) in
      rw small refl

  migrate_at_version-Answers :
      (k : ℕ) (db : Database Sch)
      → At exec base all k db
      → Free db.lock
      → Answers Any (migrate_at_version exec violates w all db.user_version db)
  unfolding migrate_at_version
  migrate_at_version-Answers k db at free =
      let newer = if ltb (max_version all) db.user_version then some newer_schema else none in
      let here : Unit {0} → Database Sch → Type 0 = λ _ d. db ≡ d in
      let alone : (p : Place) (d : Database Sch) → db ≡ d → db ≡ w.meanwhile p d =
        λ p d e. e ∙ sym (calm.alone p d) in
      >>=-Leaves {between = λ rows d. (rows ≡ ledger_rows d) × (db ≡ d)}
        (heed newer
          >> others (w.meanwhile after_version)
          >> heed w.ledger_read
          >> applied_migrations exec violates)
        _ db
        (>>=-Leaves {between = here}
          (heed newer >> others (w.meanwhile after_version) >> heed w.ledger_read) _ db
          (>>=-Leaves {between = here} (heed newer >> others (w.meanwhile after_version)) _ db
            (>>=-Leaves {between = here} (heed newer) _ db
              (heed-Answers newer db (not_newer k db at) refl)
              λ _ d e. with_answer (alone after_version d e))
            λ _ d e. heed-Answers w.ledger_read d calm.ledger_read e)
          λ _ d e. with_answer {db = d} (refl, e))
        λ rows d found.
          >>=-Leaves {between = here}
            (heed (check_applied all rows) >> others (w.meanwhile after_ledger)) _ d
            (>>=-Leaves {between = here} (heed (check_applied all rows)) _ d
              (heed-Answers (check_applied all rows) d
                (ap (check_applied all) (found.0 ∙ ap (λ d. ledger_rows d) (sym found.1))
                  ∙ check_applied-Recorded all k (ledger_rows db) numbered at.recorded at.within)
                found.1)
              λ _ d e. with_answer (alone after_ledger d e))
            λ _ d e.
              subst
                (λ d. Answers Any (
                  (if none_pending (pending all rows)
                      then repair_fence exec violates w db.user_version (highest_applied rows)
                      else migrate_pending exec violates w all)
                    d))
                e (choose (pending all rows) (highest_applied rows))
    where
      choose :
          (ps : List Migration) (highest : ℕ)
          → Answers Any (
              (if none_pending ps
                  then repair_fence exec violates w db.user_version highest
                  else migrate_pending exec violates w all)
                db)
      choose [] highest = repair_fence-Answers db.user_version highest db
      choose (m ∷ rest) highest =
          migrate_pending-Answers exec violates base all numbered w calm end whole keeps_keys k db
            at free

  migrate_all-Answers :
      (k : ℕ) (db : Database Sch)
      → At exec base all k db
      → Free db.lock
      → Answers Any (migrate_all exec violates w all db)
  unfolding migrate_all
  migrate_all-Answers k db at free =
      >>=-Leaves {between = λ current d. (current ≡ db.user_version) × (db ≡ d)}
        (heed w.version_read >> read_version exec violates) _ db
        (>>=-Leaves {between = λ _ d. db ≡ d} (heed w.version_read) _ db
          (heed-Answers w.version_read db calm.version_read refl)
          λ _ d e. with_answer {db = d} (ap (λ d. d.user_version) (sym e), e))
        λ current d found.
          subst (λ d. Answers Any (migrate_at_version exec violates w all current d)) found.1
            (subst (λ c. Answers Any (migrate_at_version exec violates w all c db)) (sym found.0)
              (migrate_at_version-Answers k db at free))

answer_of :
    {S : Type 0} {A : Type 0} {broken : S → Type 0} {fine : A → S → Type 0} (r : Ran S A)
    → Answers (λ _ _. Unit {0}) r
    → Leaves broken fine r
    → (a : A) × (db : S) × (r ≡ answered a db) × fine a db
answer_of (answered a db) h (with_answer f) = (a, db, refl, f)
answer_of (stopped e db) (with_error h) l = absurd h

pub Calm-Benign :
    {Sch : Type 0} (exec : Text → Sch → Option Sch) (base : Sch) (all : List Migration)
    (w : World Sch)
    → Calm w
    → Benign exec base all w
Calm-Benign exec base all w calm = record {
  at_place = λ p k db at.
      subst (Kept exec base all k db.user_version) (sym (calm.alone p db))
        (Kept-here exec base all k db at);
  in_round = λ i k db at.
      subst (Kept exec base all k db.user_version) (sym (calm.alone_waiting i db))
        (Kept-here exec base all k db at);
}

-- A start on a database at some stage whose lock nobody holds, with migrations that all run and
-- leave no foreign key violated, in a store that is open for writing, whose statements go through
-- and at which nobody else is at work: it succeeds, and leaves all the migrations recorded and run.
pub migrate_fs-answers :
    {Sch : Type 0} (exec : Text → Sch → Option Sch) (violates : Sch → Bool) (base : Sch)
    (sum : Text → String) (trim_space : Text → Text) (dir : Directory) (all : List Migration)
    (w : World Sch) (k : ℕ) (db : Database Sch) (end : Sch)
    → load_migrations sum trim_space dir ≡ loads all
    → Calm w
    → schema_after exec base all ≡ some end
    → ((j : ℕ) (s : Sch) → schema_after exec base (take j all) ≡ some s → violates s ≡ false)
    → At exec base all k db
    → Free db.lock
    → (a : Unit {0}) × (db' : Database Sch) × (migrate_fs exec violates sum trim_space dir w db
        ≡ answered a db')
      × Complete exec base all a db'
unfolding migrate_fs
migrate_fs-answers exec violates base sum trim_space dir all w k db end loaded calm whole keys at
      free =
    let numbered = (load_migrations-Numbered sum trim_space dir all loaded).0 in
    answer_of (migrate_fs exec violates sum trim_space dir w db)
      (rw (migrate_fs, loaded)
        (migrate_all-Answers exec violates base all numbered w calm end whole keys k db at free))
      (migrate_fs-Complete exec violates base sum trim_space dir all w k db loaded
        (Calm-Benign exec base all w calm) at)
