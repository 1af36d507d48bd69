-- ===== src/Store/Migrate/Calm.antt =====
-- A start of internal/store/migrate.go that nothing disturbs.
use pulseq.Prelude.{
  ℕ, suc, ◌+◌, ◌≡◌, refl, sym, ◌∙◌, subst, inl, inr, Bool, true, false, List, [], ◌∷◌, Option, none,
  some, Text, get_elem?, take, drop, arith, ltb, Bool-cases,
}
use pulseq.Store.Tx.{Over, done, Failure, Attempt, Closure, goes, with_tx, with_tx_on}
use pulseq.Store.Tx.Atomic.{with_tx_goes, with_tx_on_goes}
use pulseq.Store.Migrate.Ledger.{
  Migration, AppliedMigration, Database, ledger_rows, holds_version, apply_body,
}
use pulseq.Store.Migrate.Prefix.{Numbered, Recorded, version_at, holds_version-Recorded, drop_next}
use pulseq.Store.Migrate.Stages.{At, schema_after, schema_after-next}
use pulseq.Store.Migrate.Applied.{
  with_migration, apply_body_lem, next-At, get_elem?_bound, apply_body-rebuild_in_tx,
}
use pulseq.Store.Migrate.Steps.{Ran, ◌>>◌, heed, others, transact, Leaves, with_answer, >>=-Leaves}
use pulseq.Store.Migrate.Startup.{
  World, Write, Place, RebuildFate, applying, before_applying, apply_rebuild, rebuild_tx, apply_one,
  apply_each,
}

-- A rebuild around which every statement goes through.
abbrev pub all_go : RebuildFate
all_go = record {
  connects = true;
  turns_off = true;
  begins = true;
  commits = true;
  turns_on = true;
  closes = true;
}

-- A store that is open for writing, whose reads and transactions go through at once, and at which
-- nobody else is at work.
pub record Calm {Sch : Type 0} (w : World Sch) : Type 0 where
  pub writable : w.writable ≡ true
  pub version_read : w.version_read ≡ none
  pub ledger_read : w.ledger_read ≡ none
  pub second_read : w.second_read ≡ none
  pub first_try : (x : Write) → (w.tries x 1).fate ≡ goes
  pub first_round : ((w.rounds 0).tries 1).fate ≡ goes
  pub rebuilding : (v : ℕ) → w.rebuilding v ≡ all_go
  pub alone : (p : Place) (db : Database Sch) → w.meanwhile p db ≡ db
  pub alone_waiting : (i : ℕ) (db : Database Sch) → (w.rounds i).meanwhile db ≡ db

-- An act that answers, and in what.
abbrev pub Answers {ℓ} : {S : Type 0} {A : Type ℓ} → (A → S → Type 0) → Ran S A → Type ℓ
Answers fine r = Leaves (λ _. ⊥) fine r

pub transact-Answers {ℓ} :
    {S : Type 0} {A : Type ℓ} {fine : A → S → Type 0} (writable : Bool) (env : ℕ → Attempt)
    (body : Over S A) (db db' : S) (a : A)
    → writable ≡ true
    → (env 1).fate ≡ goes
    → body db ≡ done a db'
    → fine a db'
    → Answers fine (transact (with_tx writable env body) db)
transact-Answers writable env body db db' a open_for first runs h =
    rw (with_tx_goes writable env body db db' a open_for first runs) (with_answer h)

pub transact_on-Answers {ℓ} :
    {C S : Type 0} {A : Type ℓ} {fine : A → S → Type 0} (writable : Bool) (env : ℕ → Attempt)
    (body : Closure C S A) (c : C) (db db' : S) (a : A)
    → writable ≡ true
    → (env 1).fate ≡ goes
    → body.runs c db ≡ done a db'
    → fine a db'
    → Answers fine (transact (with_tx_on writable env body c) db)
transact_on-Answers writable env body c db db' a open_for first runs h =
    rw (with_tx_on_goes writable env body c db db' a open_for first runs) (with_answer h)

pub heed-Answers :
    {S : Type 0} {fine : Unit {0} → S → Type 0} (o : Option Failure) (db : S)
    → o ≡ none
    → fine tt db
    → Answers fine (heed o db)
heed-Answers none db e h = with_answer h
heed-Answers (some f) db e h = absurd (ground (arith, e))

module _ {Sch : Type 0} (exec : Text → Sch → Option Sch) (violates : Sch → Bool) (base : Sch)
    (all : List Migration) (numbered : Numbered 0 all) (w : World Sch) (calm : Calm w) (end : Sch)
    (whole : schema_after exec base all ≡ some end)
    (keeps_keys : (k : ℕ) (s : Sch)
      → schema_after exec base (take k all) ≡ some s
      → violates s ≡ false) where
  -- A database at a stage, with its tables.
  pub record Ready (k : ℕ) (db : Database Sch) : Type 0 where
    pub at : At exec base all k db
    pub rows : List AppliedMigration
    pub table : db.ledger ≡ some rows

  -- The body of the next migration commits, with the database at the next stage.
  body_runs :
      (k now : ℕ) (m : Migration) (db : Database Sch)
      → Ready k db
      → get_elem? all k ≡ some m
      → (db' : Database Sch) × (apply_body exec now m db ≡ done tt db') × Ready (suc k) db'
  body_runs k now m db r at =
      let (s, runs) = schema_after-next exec base all k m db.schema end whole r.at.shape at in
      let same : ledger_rows db ≡ r.rows = ground (arith, r.table) in
      let does =
        apply_body_lem exec violates base all numbered k k now m db r.rows r.table
          (subst (Recorded (take k all)) same r.at.recorded) at (omega arith) in
      let next = next-At exec violates base all numbered k now m db r.rows s r.table r.at at runs in
      (
        with_migration exec violates base all numbered now m r.rows s db,
        ground (arith, does, runs),
        record { at = next; rows = _; table = refl },
      )

  unheld :
      (k : ℕ) (m : Migration) (db : Database Sch)
      → At exec base all k db
      → get_elem? all k ≡ some m
      → holds_version m.version (ledger_rows db) ≡ false
  unheld k m db at here =
      let bound = get_elem?_bound all k m here in
      let held : holds_version (suc (0 + k)) (ledger_rows db) ≡ ltb k k =
        holds_version-Recorded 0 all k (ledger_rows db) k numbered at.recorded bound in
      subst (λ v. holds_version v (ledger_rows db) ≡ false)
        (sym (version_at 0 all k m numbered here)) (held ∙ ground arith)

  apply_rebuild-Answers :
      (k now : ℕ) (m : Migration) (db : Database Sch)
      → Ready k db
      → get_elem? all k ≡ some m
      → Answers (λ _. Ready (suc k)) (apply_rebuild exec violates all_go now m db)
  unfolding apply_rebuild rebuild_tx
  apply_rebuild-Answers k now m db r here =
      let off : Database Sch = record db { foreign_keys = false } in
      let (db', runs, r') =
        body_runs k now m off (record { at = r.at; rows = r.rows; table = r.table }) here in
      rw
        (apply_body-rebuild_in_tx exec violates base all numbered now m off db' runs
          (unheld k m off r.at here) (keeps_keys (suc k) db'.schema r'.at.shape))
        (with_answer (record { at = r'.at; rows = r'.rows; table = r'.table }))

  apply_one-Answers :
      (k : ℕ) (m : Migration) (db : Database Sch)
      → Ready k db
      → get_elem? all k ≡ some m
      → Answers (λ _. Ready (suc k)) (apply_one exec violates w m db)
  unfolding apply_one
  apply_one-Answers k m db r here = elim (Bool-cases m.rebuild) [
    | inl rebuilds ↦
        rw (rebuilds, calm.rebuilding m.version)
          (apply_rebuild-Answers k (w.now m.version) m db r here)
    | inr plain ↦
        let (db', runs, r') = body_runs k (w.now m.version) m db r here in
        rw plain (
          transact-Answers w.writable (w.tries (applying m.version))
            (apply_body exec (w.now m.version) m) db db' tt calm.writable
            (calm.first_try (applying m.version)) runs r')
  ]

  -- All the migrations that are missing are applied.
  pub apply_each-Answers :
      (ms : List Migration) (k : ℕ) (db : Database Sch)
      → Ready k db
      → drop k all ≡ ms
      → Answers (λ _ _. Unit {0}) (apply_each exec violates w ms db)
  unfolding apply_each
  apply_each-Answers [] k db r e = with_answer tt
  apply_each-Answers (m ∷ rest) k db r e =
      let (here, next) = drop_next all k m rest e in
      >>=-Leaves {between = λ _. Ready (suc k)}
        (others (w.meanwhile (before_applying m.version)) >> apply_one exec violates w m)
        (λ _. apply_each exec violates w rest) db
        (subst (λ d. Answers (λ _. Ready (suc k)) (apply_one exec violates w m d))
          (sym (calm.alone (before_applying m.version) db)) (apply_one-Answers k m db r here))
        λ a db' r'. apply_each-Answers rest (suc k) db' r' next
