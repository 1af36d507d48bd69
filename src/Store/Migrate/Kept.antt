-- ===== src/Store/Migrate/Kept.antt =====
-- What a start of internal/store/migrate.go keeps of the database, wherever it ends.
use pulseq.Prelude.{
  ℕ, suc, ◌≤◌, ◌≡◌, refl, Bool, true, false, not, List, Option, some, Text, get_elem?,
  if◌then◌else◌,
}
use pulseq.Store.Tx.{Over, TxResult, done, failed, Attempt, Closure, with_tx, with_tx_on}
use pulseq.Store.Tx.Atomic.{with_tx_once_only, with_tx_on_done}
use pulseq.Store.Migrate.Ledger.{Migration, Database, apply_body, rebuild_in_tx}
use pulseq.Store.Migrate.Prefix.{Numbered}
use pulseq.Store.Migrate.Stages.{At, Kept, Kept-here}
use pulseq.Store.Migrate.Applied.{apply_body-Kept, rebuild_in_tx-apply_body}
use pulseq.Store.Migrate.Steps.{
  Ran, answered, stopped, settle, transact, Leaves, with_answer, with_error, if-Leaves,
}
use pulseq.Store.Migrate.Startup.{
  World, RebuildFate, Place, applying, commit_rebuild, turned_on, closed, rebuild_tx, apply_rebuild,
  apply_one,
}

-- A transaction that fails leaves all as it was, and one that commits is its body.
pub transact-Leaves {ℓ} :
    {S : Type 0} {A : Type ℓ} {broken : S → Type 0} {fine : A → S → Type 0} (writable : Bool)
    (env : ℕ → Attempt) (body : Over S A) (db : S)
    → broken db
    → ((a : A) (db' : S) → body db ≡ done a db' → fine a db')
    → Leaves broken fine (transact (with_tx writable env body) db)
transact-Leaves {S = S} {A = A} {broken = broken} {fine = fine} writable env body db old new =
    go (with_tx writable env body db) refl
  where
    go : (r : TxResult S A) → with_tx writable env body db ≡ r → Leaves broken fine (settle db r)
    go (done a db') e = with_answer (new a db' (with_tx_once_only writable env body db db' a e))
    go (failed f) e = with_error old

pub transact_on-Leaves {ℓ} :
    {C S : Type 0} {A : Type ℓ} {broken : S → Type 0} {fine : A → S → Type 0} (writable : Bool)
    (env : ℕ → Attempt) (body : Closure C S A) (c : C) (db : S)
    → broken db
    → ((c' : C) (a : A) (db' : S) → body.runs c' db ≡ done a db' → fine a db')
    → Leaves broken fine (transact (with_tx_on writable env body c) db)
transact_on-Leaves {S = S} {A = A} {broken = broken} {fine = fine} writable env body c db old new =
    go (with_tx_on writable env body c db) refl
  where
    go :
        (r : TxResult S A)
        → with_tx_on writable env body c db ≡ r
        → Leaves broken fine (settle db r)
    go (done a db') e =
        let (c', ran) = with_tx_on_done writable env body c db db' a e in
        with_answer (new c' a db' ran)
    go (failed f) e = with_error old

module _ {Sch : Type 0} (exec : Text → Sch → Option Sch) (base : Sch) (all : List Migration) where
  -- Others who keep what is recorded and only add the next migrations to it.
  pub record Benign (w : World Sch) : Type 0 where
    pub at_place :
        (p : Place) (k : ℕ) (db : Database Sch)
        → At exec base all k db
        → Kept exec base all k db.user_version (w.meanwhile p db)
    pub in_round :
        (i k : ℕ) (db : Database Sch)
        → At exec base all k db
        → Kept exec base all k db.user_version ((w.rounds i).meanwhile db)

module _ {Sch : Type 0} (exec : Text → Sch → Option Sch) (violates : Sch → Bool) (base : Sch)
    (all : List Migration) (numbered : Numbered 0 all) where
  -- The stage is kept, and the first so many are recorded.
  abbrev pub Reached : ℕ → ℕ → ℕ → Unit {0} → Database Sch → Type 0
  Reached n k u _ db = (l : Kept exec base all k u db) × (n ≤ l.stage)

  abbrev pub Held : ℕ → ℕ → Database Sch → Type 0
  Held k u db = Kept exec base all k u db

  commit_rebuild-Leaves :
      (commits : Bool) (n k : ℕ) (db : Database Sch) (r : TxResult (Database Sch) (Unit {0}))
      → Held k db.user_version db
      → ((db' : Database Sch) → r ≡ done tt db' → Reached n k db.user_version tt db')
      → Leaves
          (Held k db.user_version)
          (Reached n k db.user_version)
          (commit_rebuild exec violates commits db r)
  commit_rebuild-Leaves commits n k db (failed e) old new = with_error old
  commit_rebuild-Leaves true n k db (done a db') old new = with_answer (new db' refl)
  commit_rebuild-Leaves false n k db (done a db') old new = with_error old

  turned_on-Leaves :
      (b : Bool) (n k u : ℕ) (r : Ran (Database Sch) (Unit {0}))
      → Leaves (Held k u) (Reached n k u) r
      → Leaves (Held k u) (Reached n k u) (turned_on exec violates b r)
  turned_on-Leaves true n k u (answered a db) (with_answer h) = with_answer (h.0, h.1)
  turned_on-Leaves true n k u (stopped e db) (with_error h) = with_error h
  turned_on-Leaves false n k u (answered a db) (with_answer h) = with_error h.0
  turned_on-Leaves false n k u (stopped e db) (with_error h) = with_error h

  closed-Leaves :
      (b : Bool) (n k u : ℕ) (r : Ran (Database Sch) (Unit {0}))
      → Leaves (Held k u) (Reached n k u) r
      → Leaves (Held k u) (Reached n k u) (closed exec violates b r)
  closed-Leaves true n k u r h = h
  closed-Leaves false n k u (answered a db) (with_answer h) = with_error h.0
  closed-Leaves false n k u (stopped e db) (with_error h) = with_error h

  rebuild_tx-Leaves :
      (fate : RebuildFate) (now k j : ℕ) (m : Migration) (db : Database Sch)
      → At exec base all k db
      → get_elem? all j ≡ some m
      → j ≤ k
      → Leaves
          (Held k db.user_version)
          (Reached (suc j) k db.user_version)
          (rebuild_tx exec violates fate now m db)
  unfolding rebuild_tx
  rebuild_tx-Leaves fate now k j m db h at below =
      let here = Kept-here exec base all k db h in
      if-Leaves (not fate.begins) (with_error here) (
        commit_rebuild-Leaves fate.commits (suc j) k db (rebuild_in_tx exec violates now m db) here
          λ db' ran.
            apply_body-Kept exec violates base all numbered k j now m db db' h at below
              (rebuild_in_tx-apply_body exec violates base all numbered now m db db' ran))

  apply_rebuild-Leaves :
      (fate : RebuildFate) (now k j : ℕ) (m : Migration) (db : Database Sch)
      → At exec base all k db
      → get_elem? all j ≡ some m
      → j ≤ k
      → Leaves
          (Held k db.user_version)
          (Reached (suc j) k db.user_version)
          (apply_rebuild exec violates fate now m db)
  unfolding apply_rebuild
  apply_rebuild-Leaves fate now k j m db h at below =
      let here = Kept-here exec base all k db h in
      if-Leaves (not fate.connects) (with_error here) (
        closed-Leaves fate.closes (suc j) k db.user_version _ (
          turned_on-Leaves fate.turns_on (suc j) k db.user_version _ (
            if-Leaves (not fate.turns_off) (with_error here)
              (rebuild_tx-Leaves fate now k j m (record db { foreign_keys = false }) h at below))))

  pub apply_one-Leaves :
      (w : World Sch) (k j : ℕ) (m : Migration) (db : Database Sch)
      → At exec base all k db
      → get_elem? all j ≡ some m
      → j ≤ k
      → Leaves
          (Held k db.user_version)
          (Reached (suc j) k db.user_version)
          (apply_one exec violates w m db)
  unfolding apply_one
  apply_one-Leaves w k j m db h at below = by_rebuild m.rebuild
    where
      by_rebuild :
          (b : Bool)
          → Leaves (Held k db.user_version) (Reached (suc j) k db.user_version) (
              (if b
                  then apply_rebuild exec violates (w.rebuilding m.version) (w.now m.version) m
                  else transact (
                      with_tx w.writable
                        (w.tries (applying m.version))
                        (apply_body exec (w.now m.version) m)))
                db)
      by_rebuild true =
          apply_rebuild-Leaves (w.rebuilding m.version) (w.now m.version) k j m db h at below
      by_rebuild false =
          transact-Leaves w.writable (w.tries (applying m.version))
            (apply_body exec (w.now m.version) m) db (Kept-here exec base all k db h)
            λ a db' ran.
              apply_body-Kept exec violates base all numbered k j (w.now m.version) m db db' h at
                below ran
