-- ===== src/Store/Migrate/Whole.antt =====
-- A whole start of internal/store/migrate.go: what it leaves behind, wherever it ends.
use pulseq.Prelude.{
  ℕ, zero, suc, ◌≤◌, ◌≡◌, refl, sym, ap, ◌∙◌, subst, inl, inr, Bool, List, [], ◌∷◌, Option, none,
  some, Text, same_text, length, drop, arith, leb,
}
use pulseq.Store.Tx.{done, with_tx, with_tx_on}
use pulseq.Store.Migrate.Ledger.{Migration, Database, ledger_rows, Lock, ensure_migration_tables}
use pulseq.Store.Migrate.Plan.{pending, check_applied}
use pulseq.Store.Migrate.Prefix.{Numbered, pending-Recorded, drop_next, drop_end}
use pulseq.Store.Migrate.Stages.{Kept-onward}
use pulseq.Store.Migrate.Kept.{
  transact-Leaves, transact_on-Leaves, Benign, Reached, Held, apply_one-Leaves,
}
use pulseq.Store.Migrate.Holder.{Host}
use pulseq.Store.Migrate.Locking.{
  try_lock, try_lock_migrations, unlock_migrations, lock_rounds, migration_lock_wait,
}
use pulseq.Store.Migrate.Steps.{
  Ran, ◌>>◌, heed, others, transact, Leaves, with_answer, with_error, if_act-Leaves, weaken-Leaves,
  heed-Leaves, >>=-Leaves,
}
use pulseq.Store.Migrate.Startup.{
  World, Place, unlocking, before_applying, before_reading, apply_one, apply_each,
  applied_migrations, migrate_locked,
}

module _ {Sch : Type 0} (exec : Text → Sch → Option Sch) (violates : Sch → Bool) (base : Sch)
    (all : List Migration) (numbered : Numbered 0 all) (w : World Sch)
    (benign : Benign exec base all w) where
  abbrev H : ℕ → ℕ → Database Sch → Type 0
  H = Held exec violates base all numbered

  abbrev R : ℕ → ℕ → ℕ → Unit {0} → Database Sch → Type 0
  R = Reached exec violates base all numbered

  -- Any later sequence, judged from an earlier stage.
  pub from_earlier :
      {n : ℕ} (k u : ℕ) (mid : Database Sch) (h : H k u mid) (r : Ran (Database Sch) (Unit {0}))
      → Leaves (H h.stage mid.user_version) (R n h.stage mid.user_version) r
      → Leaves (H k u) (R n k u) r
  from_earlier k u mid h r l =
      weaken-Leaves r l (λ db later. (Kept-onward exec base all k u mid db h later).0)
        λ a db reached.
          let (l', same) = Kept-onward exec base all k u mid db h reached.0 in
          (l', omega (arith, reached.1, same))

  pub meet :
      (p : Place) (k u : ℕ) (db : Database Sch)
      → (h : H k u db) → (h' : H k u (w.meanwhile p db)) × (h.stage ≤ h'.stage)
  meet p k u db h =
      let l = benign.at_place p h.stage db h.at in
      let (l', same) = Kept-onward exec base all k u db (w.meanwhile p db) h l in
      let forward : h.stage ≤ l.stage = elim l.grown [
        | inl e ↦ omega (arith, e.0)
        | inr e ↦ omega (arith, e.0)
      ] in
      (l', omega (arith, forward, same))

  apply_each-Leaves :
      (ms : List Migration) (j k u : ℕ) (db : Database Sch) (h : H k u db)
      → j ≤ h.stage
      → drop j all ≡ ms
      → Leaves (H k u) (R (length all) k u) (apply_each exec violates w ms db)
  unfolding apply_each
  apply_each-Leaves [] j k u db h below e = with_answer (h, omega (arith, below, drop_end all j e))
  apply_each-Leaves (m ∷ rest) j k u db h below e =
      let (at, next) = drop_next all j m rest e in
      let (met, onward) = meet (before_applying m.version) k u db h in
      let mid = w.meanwhile (before_applying m.version) db in
      >>=-Leaves {between = R (suc j) k u}
        (others (w.meanwhile (before_applying m.version)) >> apply_one exec violates w m)
        (λ _. apply_each exec violates w rest) db
        (from_earlier k u mid met (apply_one exec violates w m mid) (
          apply_one-Leaves exec violates base all numbered w met.stage j m mid met.at at
            (omega (arith, below, onward))))
        λ a db' reached. apply_each-Leaves rest (suc j) k u db' reached.0 reached.1 next

  pub migrate_locked-Leaves :
      (k u : ℕ) (db : Database Sch)
      → H k u db
      → Leaves (H k u) (R (length all) k u) (migrate_locked exec violates w all db)
  unfolding migrate_locked
  migrate_locked-Leaves k u db h =
      let (met, onward) = meet before_reading k u db h in
      let mid = w.meanwhile before_reading db in
      >>=-Leaves {between = λ rows db'. (rows ≡ ledger_rows db') × H k u db'}
        (others (w.meanwhile before_reading)
          >> heed w.second_read
          >> applied_migrations exec violates)
        (λ rows. heed (check_applied all rows) >> apply_each exec violates w (pending all rows)) db
        (>>=-Leaves {between = λ _ db'. H k u db'}
          (others (w.meanwhile before_reading) >> heed w.second_read)
          (λ _. applied_migrations exec violates) db (heed-Leaves w.second_read mid met met)
          λ _ db' h'. with_answer {db = db'} (refl, h'))
        λ rows db' read.
          >>=-Leaves {between = λ _ db''. (rows ≡ ledger_rows db'') × H k u db''}
            (heed (check_applied all rows)) (λ _. apply_each exec violates w (pending all rows)) db'
            (heed-Leaves (check_applied all rows) db' read read.1)
            λ _ db'' read'.
              let h'' = read'.1 in
              apply_each-Leaves (pending all rows) h''.stage k u db'' h'' (omega arith) (
                sym (
                  ap (pending all) read'.0
                  ∙ pending-Recorded 0 all h''.stage (ledger_rows db'') numbered h''.at.recorded))

  try_lock_keeps :
      (host : Host) (now : ℕ) (held : Text) (db db' : Database Sch) (a : Text)
      → try_lock host now held db ≡ done a db'
      → (l : Option (Option Lock)) × (record db { lock = l } ≡ db')
  unfolding try_lock
  try_lock_keeps host now held db db' a h = (db'.lock, ground arith)

  unlock_keeps :
      (host : Host) (db db' : Database Sch)
      → unlock_migrations host db ≡ done tt db'
      → (l : Option (Option Lock)) × (record db { lock = l } ≡ db')
  unfolding unlock_migrations
  unlock_keeps host db db' h = (db'.lock, ground arith)

  pub lock_rounds-Leaves :
      (fuel i k u : ℕ) (db : Database Sch)
      → H k u db
      → Leaves (H k u) (λ _. H k u) (lock_rounds w.writable w.host w.rounds fuel i db)
  unfolding lock_rounds
  lock_rounds-Leaves zero i k u db h = with_error h
  lock_rounds-Leaves (suc fuel) i k u db h =
      >>=-Leaves {between = λ _. H k u}
        (transact (
          with_tx_on w.writable (w.rounds i).tries (try_lock_migrations w.host (w.rounds i).now)
            []))
        _ db
        (transact_on-Leaves w.writable (w.rounds i).tries
          (try_lock_migrations w.host (w.rounds i).now) [] db h
          λ held a db' ran.
            let (l, same) = try_lock_keeps w.host (w.rounds i).now held db db' a ran in
            subst (H k u) same h)
        λ holder mid h'. if_act-Leaves (same_text holder []) _ _ mid (with_answer h') (
          if_act-Leaves (leb migration_lock_wait (w.rounds i).elapsed) _ _ mid (with_error h') (
            if_act-Leaves (w.rounds i).context_done _ _ mid (with_error h') (
              lock_rounds-Leaves fuel (suc i) k u ((w.rounds i).meanwhile mid)
                (Kept-onward exec base all k u mid ((w.rounds i).meanwhile mid) h'
                  (benign.in_round i h'.stage mid h'.at)).0)))

  pub ensure_keeps :
      (k u : ℕ) (db db' : Database Sch)
      → ensure_migration_tables db ≡ done tt db'
      → H k u db
      → H k u db'
  unfolding ensure_migration_tables
  ensure_keeps k u db db' ran h =
      let same : record db {
        ledger = some (ledger_rows db);
        lock = elim db.lock [ none ↦ some none | some row ↦ some row ];
      }
          ≡ db' =
        ground (arith, ran) in
      subst (H k u) same h

  pub unlock_migrations-Leaves :
      (P : Database Sch → Type 0) (db : Database Sch)
      → ((l : Option (Option Lock)) → P (record db { lock = l }))
      → P db
      → Leaves P
          (λ (_ : Unit {0}). P)
          (transact (with_tx w.writable (w.tries unlocking) (unlock_migrations w.host)) db)
  unlock_migrations-Leaves P db other same =
      transact-Leaves w.writable (w.tries unlocking) (unlock_migrations w.host) db same
        λ a db' ran. let (l, e) = unlock_keeps w.host db db' ran in subst P e (other l)
