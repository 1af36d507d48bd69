-- ===== src/Store/Migrate/Waiting.antt =====
-- The wait for the migrator's lock in internal/store/migrate.go comes to an end.
use pulseq.Prelude.{ℕ, ◌≤◌, ◌≡◌, ◌⊎◌, Bool, true, [], some}
use pulseq.Store.Tx.{failed, still_waiting, lock_held, context_over, with_tx_on}
use pulseq.Store.Migrate.Ledger.{Database, Lock}
use pulseq.Store.Migrate.Holder.{Host, lock_holder}
use pulseq.Store.Migrate.Steps.{Ran, answered, stopped}
use pulseq.Store.Migrate.Locking.{Round, lock_row, try_lock_migrations, migration_lock_wait}

-- The lock's row is ours, or it names nobody.
abbrev pub Taken : {Sch : Type 0} → Host → Database Sch → Type 0
Taken host db =
    ((at : ℕ) × (db.lock ≡ some (some (lock_row (lock_holder host) at))))
    ⊎ ((row : Lock) × (db.lock ≡ some (some row)) × (row.holder ≡ []))

-- How the wait may end: with the lock; in a round that is 30 seconds or more from the first; in a
-- round whose pause the context ends; or with an error of a round's transaction. Never for a lack
-- of rounds.
abbrev pub Waited :
    {Sch : Type 0} → Bool → Host → (ℕ → Round Sch) → Ran (Database Sch) (Unit {0}) → Type 0
Waited writable host rounds (answered u db) = Taken host db
Waited writable host rounds (stopped still_waiting db) = ⊥
Waited writable host rounds (stopped lock_held db) =
    (i : ℕ) × (migration_lock_wait ≤ (rounds i).elapsed)
Waited writable host rounds (stopped context_over db) = (i : ℕ) × ((rounds i).context_done ≡ true)
Waited writable host rounds (stopped e db) =
    (i : ℕ) × (with_tx_on writable (rounds i).tries (try_lock_migrations host (rounds i).now) [] db
      ≡ failed e)
