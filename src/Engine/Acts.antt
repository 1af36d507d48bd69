-- ===== src/Engine/Acts.antt =====
-- What internal/engine does around the store: calls that change the tables, reads that may fail, and
-- an error that ends the executor but not what is already committed. The requests of others commit
-- between the executor's own calls.
pub mod Rules
use pulseq.Prelude.{ℕ, Bool, String, List, [], ◌∷◌, Option, none, some, if◌then◌else◌, false}
use pulseq.Store.Rows.{Db}
use pulseq.Store.Tx.{
  Tx, TxResult, done, failed, Failure, driver, run_not_found, Attempt, with_tx, after,
}
use pulseq.Store.Finish.{request_cancel}

-- Why the executor gives up on a run.
pub data Trouble : Type 0 where
  store_said : Failure → Trouble
  no_frozen_spec log_trouble not_spawned interrupted panicked : Trouble

pub data Course {ℓ} (A : Type ℓ) : Type ℓ where
  went : A → Db → Course A
  halted : Trouble → Db → Course A

abbrev pub Act {ℓ} : Type ℓ → Type ℓ
Act A = Db → Course A

infixl 5 ◌>>=◌ ◌>>◌
unfoldable pub ◌>>=◌ {ℓ κ} : {A : Type ℓ} {B : Type κ} → Act A → (A → Act B) → Act B
◌>>=◌ m f db = elim (m db) [ went a db' ↦ f a db' | halted t db' ↦ halted t db' ]

abbrev pub ◌>>◌ {ℓ} : {B : Type ℓ} → Act (Unit {0}) → Act B → Act B
m >> k = m >>= λ _. k

abbrev pub pure {ℓ} : {A : Type ℓ} → A → Act A
pure a db = went a db

abbrev pub halt {ℓ} : {A : Type ℓ} → Trouble → Act A
halt t db = halted t db

-- A check that ends the executor.
abbrev pub demand : Bool → Trouble → Act (Unit {0})
demand ok t = if ok then pure tt else halt t

abbrev pub demand_some {ℓ} : {A : Type ℓ} → Option A → Trouble → Act A
demand_some none t = halt t
demand_some (some a) t = pure a

-- A read of the tables, which the database answers or not.
abbrev pub look {ℓ} : {A : Type ℓ} → Bool → (Db → A) → Act A
look answers f db = if answers then went (f db) db else halted (store_said (driver false)) db

-- What a transaction's result means to the executor: a failure leaves the tables as they were.
abbrev pub settle {ℓ} : {A : Type ℓ} → Db → TxResult Db A → Course A
settle db (done a db') = went a db'
settle db (failed e) = halted (store_said e) db

unfoldable pub transact {ℓ} : {A : Type ℓ} → Bool → (ℕ → Attempt) → Tx A → Act A
transact writable weather body db = settle db (with_tx writable weather body db)

-- A request of somebody else to cancel a run.
pub record Request : Type 0 where
  pub at : ℕ
  pub run_id : String
  pub by : String
  pub why : String

unfoldable pub others : List Request → Act (Unit {0})
others [] db = went tt db
others (r ∷ rest) db = others rest (after db (request_cancel r.at r.run_id r.by r.why db))
