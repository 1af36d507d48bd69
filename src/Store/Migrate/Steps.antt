-- ===== src/Store/Migrate/Steps.antt =====
-- A sequence of reads and transactions of internal/store/migrate.go, which can stop with an error at
-- any place and then leaves the database as it was made so far; and the rules by which a property
-- of the database is followed through one.
use pulseq.Prelude.{Bool, true, false, Option, none, some, if◌then◌else◌}
use pulseq.Store.Tx.{Over, TxResult, done, failed, Failure}

pub data Ran {ℓ} (S : Type 0) (A : Type ℓ) : Type ℓ where
  answered : A → S → Ran S A
  stopped : Failure → S → Ran S A

abbrev pub Act {ℓ} : Type 0 → Type ℓ → Type ℓ
Act S A = S → Ran S A

module _ {S : Type 0} where
  infixl 5 ◌>>=◌ ◌>>◌
  unfoldable pub ◌>>=◌ {ℓ κ} : {A : Type ℓ} {B : Type κ} → Act S A → (A → Act S B) → Act S B
  (m >>= f) db = elim (m db) [ answered a db' ↦ f a db' | stopped e db' ↦ stopped e db' ]

  abbrev pub ◌>>◌ {ℓ} : {B : Type ℓ} → Act S (Unit {0}) → Act S B → Act S B
  m >> k = m >>= λ _. k

  abbrev pub give {ℓ} : {A : Type ℓ} → A → Act S A
  give a db = answered a db

  abbrev pub stop {ℓ} : {A : Type ℓ} → Failure → Act S A
  stop e db = stopped e db

  -- What fails if there is a failure to report.
  abbrev pub heed : Option Failure → Act S (Unit {0})
  heed none db = answered tt db
  heed (some e) db = stopped e db

  -- What others do to the database meanwhile.
  abbrev pub others : (S → S) → Act S (Unit {0})
  others change db = answered tt (change db)

  -- A transaction that commits, or fails and leaves the database as it was.
  abbrev pub settle {ℓ} : {A : Type ℓ} → S → TxResult S A → Ran S A
  settle db (done a db') = answered a db'
  settle db (failed e) = stopped e db

  abbrev pub transact {ℓ} : {A : Type ℓ} → Over S A → Act S A
  transact body db = settle db (body db)

  abbrev drop_answer {ℓ} : {A : Type ℓ} → Ran S A → S
  drop_answer (answered _ db) = db
  drop_answer (stopped _ db) = db

  -- A deferred call whose error nobody reads.
  unfoldable pub finally {ℓ κ} : {A : Type ℓ} {B : Type κ} → Act S A → Act S B → Act S A
  finally m last db = elim (m db) [
    | answered a db' ↦ answered a (drop_answer (last db'))
    | stopped e db' ↦ stopped e (drop_answer (last db'))
  ]

-- Where a sequence leaves the database: at an error, and with an answer.
pub data Leaves {ℓ} {S : Type 0} {A : Type ℓ} (broken : S → Type 0) (fine : A → S → Type 0)
    : Ran S A → Type ℓ where
  with_answer : {a : A} {db : S} → fine a db → Leaves broken fine (answered a db)
  with_error : {e : Failure} {db : S} → broken db → Leaves broken fine (stopped e db)

pub heed-Leaves :
    {S : Type 0} {broken : S → Type 0} {fine : Unit {0} → S → Type 0} (o : Option Failure) (db : S)
    → fine tt db
    → broken db
    → Leaves broken fine (heed o db)
heed-Leaves none db fine broken = with_answer fine
heed-Leaves (some e) db fine broken = with_error broken

module _ {ℓ} {S : Type 0} {broken : S → Type 0} where
  pub if-Leaves :
      {A : Type ℓ} {fine : A → S → Type 0} (b : Bool) {x y : Ran S A}
      → Leaves broken fine x
      → Leaves broken fine y
      → Leaves broken fine (if b then x else y)
  if-Leaves true h k = h
  if-Leaves false h k = k

  pub if_act-Leaves :
      {A : Type ℓ} {fine : A → S → Type 0} (b : Bool) (x y : Act S A) (db : S)
      → Leaves broken fine (x db)
      → Leaves broken fine (y db)
      → Leaves broken fine ((if b then x else y) db)
  if_act-Leaves true x y db h k = h
  if_act-Leaves false x y db h k = k

  pub weaken-Leaves :
      {A : Type ℓ} {broken' : S → Type 0} {fine fine' : A → S → Type 0} (r : Ran S A)
      → Leaves broken fine r
      → ((db : S) → broken db → broken' db)
      → ((a : A) (db : S) → fine a db → fine' a db)
      → Leaves broken' fine' r
  weaken-Leaves (answered a db) (with_answer h) old new = with_answer (new a db h)
  weaken-Leaves (stopped e db) (with_error h) old new = with_error (old db h)

  pub >>=-Leaves {κ} :
      {A : Type κ} {B : Type ℓ} {between : A → S → Type 0} {fine : B → S → Type 0} (m : Act S A)
      (f : A → Act S B) (db : S)
      → Leaves broken between (m db)
      → ((a : A) (mid : S) → between a mid → Leaves broken fine (f a mid))
      → Leaves broken fine ((m >>= f) db)
  unfolding ◌>>=◌
  >>=-Leaves {A = A} {between = between} {fine = fine} m f db h next = go (m db) h
    where
      go :
          (r : Ran S A)
          → Leaves broken between r
          → Leaves broken fine (elim r [ answered a db' ↦ f a db' | stopped e db' ↦ stopped e db' ])
      go (answered a mid) (with_answer h) = next a mid h
      go (stopped e mid) (with_error h) = with_error h

  pub finally-Leaves {κ} :
      {A : Type ℓ} {B : Type κ} {fine : A → S → Type 0} (m : Act S A) (last : Act S B) (db : S)
      → Leaves broken fine (m db)
      → ((mid : S) → broken mid → Leaves broken (λ (_ : B). broken) (last mid))
      → ((a : A) (mid : S) → fine a mid → Leaves (fine a) (λ (_ : B). fine a) (last mid))
      → Leaves broken fine (finally m last db)
  unfolding finally
  finally-Leaves {A = A} {B = B} {fine = fine} m last db h at_error at_answer = go (m db) h
    where
      dropped :
          {kept : S → Type 0} (r : Ran S B) → Leaves kept (λ (_ : B). kept) r → kept (drop_answer r)
      dropped (answered b mid) (with_answer h) = h
      dropped (stopped e mid) (with_error h) = h

      go :
          (r : Ran S A)
          → Leaves broken fine r
          → Leaves broken fine (elim r [
            | answered a db' ↦ answered a (drop_answer (last db'))
            | stopped e db' ↦ stopped e (drop_answer (last db'))
          ])
      go (answered a mid) (with_answer h) = with_answer (dropped (last mid) (at_answer a mid h))
      go (stopped e mid) (with_error h) = with_error (dropped (last mid) (at_error mid h))
