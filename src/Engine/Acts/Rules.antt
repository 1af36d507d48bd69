-- ===== src/Engine/Acts/Rules.antt =====
-- Rules for what the executor's acts leave behind, one for each way to build an act: the tables are
-- reached by calls of the store alone, they are sound, and only some steps of the run may be running.
use pulseq.Prelude.{
  ℕ, Bool, true, false, ◌≡◌, ◌≢◌, refl, String, List, [], ◌∷◌, Option, none, some, arith,
}
use pulseq.Model.State.{step_running}
use pulseq.Store.Rows.{Db, find_step}
use pulseq.Store.Tx.{Tx, TxResult, done, failed, Attempt, with_tx, after}
use pulseq.Store.Tx.Atomic.{with_tx_once_only}
use pulseq.Store.Finish.{request_cancel, CancelRequest}
use pulseq.Store.Trail.{step_state}
use pulseq.Store.Invariant.{Sound}
use pulseq.Store.Calls.{
  Call, HeedfulCalls, Heeds, then_call, requested, Call-Sound, request_cancel-Unseen,
}
use pulseq.Engine.Acts.{
  Course, went, halted, Act, ◌>>=◌, demand, demand_some, look, settle, transact, Request, others,
  Trouble,
}

-- The tables are reached by calls of the store from tables that were sound, and no step of the run is
-- running but those that may.
pub record Reached (id : String) (may : String → Bool) (start db : Db) : Type 0 where
  pub by_calls : HeedfulCalls start db
  pub sound : Sound db
  pub idle : (n : String) → may n ≡ false → step_state db id n ≢ some step_running

-- Any step may be running, or none.
abbrev pub any_step : String → Bool
any_step n = true

abbrev pub no_step : String → Bool
no_step n = false

-- One call more.
pub Reached-Call :
    {id : String} {start db db' : Db} (may : String → Bool)
    → HeedfulCalls start db
    → Sound db
    → (call : Call db db') → Heeds call
    → ((n : String) → may n ≡ false → step_state db' id n ≢ some step_running)
    → Reached id may start db'
Reached-Call {db = db} {db' = db'} may before sound call heeds idle = record {
  by_calls = (then_call before.0 call, (before.1, heeds));
  sound = Call-Sound db db' call heeds sound;
  idle = idle;
}

pub weaken :
    {id : String} {start db : Db} {may : String → Bool}
    → Reached id may start db
    → Reached id any_step start db
weaken r = record { by_calls = r.by_calls; sound = r.sound; idle = λ n e. absurd (ground arith) }

-- Where no step is running, none of those that may be is.
pub at_rest :
    {id : String} {start db : Db} {may : String → Bool}
    → Reached id no_step start db
    → Reached id may start db
at_rest r = record { by_calls = r.by_calls; sound = r.sound; idle = λ n _. r.idle n refl }

-- What an act leaves: the second when it goes through, and the first when it stops.
pub data Leaves {ℓ} {A : Type ℓ} (broken : Db → Type 0) (fine : A → Db → Type 0)
    : Course A → Type ℓ where
  through : {a : A} {db : Db} → fine a db → Leaves broken fine (went a db)
  stopped : {t : Trouble} {db : Db} → broken db → Leaves broken fine (halted t db)

module _ {broken : Db → Type 0} where
  pub >>=-Leaves {ℓ κ} :
      {A : Type ℓ} {B : Type κ} {between : A → Db → Type 0} {fine : B → Db → Type 0} (m : Act A)
      (f : A → Act B) (db : Db)
      → Leaves broken between (m db)
      → ((a : A) (mid : Db) → between a mid → Leaves broken fine (f a mid))
      → Leaves broken fine ((m >>= f) db)
  unfolding ◌>>=◌
  >>=-Leaves {A = A} {between = between} {fine = fine} m f db first later = split (m db) first
    where
      split :
          (c : Course A)
          → Leaves broken between c
          → Leaves broken fine (elim c [ went a db' ↦ f a db' | halted t db' ↦ halted t db' ])
      split (went a db') (through h) = later a db' h
      split (halted t db') (stopped h) = stopped h

  pub demand-Leaves :
      {fine : Unit {0} → Db → Type 0} (ok : Bool) (t : Trouble) (db : Db)
      → broken db
      → fine tt db
      → Leaves broken fine (demand ok t db)
  demand-Leaves true t db b h = through h
  demand-Leaves false t db b h = stopped b

  pub demand_some-Leaves {ℓ} :
      {A : Type ℓ} {fine : A → Db → Type 0} (o : Option A) (t : Trouble) (db : Db)
      → broken db
      → ((a : A) → o ≡ some a → fine a db)
      → Leaves broken fine (demand_some o t db)
  demand_some-Leaves none t db b h = stopped b
  demand_some-Leaves (some a) t db b h = through (h a refl)

  pub look-Leaves {ℓ} :
      {A : Type ℓ} {fine : A → Db → Type 0} (answers : Bool) (f : Db → A) (db : Db)
      → broken db
      → fine (f db) db
      → Leaves broken fine (look answers f db)
  look-Leaves true f db b h = through h
  look-Leaves false f db b h = stopped b

  -- A transaction leaves the old tables or what its body made of them.
  pub transact-Leaves {ℓ} :
      {A : Type ℓ} {fine : A → Db → Type 0} (writable : Bool) (weather : ℕ → Attempt) (body : Tx A)
      (db : Db)
      → broken db
      → ((a : A) (db' : Db) → body db ≡ done a db' → fine a db')
      → Leaves broken fine (transact writable weather body db)
  unfolding transact
  transact-Leaves {A = A} {fine = fine} writable weather body db b h =
      split (with_tx writable weather body db) refl
    where
      split :
          (r : TxResult Db A)
          → with_tx writable weather body db ≡ r
          → Leaves broken fine (settle db r)
      split (done a db') e = through (h a db' (with_tx_once_only writable weather body db db' a e))
      split (failed f) e = stopped b

-- The requests of others are calls, and show in no step.
module _ {id : String} {start : Db} {may : String → Bool} where
  request-Reached :
      (r : Request) (db : Db)
      → Reached id may start db
      → Reached id may start (after db (request_cancel r.at r.run_id r.by r.why db))
  unfolding find_step
  request-Reached r db h = split (request_cancel r.at r.run_id r.by r.why db) refl
    where
      split :
          (c : TxResult Db CancelRequest)
          → request_cancel r.at r.run_id r.by r.why db ≡ c
          → Reached id may start (after db c)
      split (done asked db') e =
          let unseen = request_cancel-Unseen r.at r.run_id r.by r.why db db' asked e in
          Reached-Call may h.by_calls h.sound (requested r.at r.run_id r.by r.why asked e) tt
            (λ n m moves. h.idle n m (let h = rw (unseen.same_steps) at moves in h))
      split (failed f) e = h

  pub others-Leaves :
      {broken : Db → Type 0} (requests : List Request) (db : Db)
      → Reached id may start db
      → Leaves broken (λ _ db'. Reached id may start db') (others requests db)
  unfolding others
  others-Leaves [] db h = through h
  others-Leaves (r ∷ rest) db h = others-Leaves rest _ (request-Reached r db h)

-- The rule of a sequence whose first part keeps to the same tables.
module _ {id : String} {start : Db} where
  pub >>=-Reached {ℓ κ} :
      {A : Type ℓ} {B : Type κ} {fine : B → Db → Type 0} (may : String → Bool) (m : Act A)
      (f : A → Act B) (db : Db)
      → Leaves (Reached id any_step start) (λ _ mid. Reached id may start mid) (m db)
      → ((a : A) (mid : Db)
          → Reached id may start mid
          → Leaves (Reached id any_step start) fine (f a mid))
      → Leaves (Reached id any_step start) fine ((m >>= f) db)
  >>=-Reached may m f db first later = >>=-Leaves m f db first later
