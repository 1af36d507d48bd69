-- ===== src/Store/Tx.antt =====
-- internal/store/tx.go: a write transaction as a function on the tables that returns a value and the
-- new tables, or fails and leaves the tables as they were; and the loop that runs one again when the
-- database reports a snapshot conflict.
pub mod Atomic
use pulseq.Prelude.{
  arith, ◌≡◌, refl, ℕ, zero, suc, ◌&&◌, Bool, true, false, Option, none, some, if◌then◌else◌, not,
  ◌-◌,
}
use pulseq.Model.Errors.{Error}
use pulseq.Model.Errors as Model
use pulseq.Model.State.{RunState}
use pulseq.Store.Rows.{Db}

-- What a store method can fail with. `driver` is an error of the database itself, with the answer
-- of `isBusySnapshot` for it.
pub data Failure : Type 0 where
  run_not_found step_not_pending nobody_requested constraint read_only key_held no_row : Failure
  newer_schema unknown_applied edited_file out_of_order foreign_key : Failure
  unloadable lock_held still_waiting context_over : Failure
  refused not_claimable : Error → Failure
  not_running : RunState → Failure
  strayed : RunState → Failure
  driver : Bool → Failure
  cancelled : Failure → Failure

pub data TxResult {ℓ} (S : Type 0) (A : Type ℓ) : Type ℓ where
  done : A → S → TxResult S A
  failed : Failure → TxResult S A

-- A transaction over the tables that a part of the store writes, and over those of the runs.
abbrev pub Over {ℓ} : Type 0 → Type ℓ → Type ℓ
Over S A = S → TxResult S A

abbrev pub Tx {ℓ} : Type ℓ → Type ℓ
Tx A = Over Db A

-- `maxWriteAttempts`.
abbrev pub max_write_attempts : ℕ
max_write_attempts = 3

infixl 5 ◌>>=◌ ◌>>◌
abbrev pub ◌>>=◌ {ℓ κ} :
    {S : Type 0} {A : Type ℓ} {B : Type κ} → Over S A → (A → Over S B) → Over S B
◌>>=◌ m f db = elim (m db) [ done a db' ↦ f a db' | failed e ↦ failed e ]

abbrev pub ◌>>◌ {ℓ} : {S : Type 0} {B : Type ℓ} → Over S (Unit {0}) → Over S B → Over S B
m >> k = m >>= λ _. k

abbrev pub pure {ℓ} : {S : Type 0} {A : Type ℓ} → A → Over S A
pure a db = done a db

abbrev pub fail {ℓ} : {S : Type 0} {A : Type ℓ} → Failure → Over S A
fail e db = failed e

-- A guard clause: an early return with an error.
abbrev pub require : {S : Type 0} → Bool → Failure → Over S (Unit {0})
require true e db = done tt db
require false e db = failed e

-- A parsed state, or the parser's refusal.
abbrev pub lift {ℓ} : {S : Type 0} {A : Type ℓ} → Model.Result A → Over S A
lift (Model.ok a) db = done a db
lift (Model.err e) db = failed (refused e)

-- A sequence that commits is its parts, with the tables between them.
pub >>-done {ℓ} :
    {S : Type 0} {B : Type ℓ} (m : Over S (Unit {0})) (k : Over S B) (db db' : S) (b : B)
    → (m >> k) db ≡ done b db'
    → (mid : S) × (m db ≡ done tt mid) × (k mid ≡ done b db')
>>-done {S = S} m k db db' b h = split (m db) refl
  where
    split :
        (r : TxResult S (Unit {0}))
        → m db ≡ r
        → (mid : S) × (m db ≡ done tt mid) × (k mid ≡ done b db')
    split (done u mid) e = (mid, e, ground arith)
    split (failed f) e = absurd (ground arith)

-- A sequence whose first part commits goes on with the rest.
pub done->>= {ℓ κ} :
    {S : Type 0} {A : Type ℓ} {B : Type κ} (m : Over S A) (f : A → Over S B) (db mid : S) (a : A)
    → m db ≡ done a mid
    → (m >>= f) db ≡ f a mid
done->>= {S = S} {A = A} {B = B} m f db mid a h = go (m db) h
  where
    go :
        (r : TxResult S A)
        → r ≡ done a mid
        → ◌≡◌ {A = TxResult S B} (elim r [ done a db' ↦ f a db' | failed e ↦ failed e ]) (f a mid)
    go (done b db') e = ground (arith, e)
    go (failed x) e = absurd (ground (arith, e))

pub >>=-done {ℓ κ} :
    {S : Type 0} {A : Type ℓ} {B : Type κ} (m : Over S A) (f : A → Over S B) (db db' : S) (b : B)
    → (m >>= f) db ≡ done b db'
    → (a : A) × (mid : S) × (m db ≡ done a mid) × (f a mid ≡ done b db')
>>=-done {S = S} {A = A} m f db db' b h = split (m db) refl
  where
    split :
        (r : TxResult S A)
        → m db ≡ r
        → (a : A) × (mid : S) × (m db ≡ done a mid) × (f a mid ≡ done b db')
    split (done a mid) e = (a, mid, e, ground arith)
    split (failed f) e = absurd (ground arith)

-- What the database does to one attempt: it goes through, or beginning, a statement or the commit
-- fails behind so many statements of the body, with an error that is a snapshot conflict or not;
-- and whether the pause behind it is cut short by the caller's context.
pub data Fate : Type 0 where
  goes : Fate
  breaks : ℕ → Bool → Fate

-- A body with the variables `C` that its closure captures: a rollback does not undo what it wrote
-- into them, and the next attempt finds it there. `runs` is what it does, from their values, when
-- no statement fails; `holds` is what they are when it was cut off behind so many statements, or
-- has run to its end.
pub record Closure {ℓ} (C S : Type 0) (A : Type ℓ) : Type ℓ where
  pub runs : C → Over S A
  pub holds : Option ℕ → C → S → C

-- A body that reads no captured variable: what it answers with it assigns anew in every run.
abbrev pub plain {ℓ} : {S : Type 0} {A : Type ℓ} → Over S A → Closure (Unit {0}) S A
plain body = record { runs = λ _. body; holds = λ _ c _. c }

pub record Attempt : Type 0 where
  pub fate : Fate
  pub context_done : Bool

-- `isBusySnapshot`.
abbrev pub is_busy_snapshot : Failure → Bool
is_busy_snapshot (driver busy) = busy
is_busy_snapshot _ = false

module _ {ℓ} {C S : Type 0} {A : Type ℓ} where
  -- `withTxOnce`: commit what the body did, or roll all of it back.
  unfoldable pub with_tx_once : Fate → Closure C S A → C → Over S A
  with_tx_once goes body c db = body.runs c db
  with_tx_once (breaks n busy) body c db = failed (driver busy)

  -- What the captured variables are behind an attempt.
  unfoldable pub held : Fate → Closure C S A → C → S → C
  held goes body c db = body.holds none c db
  held (breaks n busy) body c db = body.holds (some n) c db

  -- The loop of `withTx` from one attempt on, with so many attempts left behind it. A failure is
  -- tried again only if it is a snapshot conflict and the context outlives the pause.
  unfoldable pub attempts_from : ℕ → ℕ → (ℕ → Attempt) → Closure C S A → C → Over S A
  unfolding with_tx_once held
  attempts_from zero attempt env body c db = with_tx_once (env attempt).fate body c db
  attempts_from (suc left) attempt env body c db =
      let again =
        attempts_from left (suc attempt) env body (held (env attempt).fate body c db) db in
      elim (with_tx_once (env attempt).fate body c db) [
        | done a db' ↦ done a db'
        | failed e ↦
            if not (is_busy_snapshot e)
            then failed e
            else if (env attempt).context_done
            then failed (cancelled e)
            else again
      ]

  -- `withTx` on a store that is open for writing, or read only.
  unfoldable pub with_tx_on : Bool → (ℕ → Attempt) → Closure C S A → C → Over S A
  unfolding attempts_from
  with_tx_on writable env body c db =
      if not writable
      then failed read_only
      else attempts_from (max_write_attempts - 1) 1 env body c db

-- `withTx` of a body that reads no captured variable.
unfoldable pub with_tx {ℓ} : {S : Type 0} {A : Type ℓ} → Bool → (ℕ → Attempt) → Over S A → Over S A
unfolding attempts_from
with_tx writable env body db =
    if not writable
    then failed read_only
    else attempts_from (max_write_attempts - 1) 1 env (plain body) tt db

-- What a store method leaves behind: the committed tables, or after a failure the old ones.
abbrev pub after {ℓ} : {S : Type 0} {A : Type ℓ} → S → TxResult S A → S
after db (done a db') = db'
after db (failed e) = db
