-- ===== src/Store/Tx/Atomic.antt =====
-- A write transaction of internal/store/tx.go happens once and whole, or not at all.
use pulseq.Prelude.{ℕ, zero, suc, Bool, true, false, ◌≡◌, ◌↔◌, refl, ◌∙◌, not, if◌then◌else◌, arith}
use pulseq.Store.Tx.{
  Over, done, failed, TxResult, Failure, read_only, driver, cancelled, Fate, goes, breaks, Attempt,
  Closure, plain, is_busy_snapshot, with_tx_once, held, attempts_from, with_tx_on, with_tx,
}

-- The failures of the loop itself, which are not its body's.
abbrev pub of_the_loop : Failure → Bool
of_the_loop read_only = true
of_the_loop (driver _) = true
of_the_loop (cancelled _) = true
of_the_loop _ = false

-- A transaction that commits, told by its attempts: from an attempt on, with so many left behind it
-- and these values in the captured variables, either it goes through, and the body, run on the old
-- state, makes the answer and the new state; or it fails with a snapshot conflict, nobody ends the
-- wait behind it, and the next one finds the old state and what this one left in the variables.
pub data Tried {ℓ} {C S : Type 0} {A : Type ℓ} (env : ℕ → Attempt) (body : Closure C S A) (db : S)
    (a : A) (db' : S) : ℕ → ℕ → C → Type ℓ where
  commits :
      {left attempt : ℕ} {c : C}
      → (env attempt).fate ≡ goes
      → body.runs c db ≡ done a db'
      → Tried env body db a db' left attempt c
  again :
      {left attempt : ℕ} {c : C} (e : Failure)
      → with_tx_once (env attempt).fate body c db ≡ failed e
      → is_busy_snapshot e ≡ true
      → (env attempt).context_done ≡ false
      → Tried env body db a db' left (suc attempt) (held (env attempt).fate body c db)
      → Tried env body db a db' (suc left) attempt c

same_failure {ℓ} :
    {S : Type 0} {A : Type ℓ} (f g : Failure) → ◌≡◌ {A = TxResult S A} (failed f) (failed g) → f ≡ g
same_failure f g h = ground arith

module _ {ℓ} {C S : Type 0} {A : Type ℓ} where
  went_through :
      (fate : Fate) (body : Closure C S A) (c : C) (db db' : S) (a : A)
      → with_tx_once fate body c db ≡ done a db'
      → (fate ≡ goes) × (body.runs c db ≡ done a db')
  unfolding with_tx_once
  went_through goes body c db db' a h = (refl, h)
  went_through (breaks n busy) body c db db' a h = absurd (ground arith)

  attempts_from-Tried :
      (left attempt : ℕ) (env : ℕ → Attempt) (body : Closure C S A) (c : C) (db db' : S) (a : A)
      → attempts_from left attempt env body c db ≡ done a db'
      → Tried env body db a db' left attempt c
  unfolding attempts_from
  attempts_from-Tried zero attempt env body c db db' a h =
      let (fate, ran) = went_through (env attempt).fate body c db db' a h in commits fate ran
  attempts_from-Tried (suc left) attempt env body c db db' a h =
      go (with_tx_once (env attempt).fate body c db) refl
        (attempts_from-Tried left (suc attempt) env body (held (env attempt).fate body c db) db db'
          a)
        h
    where
      after_failure :
          (e : Failure) (busy over : Bool) (later : TxResult S A)
          → with_tx_once (env attempt).fate body c db ≡ failed e
          → is_busy_snapshot e ≡ busy
          → (env attempt).context_done ≡ over
          → (later ≡ done a db'
              → Tried env body db a db' left (suc attempt) (held (env attempt).fate body c db))
          → (if not busy then failed e else if over then failed (cancelled e) else later)
            ≡ done a db'
          → Tried env body db a db' (suc left) attempt c
      after_failure e false over later first busy ends next h = absurd (ground (arith, h))
      after_failure e true true later first busy ends next h = absurd (ground (arith, h))
      after_failure e true false later first busy ends next h = again e first busy ends (next h)

      go :
          (r : TxResult S A)
          → with_tx_once (env attempt).fate body c db ≡ r
          → (attempts_from left (suc attempt) env body (held (env attempt).fate body c db) db
                ≡ done a db'
              → Tried env body db a db' left (suc attempt) (held (env attempt).fate body c db))
          → elim r [
            | done a db' ↦ done a db'
            | failed e ↦
                if not (is_busy_snapshot e)
                then failed e
                else if (env attempt).context_done
                then failed (cancelled e)
                else attempts_from left
                    (suc attempt)
                    env
                    body
                    (held (env attempt).fate body c db)
                    db
          ]
            ≡ done a db'
          → Tried env body db a db' (suc left) attempt c
      go (done b mid) first next h =
          let (fate, ran) = went_through (env attempt).fate body c db db' a (first ∙ h) in
          commits fate ran
      go (failed e) first next h =
          after_failure e (is_busy_snapshot e) (env attempt).context_done
            (attempts_from left (suc attempt) env body (held (env attempt).fate body c db) db) first
            refl refl next h

  Tried-attempts_from :
      {env : ℕ → Attempt} {body : Closure C S A} {db db' : S} {a : A} {left attempt : ℕ} {c : C}
      → Tried env body db a db' left attempt c
      → attempts_from left attempt env body c db ≡ done a db'
  unfolding attempts_from with_tx_once
  Tried-attempts_from (commits {left = zero} fate ran) = rw (attempts_from, fate, with_tx_once) ran
  Tried-attempts_from (commits {left = suc left} fate ran) =
      rw (attempts_from, fate, with_tx_once, ran) refl
  Tried-attempts_from (again {c = c} e first busy ends t) =
      rw (attempts_from, first, busy, ends) (Tried-attempts_from t)

  pub with_tx_on-Tried :
      (writable : Bool) (env : ℕ → Attempt) (body : Closure C S A) (c : C) (db db' : S) (a : A)
      → (with_tx_on writable env body c db ≡ done a db')
        ↔ ((writable ≡ true) × Tried env body db a db' 2 1 c)
  unfolding with_tx_on
  with_tx_on-Tried true env body c db db' a =
      ((λ h. (refl, attempts_from-Tried 2 1 env body c db db' a h)), (λ t. Tried-attempts_from t.1))
  with_tx_on-Tried false env body c db db' a =
      ((λ h. absurd (ground (arith, h))), (λ t. absurd (ground (arith, t.0))))

  Tried-runs :
      {env : ℕ → Attempt} {body : Closure C S A} {db db' : S} {a : A} {left attempt : ℕ} {c : C}
      → Tried env body db a db' left attempt c
      → (c' : C) × (body.runs c' db ≡ done a db')
  Tried-runs (commits {c = c} fate ran) = (c, ran)
  Tried-runs (again e first busy ends t) = Tried-runs t

  -- A transaction that commits has run its body on the old tables.
  pub with_tx_on_done :
      (writable : Bool) (env : ℕ → Attempt) (body : Closure C S A) (c : C) (db db' : S) (a : A)
      → with_tx_on writable env body c db ≡ done a db'
      → (c' : C) × (body.runs c' db ≡ done a db')
  with_tx_on_done writable env body c db db' a h =
      Tried-runs ((with_tx_on-Tried writable env body c db db' a).0 h).1

  with_tx_once_failed :
      (fate : Fate) (body : Closure C S A) (c : C) (db : S) (e : Failure)
      → with_tx_once fate body c db ≡ failed e
      → of_the_loop e ≡ false
      → body.runs c db ≡ failed e
  unfolding with_tx_once
  with_tx_once_failed goes body c db e h other = h
  with_tx_once_failed (breaks n busy) body c db e h other =
      absurd (ground (arith, same_failure (driver busy) e h, other))

  attempts_from_failed :
      (left attempt : ℕ) (env : ℕ → Attempt) (body : Closure C S A) (c : C) (db : S) (e : Failure)
      → attempts_from left attempt env body c db ≡ failed e
      → of_the_loop e ≡ false
      → (c' : C) × (body.runs c' db ≡ failed e)
  unfolding attempts_from
  attempts_from_failed zero attempt env body c db e h other =
      (c, with_tx_once_failed (env attempt).fate body c db e h other)
  attempts_from_failed (suc left) attempt env body c db e h other =
      go (with_tx_once (env attempt).fate body c db) refl
        (λ h.
          attempts_from_failed left (suc attempt) env body (held (env attempt).fate body c db) db e
            h other)
        h
    where
      after_failure :
          (e' : Failure) (busy over : Bool) (later : TxResult S A)
          → with_tx_once (env attempt).fate body c db ≡ failed e'
          → (later ≡ failed e → (c' : C) × (body.runs c' db ≡ failed e))
          → (if not busy then failed e' else if over then failed (cancelled e') else later)
            ≡ failed e
          → (c' : C) × (body.runs c' db ≡ failed e)
      after_failure e' false over later first next h =
          (c, with_tx_once_failed (env attempt).fate body c db e (first ∙ h) other)
      after_failure e' true true later first next h =
          absurd (ground (arith, same_failure (cancelled e') e h, other))
      after_failure e' true false later first next h = next h

      go :
          (r : TxResult S A)
          → with_tx_once (env attempt).fate body c db ≡ r
          → (attempts_from left (suc attempt) env body (held (env attempt).fate body c db) db
                ≡ failed e
              → (c' : C) × (body.runs c' db ≡ failed e))
          → elim r [
            | done a db' ↦ done a db'
            | failed e' ↦
                if not (is_busy_snapshot e')
                then failed e'
                else if (env attempt).context_done
                then failed (cancelled e')
                else attempts_from left
                    (suc attempt)
                    env
                    body
                    (held (env attempt).fate body c db)
                    db
          ]
            ≡ failed e
          → (c' : C) × (body.runs c' db ≡ failed e)
      go (done a db') first next h = absurd (ground arith)
      go (failed e') first next h =
          after_failure e' (is_busy_snapshot e') (env attempt).context_done
            (attempts_from left (suc attempt) env body (held (env attempt).fate body c db) db) first
            next h

  -- Any other failure is the body's.
  pub with_tx_on_failed :
      (writable : Bool) (env : ℕ → Attempt) (body : Closure C S A) (c : C) (db : S) (e : Failure)
      → with_tx_on writable env body c db ≡ failed e
      → of_the_loop e ≡ false
      → (c' : C) × (body.runs c' db ≡ failed e)
  unfolding with_tx_on
  with_tx_on_failed true env body c db e h other = attempts_from_failed 2 1 env body c db e h other
  with_tx_on_failed false env body c db e h other = absurd (ground (arith, h, other))

  -- When the first try goes through, a body that succeeds is committed.
  pub with_tx_on_goes :
      (writable : Bool) (env : ℕ → Attempt) (body : Closure C S A) (c : C) (db db' : S) (a : A)
      → writable ≡ true
      → (env 1).fate ≡ goes
      → body.runs c db ≡ done a db'
      → with_tx_on writable env body c db ≡ done a db'
  with_tx_on_goes writable env body c db db' a open_for first h =
      (with_tx_on-Tried writable env body c db db' a).1 (open_for, commits first h)

-- The same of a body that reads no captured variable.
module _ {ℓ} {S : Type 0} {A : Type ℓ} where
  with_tx_plain :
      (writable : Bool) (env : ℕ → Attempt) (body : Over S A) (db : S)
      → with_tx writable env body db ≡ with_tx_on writable env (plain body) tt db
  unfolding with_tx with_tx_on
  with_tx_plain writable env body db = refl

  pub with_tx_once_only :
      (writable : Bool) (env : ℕ → Attempt) (body : Over S A) (db db' : S) (a : A)
      → with_tx writable env body db ≡ done a db'
      → body db ≡ done a db'
  with_tx_once_only writable env body db db' a h =
      (with_tx_on_done writable env (plain body) tt db db' a
        (let k = rw (with_tx_plain writable env body db) at h in k)).1

  pub with_tx_goes :
      (writable : Bool) (env : ℕ → Attempt) (body : Over S A) (db db' : S) (a : A)
      → writable ≡ true
      → (env 1).fate ≡ goes
      → body db ≡ done a db'
      → with_tx writable env body db ≡ done a db'
  with_tx_goes writable env body db db' a open_for first h =
      with_tx_plain writable env body db
      ∙ with_tx_on_goes writable env (plain body) tt db db' a open_for first h
