-- ===== src/Store/Migrate/Stages.antt =====
-- How far a database of internal/store/migrate.go has come, and what one migration does to that.
use pulseq.Prelude.{
  ℕ, zero, suc, ◌≤◌, ◌<◌, ◌≡◌, refl, ap, ◌∙◌, ◌⊎◌, inl, inr, List, [], ◌∷◌, Option, none, some,
  Text, length, get_elem?, take, arith, Option-cases,
}
use pulseq.Store.Migrate.Ledger.{Migration, AppliedMigration, Database, ledger_rows}
use pulseq.Store.Migrate.Prefix.{Recorded}

module _ {Sch : Type 0} (exec : Text → Sch → Option Sch) where
  -- The schema that migrations make, run in order.
  unfoldable pub schema_after : Sch → List Migration → Option Sch
  schema_after s [] = some s
  schema_after s (m ∷ rest) = elim (exec m.sql s) [ none ↦ none | some s' ↦ schema_after s' rest ]

  pub schema_after-take :
      (s : Sch) (all : List Migration) (k : ℕ) (m : Migration) (mid end : Sch)
      → schema_after s (take k all) ≡ some mid
      → get_elem? all k ≡ some m
      → exec m.sql mid ≡ some end
      → schema_after s (take (suc k) all) ≡ some end
  unfolding schema_after
  schema_after-take s [] k m mid end h at run = cc
  schema_after-take s (x ∷ all) zero m mid end h at run = ground arith
  schema_after-take s (x ∷ all) (suc k) m mid end h at run =
      go (exec x.sql s) (λ s' h. schema_after-take s' all k m mid end h at run) h
    where
      go :
          (o : Option Sch)
          → ((s' : Sch)
              → schema_after s' (take k all) ≡ some mid
              → schema_after s' (take (suc k) all) ≡ some end)
          → elim o [ none ↦ none | some s' ↦ schema_after s' (take k all) ] ≡ some mid
          → elim o [ none ↦ none | some s' ↦ schema_after s' (take (suc k) all) ] ≡ some end
      go none later h = cc
      go (some s') later h = later s' h

  -- When all run, the next one runs.
  pub schema_after-next :
      (s : Sch) (all : List Migration) (k : ℕ) (m : Migration) (mid end : Sch)
      → schema_after s all ≡ some end
      → schema_after s (take k all) ≡ some mid
      → get_elem? all k ≡ some m
      → (next : Sch) × (exec m.sql mid ≡ some next)
  unfolding schema_after
  schema_after-next s [] k m mid end whole h at = cc
  schema_after-next s (x ∷ all) zero m mid end whole h at = elim (Option-cases (exec m.sql mid)) [
    | inr found ↦ found
    | inl fails ↦
        let same : x ≡ m = ground arith in
        let start : s ≡ mid = ground arith in
        let stuck : exec x.sql s ≡ none =
          ap (λ (y : Migration). exec y.sql s) same ∙ ap (exec m.sql) start ∙ fails in
        absurd (ground (arith, stuck, whole))
  ]
  schema_after-next s (x ∷ all) (suc k) m mid end whole h at =
      go (exec x.sql s) (λ s' whole h. schema_after-next s' all k m mid end whole h at) whole h
    where
      go :
          (o : Option Sch)
          → ((s' : Sch)
              → schema_after s' all ≡ some end
              → schema_after s' (take k all) ≡ some mid
              → (next : Sch) × (exec m.sql mid ≡ some next))
          → elim o [ none ↦ none | some s' ↦ schema_after s' all ] ≡ some end
          → elim o [ none ↦ none | some s' ↦ schema_after s' (take k all) ] ≡ some mid
          → (next : Sch) × (exec m.sql mid ≡ some next)
      go none later whole h = cc
      go (some s') later whole h = later s' whole h

module _ {Sch : Type 0} (exec : Text → Sch → Option Sch) (base : Sch) (all : List Migration) where
  -- The ledger records the first migrations, the schema is what these make of the base, and the
  -- fence is not beyond them.
  pub record Stage (k : ℕ) (rows : List AppliedMigration) (schema : Sch) (fence : ℕ) : Type 0 where
    pub within : k ≤ length all
    pub recorded : Recorded (take k all) rows
    pub shape : schema_after exec base (take k all) ≡ some schema
    pub fenced : fence ≤ k

  -- A stage that is not earlier than the given one; if it is later, the fence stands at it.
  pub record Later (k : ℕ) (u : ℕ) (rows : List AppliedMigration) (schema : Sch) (fence : ℕ)
      : Type 0 where
    pub stage : ℕ
    pub at : Stage stage rows schema fence
    pub grown : ((k ≡ stage) × (u ≤ fence)) ⊎ ((k < stage) × (fence ≡ stage))

  abbrev pub At : ℕ → Database Sch → Type 0
  At k db = Stage k (ledger_rows db) db.schema db.user_version

  abbrev pub Kept : ℕ → ℕ → Database Sch → Type 0
  Kept k u db = Later k u (ledger_rows db) db.schema db.user_version

  pub Kept-here : (k : ℕ) (db : Database Sch) → At k db → Kept k db.user_version db
  Kept-here k db h = record { stage = k; at = h; grown = inl (refl, omega arith) }

  pub Kept-onward :
      (k u : ℕ) (mid db : Database Sch) (h : Kept k u mid) (l : Kept h.stage mid.user_version db)
      → (l' : Kept k u db) × (l'.stage ≡ l.stage)
  Kept-onward k u mid db h l =
      (record { stage = l.stage; at = l.at; grown = onward h.grown l.grown }, refl)
    where
      onward :
          (((k ≡ h.stage) × (u ≤ mid.user_version))
            ⊎ ((k < h.stage) × (mid.user_version ≡ h.stage)))
          → (((h.stage ≡ l.stage) × (mid.user_version ≤ db.user_version))
              ⊎ ((h.stage < l.stage) × (db.user_version ≡ l.stage)))
          → (((k ≡ l.stage) × (u ≤ db.user_version))
              ⊎ ((k < l.stage) × (db.user_version ≡ l.stage)))
      onward (inl a) (inl b) = inl (omega (arith, a.0, b.0), omega (arith, a.1, b.1))
      onward (inl a) (inr b) = inr (omega (arith, a.0, b.0), b.1)
      onward (inr a) (inl b) =
          inr (omega (arith, a.0, b.0), omega (arith, a.1, b.0, b.1, l.at.fenced))
      onward (inr a) (inr b) = inr (omega (arith, a.0, b.0), b.1)

  -- All migrations are recorded, and the fence stands at the last one.
  abbrev pub Complete : Unit {0} → Database Sch → Type 0
  Complete _ db = At (length all) db × (db.user_version ≡ length all)
