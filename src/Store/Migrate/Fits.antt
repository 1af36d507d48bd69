-- ===== src/Store/Migrate/Fits.antt =====
-- The ledger of a database at some stage passes the checks of internal/store/migrate.go.
use pulseq.Prelude.{
  ℕ, zero, suc, ◌+◌, ◌≤◌, ◌≡◌, refl, sym, ap, ◌∙◌, true, List, [], ◌∷◌, none, some, str_eq, eq_refl,
  length, get_elem?, take, drop, arith,
}
use pulseq.Store.Migrate.Ledger.{Migration, AppliedMigration}
use pulseq.Store.Migrate.Plan.{max_version, by_version, check_ledger, check_order, check_applied}
use pulseq.Store.Migrate.Prefix.{Numbered, Recorded, pending-Recorded, highest_applied-Recorded}

-- No migration of a numbered list has a version that is not behind its start.
by_version_early :
    (v i : ℕ) (all : List Migration) → Numbered i all → v ≤ i → by_version v all ≡ none
unfolding by_version
by_version_early v i [] n early = refl
by_version_early v i (m ∷ all) n early =
    rw (by_version_early v (suc i) all n.1 (omega (arith, early))) (ground (arith, n.0, early))

by_version_at :
    (i : ℕ) (all : List Migration) (j : ℕ) (m : Migration)
    → Numbered i all
    → get_elem? all j ≡ some m
    → by_version m.version all ≡ some m
unfolding by_version
by_version_at i [] j m n h = cc
by_version_at i (x ∷ all) zero m n h =
    let same : x ≡ m = ground arith in
    let version : m.version ≡ suc i = ap (λ (y : Migration). y.version) (sym same) ∙ n.0 in
    rw (by_version_early m.version (suc i) all n.1 (omega (arith, version)))
      (ground (arith, same, version, n.0))
by_version_at i (x ∷ all) (suc j) m n h = rw (by_version_at (suc i) all j m n.1 h) refl

check_ledger-Recorded :
    (whole all : List Migration) (k : ℕ) (rows : List AppliedMigration)
    → ((j : ℕ) (m : Migration) → get_elem? all j ≡ some m → by_version m.version whole ≡ some m)
    → Recorded (take k all) rows
    → check_ledger whole rows ≡ none
unfolding check_ledger
check_ledger-Recorded whole all k [] carried h = refl
check_ledger-Recorded whole [] zero (a ∷ rows) carried h = absurd h
check_ledger-Recorded whole [] (suc k) (a ∷ rows) carried h = absurd h
check_ledger-Recorded whole (m ∷ all) zero (a ∷ rows) carried h = absurd h
check_ledger-Recorded whole (m ∷ all) (suc k) (a ∷ rows) carried h =
    let found : by_version a.version whole ≡ some m =
      ap (λ v. by_version v whole) h.0.same_version ∙ carried 0 m refl in
    let sum : str_eq m.checksum a.checksum ≡ true =
      ap (str_eq m.checksum) h.0.same_checksum ∙ eq_refl m.checksum in
    let later : check_ledger whole rows ≡ none =
      check_ledger-Recorded whole all k rows (λ j. carried (suc j)) h.1 in
    rw (check_ledger, found, sum, later) refl

check_order-Numbered :
    (i highest : ℕ) (all : List Migration) (k : ℕ)
    → Numbered i all
    → highest ≤ i + k
    → check_order highest (drop k all) ≡ none
unfolding check_order
check_order-Numbered i highest [] zero n h = refl
check_order-Numbered i highest [] (suc k) n h = refl
check_order-Numbered i highest (m ∷ all) zero n h =
    let later : check_order highest all ≡ none =
      check_order-Numbered (suc i) highest all zero n.1 (omega (arith, h)) in
    ground (arith, later, n.0, h)
check_order-Numbered i highest (m ∷ all) (suc k) n h =
    check_order-Numbered (suc i) highest all k n.1 (omega (arith, h))

-- The checks pass for a ledger that records the first migrations.
pub check_applied-Recorded :
    (all : List Migration) (k : ℕ) (rows : List AppliedMigration)
    → Numbered 0 all
    → Recorded (take k all) rows
    → k ≤ length all
    → check_applied all rows ≡ none
unfolding check_applied
check_applied-Recorded all k rows n h within =
    rw
      (
        check_applied,
        check_ledger-Recorded all all k rows (λ j m at. by_version_at 0 all j m n at) h,
        highest_applied-Recorded all k rows n h within,
        pending-Recorded 0 all k rows n h,
      )
      (check_order-Numbered 0 k all k n (omega arith))

-- The highest version of a numbered list is its length.
max_version-Numbered :
    (i : ℕ) (m : Migration) (all : List Migration)
    → Numbered i (m ∷ all)
    → max_version (m ∷ all) ≡ i + length (m ∷ all)
unfolding max_version
max_version-Numbered i m [] n = omega (arith, n.0)
max_version-Numbered i m (x ∷ all) n = max_version-Numbered (suc i) x all n.1 ∙ omega arith

pub max_version_lem : (all : List Migration) → Numbered 0 all → max_version all ≡ length all
unfolding max_version
max_version_lem [] n = refl
max_version_lem (m ∷ all) n = max_version-Numbered 0 m all n ∙ omega arith
