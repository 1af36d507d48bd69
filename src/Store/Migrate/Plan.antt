-- ===== src/Store/Migrate/Plan.antt =====
-- internal/store/migrate.go: which migrations are missing, and whether the ledger fits the build.
use pulseq.Prelude.{ℕ, not, str_eq, List, [], ◌∷◌, Option, none, some, if◌then◌else◌, ltb, ◌==◌}
use pulseq.Store.Migrate.Ledger.{Migration, AppliedMigration, holds_version}
use pulseq.Store.Tx.{Failure, unknown_applied, edited_file, out_of_order}

-- `maxVersion`: the version of the last one.
unfoldable pub max_version : List Migration → ℕ
max_version [] = 0
max_version (m ∷ []) = m.version
max_version (m ∷ n ∷ rest) = max_version (n ∷ rest)

-- `highestApplied`, from a version on.
unfoldable pub highest_from : ℕ → List AppliedMigration → ℕ
highest_from highest [] = highest
highest_from highest (a ∷ rest) =
    highest_from (if ltb highest a.version then a.version else highest) rest

unfoldable pub highest_applied : List AppliedMigration → ℕ
unfolding highest_from
highest_applied applied = highest_from 0 applied

-- `pending`.
unfoldable pub pending : List Migration → List AppliedMigration → List Migration
unfolding holds_version
pending [] applied = []
pending (m ∷ all) applied =
    let later = pending all applied in
    if not (holds_version m.version applied) then m ∷ later else later

-- `byVersion[version]`: a later migration of the same version replaces an earlier one.
unfoldable pub by_version : ℕ → List Migration → Option Migration
by_version version [] = none
by_version version (m ∷ all) =
    let later = by_version version all in
    elim later [ some found ↦ some found | none ↦ if m.version == version then some m else none ]

-- The first loop of `checkApplied`.
unfoldable pub check_ledger : List Migration → List AppliedMigration → Option Failure
unfolding by_version
check_ledger all [] = none
check_ledger all (a ∷ rest) =
    let later = check_ledger all rest in
    elim (by_version a.version all) [
      | none ↦ some unknown_applied
      | some m ↦ if not (str_eq m.checksum a.checksum) then some edited_file else later
    ]

-- The second loop of `checkApplied`, over what is pending.
unfoldable pub check_order : ℕ → List Migration → Option Failure
check_order highest [] = none
check_order highest (m ∷ rest) =
    let later = check_order highest rest in
    if ltb m.version highest then some out_of_order else later

-- `checkApplied`.
unfoldable pub check_applied : List Migration → List AppliedMigration → Option Failure
unfolding check_ledger check_order pending highest_applied
check_applied all applied = elim (check_ledger all applied) [
  | some refusal ↦ some refusal
  | none ↦ check_order (highest_applied applied) (pending all applied)
]
