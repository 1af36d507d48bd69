-- ===== src/Store/Migrate/Prefix.antt =====
-- The ledger of internal/store/migrate.go as a record of the first migrations of a build.
use pulseq.Prelude.{
  ℕ, zero, suc, ◌+◌, ◌≤◌, ◌<◌, ◌≡◌, refl, ◌∙◌, subst, Bool, true, false, List, [], ◌∷◌, ◌++◌, some,
  length, get_elem?, take, drop, arith, ltb,
}
use pulseq.Store.Migrate.Ledger.{
  Migration, AppliedMigration, holds_version, insert_applied, applied_row,
}
use pulseq.Store.Migrate.Plan.{pending, highest_from, highest_applied}

-- Migrations whose versions count up from the number behind the given one.
abbrev pub Numbered : ℕ → List Migration → Type 0
Numbered i [] = Unit {0}
Numbered i (m ∷ all) = (m.version ≡ suc i) × Numbered (suc i) all

-- A row that was written for a migration.
pub record RowOf (m : Migration) (a : AppliedMigration) : Type 0 where
  pub same_version : a.version ≡ m.version
  pub same_name : a.name ≡ m.name
  pub same_checksum : a.checksum ≡ m.checksum

-- Rows that were written for the migrations, one for each, in order.
abbrev pub Recorded : List Migration → List AppliedMigration → Type 0
Recorded [] [] = Unit {0}
Recorded (m ∷ all) (a ∷ rows) = RowOf m a × Recorded all rows
Recorded _ _ = ⊥

pub version_at :
    (i : ℕ) (all : List Migration) (k : ℕ) (m : Migration)
    → Numbered i all
    → get_elem? all k ≡ some m
    → m.version ≡ suc (i + k)
version_at i [] k m n h = cc
version_at i (x ∷ all) zero m n h = ground (arith, n.0)
version_at i (x ∷ all) (suc k) m n h = omega (arith, version_at (suc i) all k m n.1 h)

at_version :
    (v w : ℕ) (rows : List AppliedMigration) (b : Bool)
    → v ≡ w
    → holds_version v rows ≡ b
    → holds_version w rows ≡ b
at_version v w rows b e h = subst (λ v. holds_version v rows ≡ b) e h

-- The ledger holds the versions of the first ones and no other.
pub holds_version-Recorded :
    (i : ℕ) (all : List Migration) (k : ℕ) (rows : List AppliedMigration) (j : ℕ)
    → Numbered i all
    → Recorded (take k all) rows
    → j < length all
    → holds_version (suc (i + j)) rows ≡ ltb j k
unfolding holds_version
holds_version-Recorded i [] k rows j n h less = absurd (omega (arith, less))
holds_version-Recorded i (x ∷ all) zero [] j n h less = ground arith
holds_version-Recorded i (x ∷ all) zero (a ∷ rows) j n h less = absurd h
holds_version-Recorded i (x ∷ all) (suc k) [] j n h less = absurd h
holds_version-Recorded i (x ∷ all) (suc k) (a ∷ rows) zero n h less =
    ground (arith, n.0, h.0.same_version)
holds_version-Recorded i (x ∷ all) (suc k) (a ∷ rows) (suc j) n h less =
    let later : holds_version (suc (i + suc j)) rows ≡ ltb j k =
      at_version (suc (suc i + j)) (suc (i + suc j)) rows (ltb j k) (omega arith)
        (holds_version-Recorded (suc i) all k rows j n.1 h.1 (omega (arith, less))) in
    ground (arith, n.0, h.0.same_version, later)

row_written : (x m : Migration) (now : ℕ) → some x ≡ some m → RowOf x (applied_row now m)
row_written x m now h = record {
  same_version = ground arith;
  same_name = ground arith;
  same_checksum = ground arith;
}

-- The next migration's row goes to the end.
pub insert_applied-Recorded :
    (i : ℕ) (all : List Migration) (k : ℕ) (rows : List AppliedMigration) (m : Migration) (now : ℕ)
    → Numbered i all
    → Recorded (take k all) rows
    → get_elem? all k ≡ some m
    → (insert_applied (applied_row now m) rows ≡ some (rows ++ applied_row now m ∷ []))
      × Recorded (take (suc k) all) (rows ++ applied_row now m ∷ [])
unfolding insert_applied
insert_applied-Recorded i [] k rows m now n h at = cc
insert_applied-Recorded i (x ∷ all) zero (a ∷ rows) m now n h at = absurd h
insert_applied-Recorded i (x ∷ all) (suc k) [] m now n h at = absurd h
insert_applied-Recorded i (x ∷ all) zero [] m now n h at = (refl, (row_written x m now at, tt))
insert_applied-Recorded i (x ∷ all) (suc k) (a ∷ rows) m now n h at =
    let (put, kept) = insert_applied-Recorded (suc i) all k rows m now n.1 h.1 at in
    let later : m.version ≡ suc (suc i + k) = version_at (suc i) all k m n.1 at in
    (ground (arith, n.0, h.0.same_version, later, put), (h.0, kept))

pending-drop :
    (i : ℕ) (all : List Migration) (k : ℕ) (rows : List AppliedMigration)
    → Numbered i all
    → ((j : ℕ) → j < length all → holds_version (suc (i + j)) rows ≡ ltb j k)
    → pending all rows ≡ drop k all
unfolding pending
pending-drop i [] zero rows n h = refl
pending-drop i [] (suc k) rows n h = refl
pending-drop i (x ∷ all) zero rows n h =
    let here : holds_version x.version rows ≡ false =
      at_version (suc (i + 0)) x.version rows false (omega (arith, n.0)) (h 0 (omega arith)) in
    rw
      (
        here,
        pending-drop (suc i) all zero rows n.1 λ j less. unheld j (
            at_version (suc (i + suc j)) (suc (suc i + j)) rows (ltb (suc j) 0) (omega arith)
              (h (suc j) (omega (arith, less)))),
      )
      refl
  where
    unheld : (j : ℕ) {b : Bool} → b ≡ ltb (suc j) 0 → b ≡ ltb j 0
    unheld j h = ground arith
pending-drop i (x ∷ all) (suc k) rows n h =
    let here : holds_version x.version rows ≡ true =
      at_version (suc (i + 0)) x.version rows (ltb 0 (suc k)) (omega (arith, n.0))
        (h 0 (omega arith))
      ∙ ground arith in
    rw
      (
        here,
        pending-drop (suc i) all k rows n.1 λ j less. shifted j (
            at_version (suc (i + suc j)) (suc (suc i + j)) rows (ltb (suc j) (suc k)) (omega arith)
              (h (suc j) (omega (arith, less)))),
      )
      refl
  where
    shifted : (j : ℕ) {b : Bool} → b ≡ ltb (suc j) (suc k) → b ≡ ltb j k
    shifted j h = ground arith

-- What is pending is what follows the recorded ones.
pub pending-Recorded :
    (i : ℕ) (all : List Migration) (k : ℕ) (rows : List AppliedMigration)
    → Numbered i all
    → Recorded (take k all) rows
    → pending all rows ≡ drop k all
pending-Recorded i all k rows n h =
    pending-drop i all k rows n (λ j less. holds_version-Recorded i all k rows j n h less)

-- The highest version of the recorded ones is their number.
highest_from-Recorded :
    (i : ℕ) (all : List Migration) (k : ℕ) (rows : List AppliedMigration)
    → Numbered i all
    → Recorded (take k all) rows
    → k ≤ length all
    → highest_from i rows ≡ i + k
unfolding highest_from
highest_from-Recorded i [] zero [] n h within = omega arith
highest_from-Recorded i [] zero (a ∷ rows) n h within = absurd h
highest_from-Recorded i [] (suc k) rows n h within = absurd (omega (arith, within))
highest_from-Recorded i (x ∷ all) zero [] n h within = omega arith
highest_from-Recorded i (x ∷ all) zero (a ∷ rows) n h within = absurd h
highest_from-Recorded i (x ∷ all) (suc k) [] n h within = absurd h
highest_from-Recorded i (x ∷ all) (suc k) (a ∷ rows) n h within =
    let version : a.version ≡ suc i = omega (arith, n.0, h.0.same_version) in
    let larger : ltb i (suc i) ≡ true = ground arith in
    rw (version, larger)
      (highest_from-Recorded (suc i) all k rows n.1 h.1 (omega (arith, within)) ∙ omega arith)

pub highest_applied-Recorded :
    (all : List Migration) (k : ℕ) (rows : List AppliedMigration)
    → Numbered 0 all
    → Recorded (take k all) rows
    → k ≤ length all
    → highest_applied rows ≡ k
unfolding highest_applied
highest_applied-Recorded all k rows n h within =
    highest_from-Recorded 0 all k rows n h within ∙ omega arith

-- What is left behind the first ones.
pub drop_next :
    (all : List Migration) (j : ℕ) (m : Migration) (rest : List Migration)
    → drop j all ≡ m ∷ rest
    → (get_elem? all j ≡ some m) × (drop (suc j) all ≡ rest)
drop_next [] zero m rest h = cc
drop_next [] (suc j) m rest h = cc
drop_next (x ∷ all) zero m rest h = (ground (arith, h), ground (arith, h))
drop_next (x ∷ all) (suc j) m rest h = drop_next all j m rest h

pub drop_end : (all : List Migration) (j : ℕ) → drop j all ≡ [] → length all ≤ j
drop_end [] j h = omega arith
drop_end (x ∷ all) zero h = cc
drop_end (x ∷ all) (suc j) h = omega (arith, drop_end all j h)

pub drop_more :
    (all : List Migration) (j : ℕ) (m : Migration) (rest : List Migration)
    → drop j all ≡ m ∷ rest
    → j < length all
drop_more [] zero m rest h = cc
drop_more [] (suc j) m rest h = cc
drop_more (x ∷ all) zero m rest h = omega arith
drop_more (x ∷ all) (suc j) m rest h = omega (arith, drop_more all j m rest h)
