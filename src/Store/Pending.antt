-- ===== src/Store/Pending.antt =====
-- The pending steps that `skipPendingStepsTx` of internal/store/transitions.go selects: each is
-- pending, none is named twice, and none is left out, since (run_id, name) is the primary key.
use mathlib.Core.Path.{subst₂}
use pulseq.Prelude.{
  subst, leb, ◌≡◌, ◌≢◌, refl, Bool, true, false, ◌&&◌, ◌||◌, String, List, [], ◌∷◌, map, none, some,
  arith, str_eq, eq_iff, eq_refl, Bool-cases, inl, inr, ◌∙◌,
}
use pulseq.Model.State.{step_pending}
use pulseq.Store.Table.{find, select}
use pulseq.Store.Rows.{Step, Db, has_key, find_step, is_pending, UniqueKeys, Named, WellKeyed}
use pulseq.Store.Writes.{insert_by_idx, order_by_idx, of_run_id}
use pulseq.Store.Claim.{pending_names}

unfoldable pub contains : String → List String → Bool
contains n [] = false
contains n (m ∷ rest) = str_eq m n || contains n rest

abbrev pub Distinct : List String → Type 0
Distinct [] = Unit {0}
Distinct (n ∷ rest) = (contains n rest ≡ false) × Distinct rest

abbrev pub AllNames : (String → Type 0) → List String → Type 0
AllNames P [] = Unit {0}
AllNames P (n ∷ rest) = P n × AllNames P rest

abbrev names : List Step → List String
names = map (λ s. s.name)

abbrev of_pending : String → Step → Bool
of_pending id s = of_run_id id s && is_pending s.state

contains-insert :
    (n : String) (s : Step) (xs : List Step)
    → contains n (names (insert_by_idx s xs)) ≡ (str_eq s.name n || contains n (names xs))
unfolding contains insert_by_idx
contains-insert n s [] = refl
contains-insert n s (x ∷ xs) = ground (arith, contains-insert n s xs)

contains-order :
    (n : String) (xs : List Step) → contains n (names (order_by_idx xs)) ≡ contains n (names xs)
unfolding contains order_by_idx
contains-order n [] = refl
contains-order n (x ∷ xs) = contains-insert n x (order_by_idx xs) ∙ rw (contains-order n xs)

Distinct-insert :
    (s : Step) (xs : List Step)
    → contains s.name (names xs) ≡ false
    → Distinct (names xs)
    → Distinct (names (insert_by_idx s xs))
unfolding contains insert_by_idx
Distinct-insert s [] h d = (refl, tt)
Distinct-insert s (x ∷ xs) h d = ground (
  arith,
  contains-insert x.name s xs,
  Distinct-insert s xs,
  eq_iff x.name s.name,
  eq_iff s.name x.name,
)

Distinct-order : (xs : List Step) → Distinct (names xs) → Distinct (names (order_by_idx xs))
unfolding order_by_idx
Distinct-order [] d = tt
Distinct-order (x ∷ xs) d =
    Distinct-insert x (order_by_idx xs) (contains-order x.name xs ∙ d.0) (Distinct-order xs d.1)

AllNames-insert :
    (P : String → Type 0) (s : Step) (xs : List Step)
    → P s.name
    → AllNames P (names xs)
    → AllNames P (names (insert_by_idx s xs))
unfolding insert_by_idx
AllNames-insert P s [] h a = (h, tt)
AllNames-insert P s (x ∷ xs) h a = elim (Bool-cases (leb s.idx x.idx)) [
  | inl e ↦ rw e (h, a)
  | inr e ↦ rw e (a.0, AllNames-insert P s xs h a.1)
]

AllNames-order :
    (P : String → Type 0) (xs : List Step)
    → AllNames P (names xs)
    → AllNames P (names (order_by_idx xs))
unfolding order_by_idx
AllNames-order P [] a = tt
AllNames-order P (x ∷ xs) a = AllNames-insert P x (order_by_idx xs) a.0 (AllNames-order P xs a.1)

-- A name that the selection shows belongs to a row of the run.
contains-select :
    (id n : String) (rows : List Step)
    → find (has_key id n) rows ≡ none
    → contains n (names (select (of_pending id) rows)) ≡ false
unfolding contains select find
contains-select id n [] h = refl
contains-select id n (s ∷ rows) h = ground (arith, contains-select id n rows, eq_iff s.run_id id)

Distinct-select :
    (id : String) (rows : List Step)
    → UniqueKeys rows
    → Distinct (names (select (of_pending id) rows))
unfolding select
Distinct-select id [] u = tt
Distinct-select id (s ∷ rows) u = elim (Bool-cases (of_pending id s)) [
  | inl e ↦ rw e (
    (contains-select id s.name rows (
        subst (λ i. find (has_key i s.name) rows ≡ none) (ground (arith, eq_iff s.run_id id)) u.0)),
    Distinct-select id rows u.1,
  )
  | inr e ↦ rw e (Distinct-select id rows u.1)
]

-- A name of a pending step among the rows.
abbrev pub PendingIn : String → List Step → String → Type 0
PendingIn id rows n =
    (n ≢ "") × (s : Step) × (find (has_key id n) rows ≡ some s) × (s.state ≡ step_pending)

PendingIn-cons :
    (id n : String) (x : Step) (rows : List Step)
    → find (has_key x.run_id x.name) rows ≡ none
    → PendingIn id rows n
    → PendingIn id (x ∷ rows) n
unfolding find
PendingIn-cons id n x rows fresh (named, s, found, pending) = elim (Bool-cases (has_key id n x)) [
  | inl e ↦
      let ids : (x.run_id ≡ id) × (x.name ≡ n) =
        (ground (arith, eq_iff x.run_id id), ground (arith, eq_iff x.name n)) in
      let missing = subst₂ (λ i m. find (has_key i m) rows ≡ none) ids.0 ids.1 fresh in cc
  | inr e ↦ (named, s, rw e found, pending)
]

AllNames-PendingIn-cons :
    (id : String) (x : Step) (rows : List Step) (ns : List String)
    → find (has_key x.run_id x.name) rows ≡ none
    → AllNames (PendingIn id rows) ns
    → AllNames (PendingIn id (x ∷ rows)) ns
AllNames-PendingIn-cons id x rows [] fresh a = tt
AllNames-PendingIn-cons id x rows (n ∷ ns) fresh a =
    (PendingIn-cons id n x rows fresh a.0, AllNames-PendingIn-cons id x rows ns fresh a.1)

select-PendingIn :
    (id : String) (rows : List Step)
    → UniqueKeys rows
    → Named rows
    → AllNames (PendingIn id rows) (names (select (of_pending id) rows))
unfolding select
select-PendingIn id [] u named = tt
select-PendingIn id (s ∷ rows) u named = elim (Bool-cases (of_pending id s)) [
  | inl e ↦ rw e (
    (named.0, s, unfold find in ground (arith, eq_refl s.name), ground arith),
    AllNames-PendingIn-cons id s rows _ u.0 (select-PendingIn id rows u.1 named.1),
  )
  | inr e ↦ rw e (AllNames-PendingIn-cons id s rows _ u.0 (select-PendingIn id rows u.1 named.1))
]

contains-select_pending :
    (id n : String) (rows : List Step) (s : Step)
    → find (has_key id n) rows ≡ some s
    → s.state ≡ step_pending
    → contains n (names (select (of_pending id) rows)) ≡ true
unfolding contains select find
contains-select_pending id n [] s h e = cc
contains-select_pending id n (x ∷ rows) s h e = ground (arith, contains-select_pending id n rows s)

-- No pending step is named twice.
pub pending_names-Distinct : (db : Db) (id : String) → WellKeyed db → Distinct (pending_names db id)
unfolding pending_names
pending_names-Distinct db id w = Distinct-order _ (Distinct-select id db.steps w.unique)

-- Each name that is selected is that of a pending step of the run.
pub pending_names-pending :
    (db : Db) (id : String) → WellKeyed db → AllNames (PendingIn id db.steps) (pending_names db id)
unfolding pending_names
pending_names-pending db id w =
    AllNames-order (PendingIn id db.steps) _ (select-PendingIn id db.steps w.unique w.named)

-- Each pending step of the run is selected.
pub pending_names_complete :
    (db : Db) (id n : String) (s : Step)
    → find_step db id n ≡ some s
    → s.state ≡ step_pending
    → contains n (pending_names db id) ≡ true
unfolding pending_names find_step
pending_names_complete db id n s h e =
    contains-order n (select (of_pending id) db.steps) ∙ contains-select_pending id n db.steps s h e
