-- ===== src/Store/Queue/Selected.antt =====
-- The rows that a SELECT of internal/store answers: those that its test accepts, ordered by their
-- index.
use mathlib.Core.List.{Memᴰ}
use mathlib.Core.List.Memᴰ
use pulseq.Prelude.{
  ◌≡◌, refl, sym, ap, subst, ◌∙◌, ◌↔◌, ◌⊎◌, inl, inr, ℕ, ◌≤◌, Bool, true, List, [], ◌∷◌, Option,
  none, some, if◌then◌else◌, leb, arith, Bool-cases,
}
use pulseq.Store.Table.{select}
use pulseq.Store.Rows.{Step}
use pulseq.Store.Writes.{order_by_idx, insert_by_idx}
use pulseq.Store.Queue.{exists_row, first_of}

pub exists_row-true {ℓ} :
    {R : Type ℓ} (p : R → Bool) (rows : List R) (r : R)
    → Memᴰ r rows
    → p r ≡ true
    → exists_row p rows ≡ true
unfolding exists_row
exists_row-true p [] r m h = absurd (Memᴰ.not-nil m)
exists_row-true p (x ∷ rows) r (Memᴰ.head e) h = let k = rw e at h in ground arith
exists_row-true p (x ∷ rows) r (Memᴰ.tail m) h = ground (arith, exists_row-true p rows r m)

pub select-Mem :
    (p : Step → Bool) (rows : List Step) (s : Step)
    → Memᴰ s (select p rows)
    → Memᴰ s rows × (p s ≡ true)
unfolding select
select-Mem p [] s m = absurd (Memᴰ.not-nil m)
select-Mem p (x ∷ rows) s m = elim (Bool-cases (p x)) [
  | inl e ↦
      let m' : Memᴰ s (x ∷ select p rows) =
        subst (λ b. Memᴰ s (if b then x ∷ select p rows else select p rows)) e m in
      elim (Memᴰ.cases_cons m') [
        | inl same ↦ (Memᴰ.head same, ap p same ∙ e)
        | inr rest ↦ let (there, h) = select-Mem p rows s rest in (Memᴰ.tail there, h)
      ]
  | inr e ↦
      let m' : Memᴰ s (select p rows) =
        subst (λ b. Memᴰ s (if b then x ∷ select p rows else select p rows)) e m in
      let (there, h) = select-Mem p rows s m' in (Memᴰ.tail there, h)
]

pub Mem-select :
    (p : Step → Bool) (rows : List Step) (s : Step)
    → Memᴰ s rows
    → p s ≡ true
    → Memᴰ s (select p rows)
unfolding select
Mem-select p [] s m h = absurd (Memᴰ.not-nil m)
Mem-select p (x ∷ rows) s (Memᴰ.head e) h = rw (sym (ap p e) ∙ h) (Memᴰ.head e)
Mem-select p (x ∷ rows) s (Memᴰ.tail m) h = elim (Bool-cases (p x)) [
  | inl e ↦ rw e (Memᴰ.tail (Mem-select p rows s m h))
  | inr e ↦ rw e (Mem-select p rows s m h)
]

-- `ORDER BY idx` keeps the rows, and puts the lowest index first.
Mem-insert :
    (t : Step) (rows : List Step) (s : Step) → Memᴰ s (insert_by_idx t rows) ↔ Memᴰ s (t ∷ rows)
unfolding insert_by_idx
Mem-insert t [] s = (λ m. m, λ m. m)
Mem-insert t (x ∷ rows) s = elim (Bool-cases (leb t.idx x.idx)) [
  | inl e ↦ rw e ((λ m. m, λ m. m))
  | inr e ↦
      let (out_of, into) = Mem-insert t rows s in
      rw e (
        (
          λ m. elim (Memᴰ.cases_cons m) [
            | inl here ↦ Memᴰ.tail (Memᴰ.head here)
            | inr there ↦ elim (Memᴰ.cases_cons (out_of there)) [
              | inl same ↦ Memᴰ.head same
              | inr rest ↦ Memᴰ.tail (Memᴰ.tail rest)
            ]
          ],
          λ m. elim (Memᴰ.cases_cons m) [
            | inl same ↦ Memᴰ.tail (into (Memᴰ.head same))
            | inr there ↦ elim (Memᴰ.cases_cons there) [
              | inl here ↦ Memᴰ.head here
              | inr rest ↦ Memᴰ.tail (into (Memᴰ.tail rest))
            ]
          ],
        ))
]

pub Mem-order : (rows : List Step) (s : Step) → Memᴰ s (order_by_idx rows) ↔ Memᴰ s rows
unfolding order_by_idx
Mem-order [] s = (λ m. m, λ m. m)
Mem-order (x ∷ rows) s =
    let (out_of, into) = Mem-insert x (order_by_idx rows) s in
    let (before, after) = Mem-order rows s in
    (
      λ m. elim (Memᴰ.cases_cons (out_of m)) [
        | inl here ↦ Memᴰ.head here
        | inr there ↦ Memᴰ.tail (before there)
      ],
      λ m. elim (Memᴰ.cases_cons m) [
        | inl here ↦ into (Memᴰ.head here)
        | inr there ↦ into (Memᴰ.tail (after there))
      ],
    )

abbrev pub Lowest : Option Step → ℕ → Type 0
Lowest none i = ⊥
Lowest (some s) i = s.idx ≤ i

first-insert :
    (t : Step) (rows : List Step) (i : ℕ)
    → (t.idx ≤ i) ⊎ Lowest (first_of rows) i
    → Lowest (first_of (insert_by_idx t rows)) i
unfolding insert_by_idx
first-insert t [] i (inl h) = h
first-insert t [] i (inr h) = absurd h
first-insert t (x ∷ rows) i h = elim (Bool-cases (leb t.idx x.idx)) [
  | inl e ↦ rw e (ground arith)
  | inr e ↦ rw e (ground arith)
]

pub first-order :
    (rows : List Step) (s : Step) → Memᴰ s rows → Lowest (first_of (order_by_idx rows)) s.idx
unfolding order_by_idx
first-order [] s m = absurd (Memᴰ.not-nil m)
first-order (x ∷ rows) s (Memᴰ.head e) =
    first-insert x (order_by_idx rows) s.idx
      (inl (subst (λ y. x.idx ≤ y.idx) (sym e) (omega arith)))
first-order (x ∷ rows) s (Memᴰ.tail m) =
    first-insert x (order_by_idx rows) s.idx (inr (first-order rows s m))

pub first-Mem : (rows : List Step) (s : Step) → first_of rows ≡ some s → Memᴰ s rows
first-Mem [] s h = cc
first-Mem (x ∷ rows) s h = Memᴰ.head (cc)

pub exists_row-some {ℓ} :
    {R : Type ℓ} (p : R → Bool) (rows : List R)
    → exists_row p rows ≡ true
    → (r : R) × (Memᴰ r rows × (p r ≡ true))
unfolding exists_row
exists_row-some p [] h = cc
exists_row-some p (x ∷ rows) h = elim (Bool-cases (p x)) [
  | inl e ↦ (x, (Memᴰ.head refl, e))
  | inr e ↦ let (r, (m, k)) = exists_row-some p rows (ground arith) in (r, (Memᴰ.tail m, k))
]
