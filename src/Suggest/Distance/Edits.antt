-- ===== src/Suggest/Distance/Edits.antt =====
-- What `Distance` of internal/diag means: the least number of edits that make one string of another.
use pulseq.Prelude.{
  ℕ, suc, ◌+◌, ◌≤◌, ◌≡◌, refl, sym, ◌∙◌, subst, List, [], ◌∷◌, length, min, arith, ◌==◌, Bool-cases,
  ◌⊎◌, inl, inr, ==_iff,
}
use native.Mathlib.Omega.{min_cases}
use mathlib.Core.Path.{subst₂}
use pulseq.Suggest.Distance.{cost, distance}
use pulseq.Suggest.Distance.Rows.{edit, onto, distance-edit}

-- So many edits make the second string of the first, read along both.
pub data Edits : ℕ → List ℕ → List ℕ → Type 0 where
  through : Edits 0 [] []
  same : {n : ℕ} {a b : List ℕ} (x : ℕ) → Edits n a b → Edits n (x ∷ a) (x ∷ b)
  changed : {n : ℕ} {a b : List ℕ} (x y : ℕ) → Edits n a b → Edits (suc n) (x ∷ a) (y ∷ b)
  inserted : {n : ℕ} {a b : List ℕ} (y : ℕ) → Edits n a b → Edits (suc n) a (y ∷ b)
  removed : {n : ℕ} {a b : List ℕ} (x : ℕ) → Edits n a b → Edits (suc n) (x ∷ a) b

insert_all : (b : List ℕ) → Edits (length b) [] b
insert_all [] = through
insert_all (y ∷ b) = inserted y (insert_all b)

remove_all : (a : List ℕ) → Edits (length a) a []
remove_all [] = through
remove_all (x ∷ a) = removed x (remove_all a)

counted : {n m : ℕ} {a b : List ℕ} → Edits n a b → n ≡ m → Edits m a b
counted {a = a} {b = b} e same_count = subst (λ k. Edits k a b) same_count e

min_is : (a b : ℕ) → (min a b ≡ a) ⊎ (min a b ≡ b)
min_is a b = min_cases a b _ (λ _ e. inl e) (λ _ e. inr e)

one_cell : {d : ℕ} {a b : List ℕ} (x y : ℕ) → Edits d a b → Edits (d + cost x y) (x ∷ a) (y ∷ b)
one_cell {d = d} {a = a} {b = b} x y e = elim (Bool-cases (x == y)) [
  | inl equal ↦
      let is : x ≡ y = (==_iff x y).0 equal in
      counted (subst (λ z. Edits d (x ∷ a) (z ∷ b)) is (same x e)) (ground (arith, equal))
  | inr different ↦ counted (changed x y e) (ground (arith, different))
]

choose :
    {u l d : ℕ} {a b : List ℕ} (x y : ℕ)
    → Edits u a (y ∷ b)
    → Edits l (x ∷ a) b
    → Edits d a b
    → Edits (min (u + 1) (min (l + 1) (d + cost x y))) (x ∷ a) (y ∷ b)
choose {u = u} {l = l} {d = d} x y above left diagonal =
    elim (min_is (u + 1) (min (l + 1) (d + cost x y))) [
      | inl up ↦ counted (removed x above) (omega (arith, up))
      | inr rest ↦ elim (min_is (l + 1) (d + cost x y)) [
        | inl back ↦ counted (inserted y left) (omega (arith, rest, back))
        | inr across ↦ counted (one_cell x y diagonal) (sym (rest ∙ across))
      ]
    ]

-- The recursion's number of edits is enough, and the least that is.
edit-Edits : (a b : List ℕ) → Edits (edit a b) a b
unfolding edit
edit-Edits [] b = insert_all b
edit-Edits (x ∷ a) [] = remove_all (x ∷ a)
edit-Edits (x ∷ a) (y ∷ b) =
    choose x y (edit-Edits a (y ∷ b)) (edit-Edits (x ∷ a) b) (edit-Edits a b)

edit_insert : (a b : List ℕ) (y : ℕ) → edit a (y ∷ b) ≤ edit a b + 1
unfolding edit
edit_insert [] b y = omega arith
edit_insert (x ∷ a) b y = omega arith

edit_remove : (a b : List ℕ) (x : ℕ) → edit (x ∷ a) b ≤ edit a b + 1
unfolding edit
edit_remove [] [] x = omega arith
edit_remove (z ∷ a) [] x = omega arith
edit_remove a (y ∷ b) x = omega arith

edit_across : (a b : List ℕ) (x y : ℕ) → edit (x ∷ a) (y ∷ b) ≤ edit a b + cost x y
unfolding edit
edit_across a b x y = omega arith

edit_least : {n : ℕ} {a b : List ℕ} → Edits n a b → edit a b ≤ n
edit_least through = unfold edit in omega arith
edit_least (same {a = a} {b = b} x e) =
    ground (arith, edit_across a b x x, edit_least e, ==_iff x x)
edit_least (changed {a = a} {b = b} x y e) = ground (arith, edit_across a b x y, edit_least e)
edit_least (inserted {a = a} {b = b} y e) = omega (arith, edit_insert a b y, edit_least e)
edit_least (removed {a = a} {b = b} x e) = omega (arith, edit_remove a b x, edit_least e)

-- The edits of two strings are those of the strings read backwards.
onto-Edits :
    {n m : ℕ} {a b s t : List ℕ} → Edits n a b → Edits m s t → Edits (n + m) (onto a s) (onto b t)
onto-Edits through f = counted f (omega arith)
onto-Edits (same x e) f = onto-Edits e (same x f)
onto-Edits (changed x y e) f = counted (onto-Edits e (changed x y f)) (omega arith)
onto-Edits (inserted y e) f = counted (onto-Edits e (inserted y f)) (omega arith)
onto-Edits (removed x e) f = counted (onto-Edits e (removed x f)) (omega arith)

onto_back : (a s : List ℕ) → onto (onto a s) [] ≡ onto s a
onto_back [] s = refl
onto_back (x ∷ a) s = onto_back a (x ∷ s)

-- `Distance` is the edit distance: that many changed, inserted and removed runes make the second
-- string of the first, and no fewer do.
pub distance_least :
    (from to : List ℕ)
    → Edits (distance from to) from to × ((n : ℕ) → Edits n from to → distance from to ≤ n)
distance_least from to =
    let value = distance-edit from to in
    (
      subst₂ (Edits (distance from to)) (onto_back from []) (onto_back to []) (
          counted (onto-Edits (edit-Edits (onto from []) (onto to [])) through)
            (omega (arith, value))),
      λ n e. omega (arith, value, edit_least (onto-Edits e through)),
    )
