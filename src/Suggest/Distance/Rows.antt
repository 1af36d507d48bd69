-- ===== src/Suggest/Distance/Rows.antt =====
-- The two rows of `Distance` of internal/diag hold the recursive edit distances of the prefixes.
use pulseq.Prelude.{ℕ, suc, ◌+◌, ◌≡◌, refl, sym, ◌∙◌, ap, List, [], ◌∷◌, length, get_or, min, arith}
use pulseq.Suggest.Distance.{count_up, cost, fill, rows, distance}

-- The edit distance by its recursion.
unfoldable pub edit : List ℕ → List ℕ → ℕ
edit [] b = length b
edit (x ∷ a) [] = suc (length a)
edit (x ∷ a) (y ∷ b) = min (edit a (y ∷ b) + 1) (min (edit (x ∷ a) b + 1) (edit a b + cost x y))

-- The distances of a string to the prefixes of another, which are read backwards.
abbrev more : List ℕ → List ℕ → List ℕ → List ℕ
more p seen [] = []
more p seen (y ∷ to) = edit p (y ∷ seen) ∷ more p (y ∷ seen) to

abbrev cells : List ℕ → List ℕ → List ℕ → List ℕ
cells p seen to = edit p seen ∷ more p seen to

abbrev pub onto : List ℕ → List ℕ → List ℕ
onto [] seen = seen
onto (x ∷ a) seen = onto a (x ∷ seen)

fill-cells :
    (x : ℕ) (p seen to : List ℕ)
    → fill x to (cells p seen to) (edit (x ∷ p) seen) ≡ more (x ∷ p) seen to
unfolding fill edit
fill-cells x p seen [] = refl
fill-cells x p seen (y ∷ to) = ap (λ r. edit (x ∷ p) (y ∷ seen) ∷ r) (fill-cells x p (y ∷ seen) to)

count_up-cells : (seen to : List ℕ) → count_up (length seen) to ≡ cells [] seen to
unfolding count_up edit
count_up-cells seen [] = refl
count_up-cells seen (y ∷ to) = ap (λ r. length seen ∷ r) (count_up-cells (y ∷ seen) to)

rows-cells :
    (from p to : List ℕ) → rows (suc (length p)) from to (cells p [] to) ≡ cells (onto from p) [] to
unfolding rows edit
rows-cells [] p to = refl
rows-cells (x ∷ from) p to =
    ap (λ r. rows (suc (suc (length p))) from to (suc (length p) ∷ r)) (fill-cells x p [] to)
    ∙ rows-cells from (x ∷ p) to

last_cell : (p seen to : List ℕ) → get_or (cells p seen to) (length to) 0 ≡ edit p (onto to seen)
last_cell p seen [] = refl
last_cell p seen (y ∷ to) = last_cell p (y ∷ seen) to

length-onto : (a seen : List ℕ) → length (onto a seen) ≡ length a + length seen
length-onto [] seen = omega arith
length-onto (x ∷ a) seen = omega (arith, length-onto a (x ∷ seen))

edit-nil : (p : List ℕ) → edit p [] ≡ length p
unfolding edit
edit-nil [] = refl
edit-nil (x ∷ p) = refl

-- The two rows compute the recursion, on both strings read backwards.
pub distance-edit : (from to : List ℕ) → distance from to ≡ edit (onto from []) (onto to [])
unfolding distance
distance-edit [] to = unfold edit in omega (arith, length-onto to [])
distance-edit (x ∷ from) [] =
    sym (edit-nil (onto from (x ∷ [])) ∙ omega (arith, length-onto from (x ∷ [])))
distance-edit (x ∷ from) (y ∷ to) =
    ap (λ r. get_or (rows 1 (x ∷ from) (y ∷ to) r) (length (y ∷ to)) 0) (count_up-cells [] (y ∷ to))
    ∙ ap (λ r. get_or r (length (y ∷ to)) 0) (rows-cells (x ∷ from) [] (y ∷ to))
    ∙ last_cell (onto (x ∷ from) []) [] (y ∷ to)
