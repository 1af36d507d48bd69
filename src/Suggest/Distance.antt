-- ===== src/Suggest/Distance.antt =====
-- internal/diag/suggest.go: `Distance`, the edit distance of two strings of runes, by two rows.
pub mod Rows
pub mod Edits
use pulseq.Prelude.{
  ℕ, zero, suc, ◌+◌, Bool, true, false, List, [], ◌∷◌, length, get_or, min, if◌then◌else◌, ◌==◌,
}

-- `previous[j] = j`, from one number on.
unfoldable pub count_up : ℕ → List ℕ → List ℕ
count_up i [] = i ∷ []
count_up i (y ∷ to) = i ∷ count_up (suc i) to

abbrev pub cost : ℕ → ℕ → ℕ
cost x y = if x == y then 0 else 1

-- The inner loop: `previous` from index `j - 1` on, and `current[j-1]`.
unfoldable pub fill : ℕ → List ℕ → List ℕ → ℕ → List ℕ
fill x (y ∷ to) (diagonal ∷ above ∷ rest) left =
    let here = min (above + 1) (min (left + 1) (diagonal + cost x y)) in
    here ∷ fill x to (above ∷ rest) here
fill x _ _ left = []

-- The outer loop, with the rows swapped behind each round.
unfoldable pub rows : ℕ → List ℕ → List ℕ → List ℕ → List ℕ
unfolding fill
rows i [] to previous = previous
rows i (x ∷ from) to previous = rows (suc i) from to (i ∷ fill x to previous i)

unfoldable pub distance : List ℕ → List ℕ → ℕ
unfolding rows count_up
distance [] to = length to
distance (x ∷ from) [] = length (x ∷ from)
distance (x ∷ from) (y ∷ to) =
    get_or (rows 1 (x ∷ from) (y ∷ to) (count_up 0 (y ∷ to))) (length (y ∷ to)) 0
