-- ===== src/Examples/Suggestions.antt =====
-- The suggestions of internal/diag on names from the repository's own tests.
use mathlib.Core.List.{Memᴰ}
use pulseq.Prelude.{ℕ, ◌≤◌, ◌≢◌, ◌≡◌, refl, List, [], ◌∷◌, length}
use pulseq.Suggest.{Name, suggest, counted_distance}
use pulseq.Suggest.Distance.{distance}
use pulseq.Suggest.Distance.Edits.{Edits, distance_least}
use pulseq.Suggest.Nearest.{suggest_nearest}

-- The words kitten and smitten, rune by rune.
abbrev kitten : Name
kitten = 107 ∷ 105 ∷ 116 ∷ 116 ∷ 101 ∷ 110 ∷ []

abbrev smitten : Name
smitten = 115 ∷ 109 ∷ 105 ∷ 116 ∷ 116 ∷ 101 ∷ 110 ∷ []

two : distance kitten smitten ≡ 2
unfolding distance
two = refl

distance_least_example :
    Edits (distance kitten smitten) kitten smitten
    × ((n : ℕ) → Edits n kitten smitten → distance kitten smitten ≤ n)
distance_least_example = distance_least kitten smitten

-- The name rety, which is not among run and retry.
abbrev rety : Name
rety = 114 ∷ 101 ∷ 116 ∷ 121 ∷ []

abbrev fields : List Name
fields = (114 ∷ 117 ∷ 110 ∷ []) ∷ (114 ∷ 101 ∷ 116 ∷ 114 ∷ 121 ∷ []) ∷ []

abbrev as_written : Name → Name
as_written n = n

abbrev as_given : List Name → List Name
as_given ns = ns

suggests : suggest as_written length as_given rety fields ≡ 114 ∷ 101 ∷ 116 ∷ 114 ∷ 121 ∷ []
unfolding suggest distance
suggests = refl

some_answer : suggest as_written length as_given rety fields ≢ []
some_answer = rw suggests (λ e. cc)

suggest_nearest_example :
    Memᴰ (suggest as_written length as_given rety fields) fields
    × (counted_distance as_written length as_given rety
          (suggest as_written length as_given rety fields)
        ≤ 2)
    × ((c : Name)
        → Memᴰ c fields
        → counted_distance as_written length as_given rety
            (suggest as_written length as_given rety fields)
          ≤ counted_distance as_written length as_given rety c)
suggest_nearest_example =
    suggest_nearest as_written length as_given rety fields (λ c. (λ h. h, λ h. h)) some_answer
