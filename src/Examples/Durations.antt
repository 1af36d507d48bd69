-- ===== src/Examples/Durations.antt =====
-- Durations as job files write them, from the repository's own tests.
use pulseq.Prelude.{Text, ◌≡◌, refl, [], ◌∷◌, arith}
use pulseq.Spec.Duration.{read, refused, parse_duration, format_duration, no_unit, too_fine}
use pulseq.Spec.Duration.Written.{parse_duration-format_duration}

abbrev untrimmed : Text → Text
untrimmed t = t

-- 1h30m.
abbrev ninety_minutes : Text
ninety_minutes = 49 ∷ 104 ∷ 51 ∷ 48 ∷ 109 ∷ []

parses : parse_duration untrimmed ninety_minutes ≡ read 5400000
unfolding parse_duration
parses = refl

formats : format_duration 5400000 ≡ ninety_minutes
unfolding format_duration
formats = refl

-- 1.5s, 30 without a unit, and 0.0001s.
parses_fraction : parse_duration untrimmed (49 ∷ 46 ∷ 53 ∷ 115 ∷ []) ≡ read 1500
unfolding parse_duration
parses_fraction = refl

refuses_bare : parse_duration untrimmed (51 ∷ 48 ∷ []) ≡ refused no_unit
unfolding parse_duration
refuses_bare = refl

refuses_fine : parse_duration untrimmed (48 ∷ 46 ∷ 48 ∷ 48 ∷ 48 ∷ 49 ∷ 115 ∷ []) ≡ refused too_fine
unfolding parse_duration
refuses_fine = refl

parse_duration-format_duration_example :
    parse_duration untrimmed (format_duration 5400000) ≡ read 5400000
parse_duration-format_duration_example =
    parse_duration-format_duration untrimmed 5400000 (λ t h. refl) (ground arith) (ground arith)
