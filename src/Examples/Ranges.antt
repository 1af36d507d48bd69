-- ===== src/Examples/Ranges.antt =====
-- The prefix ranges and the jump detector on concrete inputs.
use pulseq.Prelude.{
  ℕ, zero, suc, true, false, get_or, ◌<◌, ◌↔◌, ◌≡◌, refl, List, [], ◌∷◌, some, arith,
}
use pulseq.Prelude.Int.{pos}
use pulseq.Prefix.{range_of, successor, normalize_prefix, prefix, index_byte}
use pulseq.Prefix.Between.{range_of_lem, begins, below, Spelt}
use pulseq.Clock.{Detector}

-- Three letters, ids of four.
abbrev letters : List ℕ
letters = 65 ∷ 66 ∷ 67 ∷ []

abbrev as_typed : List ℕ → List ℕ
as_typed s = s

abbrev typed : List ℕ
typed = 65 ∷ 67 ∷ []

carries : successor letters 4 as_typed typed ≡ some (66 ∷ 65 ∷ [])
unfolding successor
carries = refl

rises : (i j : ℕ) → i < j → j < 3 → get_or letters i 0 < get_or letters j 0
rises zero zero a b = absurd (omega (arith, a))
rises zero (suc zero) a b = omega arith
rises zero (suc (suc zero)) a b = omega arith
rises (suc i) zero a b = absurd (omega (arith, a))
rises (suc zero) (suc zero) a b = absurd (omega (arith, a))
rises (suc zero) (suc (suc zero)) a b = omega arith
rises (suc (suc i)) (suc zero) a b = absurd (omega (arith, a))
rises (suc (suc i)) (suc (suc zero)) a b = absurd (omega (arith, a))
rises i (suc (suc (suc j))) a b = absurd (omega (arith, b))

-- An id that begins with the prefix.
abbrev an_id : List ℕ
an_id = 65 ∷ 67 ∷ 67 ∷ 66 ∷ []

accepted : normalize_prefix letters 4 as_typed typed ≡ prefix typed
unfolding normalize_prefix index_byte
accepted = refl

an_id-Spelt : Spelt letters an_id
unfolding index_byte
an_id-Spelt = ((0, refl), ((2, refl), ((2, refl), ((1, refl), tt))))

range_of_lem_example : (begins typed an_id ≡ true) ↔ (
    (below an_id (range_of letters 4 as_typed typed).lower ≡ false)
    × (below an_id (range_of letters 4 as_typed typed).upper ≡ true))
range_of_lem_example =
    range_of_lem letters 4 as_typed rises typed typed an_id accepted refl an_id-Spelt

abbrev detector : Detector
detector = record { threshold = pos 5; wall = pos 100; mark = pos 0 }
