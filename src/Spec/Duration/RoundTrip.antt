-- ===== src/Spec/Duration/RoundTrip.antt =====
-- What `FormatDuration` of internal/spec writes, `ParseDuration` reads back.
use pulseq.Prelude.{
  Text, ℕ, suc, ◌+◌, ◌-◌, ◌*◌, ◌/◌, ◌≤◌, ◌≡◌, refl, ◌∙◌, ap, subst, false, List, [], ◌∷◌, ◌++◌,
  length, Bool-cases, inl, inr, arith, ltb,
}
use pulseq.Spec.Duration.{
  read, is_digit, take_unit, parse_parts, decimal, format_units, units, max_duration_millis,
  starts_with,
}
use pulseq.Spec.Duration.Decimal.{Digits, decimal-Digits, decimal-append, decimal_cons}
use pulseq.Spec.Duration.Parts.{Suffixed, written_unit}

-- What is written begins with a digit, if with anything.
pub no_other :
    (k : ℕ)
    → is_digit k ≡ false
    → (us : List (ℕ × Text)) (millis : ℕ) → starts_with k (format_units us millis) ≡ false
unfolding format_units
no_other k other [] millis = refl
no_other k other ((worth, suffix) ∷ us) millis = elim (Bool-cases (ltb 0 (millis / worth))) [
  | inr nothing ↦ rw nothing (no_other k other us (millis - millis / worth * worth))
  | inl some_of ↦
      let count = millis / worth in
      let later = format_units us (millis - count * worth) in
      let (d, ds, e) = decimal_cons count count in
      let digits : Digits (d ∷ ds) = subst Digits e (decimal-Digits (suc count) count [] tt) in
      let whole : decimal (suc count) count (suffix ++ later) ≡ d ∷ (ds ++ (suffix ++ later)) =
        decimal-append (suc count) count [] (suffix ++ later)
        ∙ ap (λ x. x ++ (suffix ++ later)) e in
      rw (some_of, whole) (ground (arith, digits.0))
]

abbrev from_millis : List (ℕ × Text)
from_millis = (1, 109 ∷ 115 ∷ []) ∷ []

abbrev from_seconds : List (ℕ × Text)
from_seconds = (1000, 115 ∷ []) ∷ from_millis

abbrev from_minutes : List (ℕ × Text)
from_minutes = (60000, 109 ∷ []) ∷ from_seconds

hours_Suffixed : (later : Text) → Suffixed 3600000 104 later later
unfolding take_unit
hours_Suffixed later = record {
  reads = refl;
  no_digit = refl;
  no_point = refl;
  shorter = omega arith;
}

minutes_Suffixed : (later : Text) → starts_with 115 later ≡ false → Suffixed 60000 109 later later
unfolding take_unit
minutes_Suffixed later plain = record {
  reads = rw plain refl;
  no_digit = refl;
  no_point = refl;
  shorter = omega arith;
}

seconds_Suffixed : (later : Text) → Suffixed 1000 115 later later
unfolding take_unit
seconds_Suffixed later = record {
  reads = refl;
  no_digit = refl;
  no_point = refl;
  shorter = omega arith;
}

millis_Suffixed : (later : Text) → Suffixed 1 109 (115 ∷ later) later
unfolding take_unit
millis_Suffixed later = record {
  reads = refl;
  no_digit = refl;
  no_point = refl;
  shorter = omega arith;
}

-- The units from each one on, over what the greater ones leave.
read_millis :
    (m total fuel : ℕ)
    → total + m ≤ max_duration_millis
    → length (format_units from_millis m) ≤ fuel
    → parse_parts fuel total (format_units from_millis m) ≡ read (total + m)
unfolding format_units parse_parts
read_millis m total fuel h enough =
    let whole : m / 1 ≡ m = omega arith in
    written_unit 1 109 (m / 1) total (total + m) (115 ∷ []) [] (millis_Suffixed [])
      (omega (arith, h)) (omega (arith, h)) (λ f _. ap read (omega arith)) fuel enough

read_seconds :
    (m total fuel : ℕ)
    → total + m ≤ max_duration_millis
    → length (format_units from_seconds m) ≤ fuel
    → parse_parts fuel total (format_units from_seconds m) ≡ read (total + m)
unfolding format_units
read_seconds m total fuel h enough =
    let n = m / 1000 in
    written_unit 1000 115 n total (total + m) _ _ (seconds_Suffixed _) (omega (arith, h))
      (omega (arith, h))
      (λ f less.
        read_millis (m - n * 1000) (total + n * 1000) f (omega (arith, h)) less
        ∙ ap read (omega arith))
      fuel enough

read_minutes :
    (m total fuel : ℕ)
    → total + m ≤ max_duration_millis
    → length (format_units from_minutes m) ≤ fuel
    → parse_parts fuel total (format_units from_minutes m) ≡ read (total + m)
unfolding format_units
read_minutes m total fuel h enough =
    let n = m / 60000 in
    written_unit 60000 109 n total (total + m) _ _
      (minutes_Suffixed _ (no_other 115 refl from_seconds (m - n * 60000))) (omega (arith, h))
      (omega (arith, h))
      (λ f less.
        read_seconds (m - n * 60000) (total + n * 60000) f (omega (arith, h)) less
        ∙ ap read (omega arith))
      fuel enough

pub read_units :
    (m fuel : ℕ)
    → m ≤ max_duration_millis
    → length (format_units units m) ≤ fuel
    → parse_parts fuel 0 (format_units units m) ≡ read m
unfolding format_units
read_units m fuel h enough =
    let n = m / 3600000 in
    written_unit 3600000 104 n 0 m _ _ (hours_Suffixed _) (omega (arith, h)) (omega (arith, h))
      (λ f less.
        read_minutes (m - n * 3600000) (0 + n * 3600000) f (omega (arith, h)) less
        ∙ ap read (omega arith))
      fuel enough
