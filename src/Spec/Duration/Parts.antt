-- ===== src/Spec/Duration/Parts.antt =====
-- A number and its unit, as `FormatDuration` of internal/spec writes them, are one part that
-- `parseDurationPart` reads, and one round of `ParseDuration`.
use mathlib.Core.List.{append-nil}
use pulseq.Prelude.{
  Text, ℕ, zero, suc, ◌+◌, ◌*◌, ◌^◌, ◌≤◌, ◌≡◌, refl, sym, ◌∙◌, ap, subst, true, false, [], ◌∷◌,
  ◌++◌, length, length-append, Bool, arith, ltb, if◌then◌else◌, ◌==◌,
}
use pulseq.Spec.Duration.{
  read, is_digit, take_digits, take_fraction, take_unit, digits_value, unscale, parse_duration_part,
  part_of_number, parse_parts, decimal, max_duration_millis,
}
use pulseq.Spec.Duration.Checked.{add_checked_fits, mul_checked_fits}
use pulseq.Spec.Duration.Decimal.{
  digits_value-decimal, decimal-Digits, decimal-append, take_digits-append, decimal_cons,
}

-- A unit's letters in front of a text, the first of them apart.
pub record Suffixed (worth c : ℕ) (after later : Text) : Type 0 where
  pub reads : take_unit (c ∷ after) ≡ read (worth, later)
  pub no_digit : is_digit c ≡ false
  pub no_point : (c == 46) ≡ false
  pub shorter : length later ≤ length after

no_fraction_there :
    (c : ℕ) (after : Text) → (c == 46) ≡ false → take_fraction (c ∷ after) ≡ read ([], c ∷ after)
unfolding take_fraction
no_fraction_there c after h = rw h refl

unscale_whole : (p : ℕ) (after : Text) → unscale p (10 ^ 0) after ≡ read (p, after)
unfolding unscale
unscale_whole p after = ground arith

digits_value-written :
    (n d : ℕ) (ds : Text)
    → decimal (suc n) n [] ≡ d ∷ ds
    → n ≤ max_duration_millis
    → digits_value 0 ((d ∷ ds) ++ []) ≡ read n
unfolding digits_value
digits_value-written n d ds e h =
    ap (digits_value 0) (append-nil (d ∷ ds) ∙ sym e)
    ∙ digits_value-decimal (suc n) n [] (omega arith) h

-- A number and its unit are read as the part that they are.
part_of :
    (n worth c : ℕ) (after later : Text)
    → Suffixed worth c after later
    → n ≤ max_duration_millis
    → n * worth ≤ max_duration_millis
    → parse_duration_part (decimal (suc n) n (c ∷ after)) ≡ read (n * worth, later)
unfolding parse_duration_part part_of_number
part_of n worth c after later s small h =
    let (d, ds, e) = decimal_cons n n in
    let split : take_digits (decimal (suc n) n (c ∷ after)) ≡ (d ∷ ds, c ∷ after) =
      ap take_digits (decimal-append (suc n) n [] (c ∷ after))
      ∙ take_digits-append (decimal (suc n) n []) c after (decimal-Digits (suc n) n [] tt)
          s.no_digit
      ∙ ap (λ x. (x, c ∷ after)) e in
    rw
      (
        split,
        no_fraction_there c after s.no_point,
        s.reads,
        digits_value-written n d ds e small,
        mul_checked_fits n worth h,
      )
      (unscale_whole (n * worth) later)

-- One part that is read is one round of the loop.
parts_step :
    (fuel total p x : ℕ) (text xs rest : Text)
    → text ≡ x ∷ xs
    → parse_duration_part text ≡ read (p, rest)
    → total + p ≤ max_duration_millis
    → parse_parts (suc fuel) total text ≡ parse_parts fuel (total + p) rest
unfolding parse_parts
parts_step fuel total p x text xs rest e part h =
    let part' : parse_duration_part (x ∷ xs) ≡ read (p, rest) =
      subst (λ t. parse_duration_part t ≡ read (p, rest)) e part in
    rw (e, part', add_checked_fits total p h) refl

written_part :
    (worth c count total r : ℕ) (after later : Text)
    → Suffixed worth c after later
    → count ≤ max_duration_millis
    → total + count * worth ≤ max_duration_millis
    → ((fuel : ℕ) → length later ≤ fuel → parse_parts fuel (total + count * worth) later ≡ read r)
    → (fuel : ℕ) → length (decimal (suc count) count (c ∷ after)) ≤ fuel
    → parse_parts fuel total (decimal (suc count) count (c ∷ after)) ≡ read r
written_part worth c count total r after later s small h more fuel enough =
    let (d, ds, e) = decimal_cons count count in
    let whole : decimal (suc count) count (c ∷ after) ≡ d ∷ (ds ++ c ∷ after) =
      decimal-append (suc count) count [] (c ∷ after) ∙ ap (λ x. x ++ c ∷ after) e in
    let shorter = s.shorter in
    go fuel d (ds ++ c ∷ after) whole
      (omega (arith, enough, ap length whole, length-append ds (c ∷ after), shorter))
  where
    go :
        (fuel d : ℕ) (rest : Text)
        → decimal (suc count) count (c ∷ after) ≡ d ∷ rest
        → suc (length later) ≤ fuel
        → parse_parts fuel total (decimal (suc count) count (c ∷ after)) ≡ read r
    go zero d rest e less = absurd (omega (arith, less))
    go (suc fuel) d rest e less =
        parts_step fuel total (count * worth) d _ rest later e
          (part_of count worth c after later s small (omega (arith, h))) h
        ∙ more fuel (omega (arith, less))

-- A unit that counts nothing is not written.
pub written_unit :
    (worth c count total r : ℕ) (after later : Text)
    → Suffixed worth c after later
    → count ≤ max_duration_millis
    → total + count * worth ≤ max_duration_millis
    → ((fuel : ℕ) → length later ≤ fuel → parse_parts fuel (total + count * worth) later ≡ read r)
    → (fuel : ℕ)
    → length (if ltb 0 count then decimal (suc count) count (c ∷ after) else later) ≤ fuel
    → parse_parts fuel total (if ltb 0 count then decimal (suc count) count (c ∷ after) else later)
      ≡ read r
written_unit worth c count total r after later s small h more fuel = go (ltb 0 count) refl
  where
    go :
        (b : Bool)
        → ltb 0 count ≡ b
        → length (if b then decimal (suc count) count (c ∷ after) else later) ≤ fuel
        → parse_parts fuel total (if b then decimal (suc count) count (c ∷ after) else later)
          ≡ read r
    go true e enough = written_part worth c count total r after later s small h more fuel enough
    go false e enough =
        let nothing : count ≡ 0 = ground arith in
        let same : total + count * worth ≡ total =
          ap (λ n. total + n * worth) nothing ∙ omega arith in
        subst (λ t. parse_parts fuel t later ≡ read r) same (more fuel enough)
