-- ===== src/Spec/Duration/Fuel.antt =====
-- The fuel of `ParseDuration` of internal/spec is enough: each part is shorter than what it is read from.
use pulseq.Prelude.{
  Text, ℕ, zero, suc, ◌+◌, ◌≤◌, ◌<◌, ◌≡◌, refl, ap, true, [], ◌∷◌, ◌++◌, length, Bool-cases, inl,
  inr, arith,
}
use pulseq.Spec.Duration.{
  Reading, read, refused, ◌>>=◌, is_digit, take_digits, take_fraction, fraction_of, part_of_number,
  take_unit, digits_value, mul_checked, unscale, parse_duration_part, parse_parts, add_checked,
  starts_with, tail,
}

length-take_digits : (t : Text) → length (take_digits t).0 + length (take_digits t).1 ≡ length t
unfolding take_digits
length-take_digits [] = omega arith
length-take_digits (c ∷ t) = elim (Bool-cases (is_digit c)) [
  | inl digit ↦ rw digit (omega (arith, length-take_digits t))
  | inr other ↦ rw other (omega arith)
]

length-tail : (t : Text) → length (tail t) ≤ length t
length-tail [] = omega arith
length-tail (c ∷ t) = omega arith

tail_shorter : (k : ℕ) (t : Text) → starts_with k t ≡ true → length (tail t) < length t
tail_shorter k [] h = absurd (ground arith)
tail_shorter k (c ∷ t) h = omega arith

take_unit_shorter :
    (s later : Text) (worth : ℕ) → take_unit s ≡ read (worth, later) → length later < length s
unfolding take_unit
take_unit_shorter s later worth h =
    ground (arith, tail_shorter 109 s, tail_shorter 115 s, tail_shorter 104 s, length-tail (tail s))

-- A chain of readings that answers is its parts.
>>=-read {ℓ κ} :
    {A : Type ℓ} {B : Type κ} (m : Reading A) (f : A → Reading B) (b : B)
    → (m >>= f) ≡ read b
    → (a : A) × (m ≡ read a) × (f a ≡ read b)
>>=-read (read a) f b h = (a, refl, h)
>>=-read (refused e) f b h = absurd (ground arith)

fraction_of_rest :
    (r : Text × Text) (digits after : Text) → fraction_of r ≡ read (digits, after) → r.1 ≡ after
unfolding fraction_of
fraction_of_rest ([], rest) digits after h = absurd (ground arith)
fraction_of_rest (c ∷ ds, rest) digits after h = ground arith

length-take_fraction :
    (t digits after : Text) → take_fraction t ≡ read (digits, after) → length after ≤ length t
unfolding take_fraction
length-take_fraction t digits after h = elim (Bool-cases (starts_with 46 t)) [
  | inr whole ↦ let same : t ≡ after = ground arith in omega (arith, ap length same)
  | inl point ↦
      let rest =
        fraction_of_rest (take_digits (tail t)) digits after (let k = rw point at h in k) in
      omega (arith, ap length rest, length-take_digits (tail t), length-tail t)
]

unscale_rest :
    (product scale p : ℕ) (after rest : Text)
    → unscale product scale after ≡ read (p, rest)
    → after ≡ rest
unfolding unscale
unscale_rest product scale p after rest h = ground arith

part_of_number_shorter :
    (r : Text × Text) (p : ℕ) (rest : Text)
    → part_of_number r ≡ read (p, rest)
    → length rest < length r.0 + length r.1
unfolding part_of_number
part_of_number_shorter ([], after) p rest h = absurd (ground arith)
part_of_number_shorter (c ∷ digits, after) p rest h =
    let (fraction, f, h1) = >>=-read (take_fraction after) _ (p, rest) h in
    let (unit, u, h2) = >>=-read (take_unit fraction.1) _ (p, rest) h1 in
    let (scaled, _, h3) = >>=-read (digits_value 0 ((c ∷ digits) ++ fraction.0)) _ (p, rest) h2 in
    let (product, _, h4) = >>=-read (mul_checked scaled unit.0) _ (p, rest) h3 in
    let same = unscale_rest product _ p unit.1 rest h4 in
    omega (
      arith,
      ap length same,
      take_unit_shorter fraction.1 unit.1 unit.0 u,
      length-take_fraction after fraction.0 fraction.1 f,
    )

part_shorter :
    (t rest : Text) (p : ℕ) → parse_duration_part t ≡ read (p, rest) → length rest < length t
unfolding parse_duration_part
part_shorter t rest p h =
    omega (arith, part_of_number_shorter (take_digits t) p rest h, length-take_digits t)

-- The loop answers the same with the length of the text as fuel and with any fuel above it, so it stops
-- at an error or at the end of the text, and never for want of fuel.
pub parse_parts_fuel :
    (fuel more total : ℕ) (t : Text)
    → length t ≤ fuel
    → length t ≤ more
    → parse_parts fuel total t ≡ parse_parts more total t
unfolding parse_parts
parse_parts_fuel fuel more total [] h k = refl
parse_parts_fuel zero more total (c ∷ t) h k = absurd (omega (arith, h))
parse_parts_fuel (suc fuel) zero total (c ∷ t) h k = absurd (omega (arith, k))
parse_parts_fuel (suc fuel) (suc more) total (c ∷ t) h k =
    go (parse_duration_part (c ∷ t)) refl (λ next rest shorter.
      parse_parts_fuel fuel more next rest (omega (arith, h, shorter)) (omega (arith, k, shorter)))
  where
    go :
        (r : Reading (ℕ × Text))
        → parse_duration_part (c ∷ t) ≡ r
        → ((next : ℕ) (rest : Text)
            → length rest < length (c ∷ t)
            → parse_parts fuel next rest ≡ parse_parts more next rest)
        → (r >>= λ part. add_checked total part.0 >>= λ next. parse_parts fuel next part.1)
          ≡ (r >>= λ part. add_checked total part.0 >>= λ next. parse_parts more next part.1)
    go (refused e) is again = refl
    go (read (p, rest)) is again = summed (add_checked total p)
      where
        summed :
            (s : Reading ℕ)
            → (s >>= λ next. parse_parts fuel next rest)
              ≡ (s >>= λ next. parse_parts more next rest)
        summed (refused e) = refl
        summed (read next) = again next rest (part_shorter (c ∷ t) rest p is)
