-- ===== src/Spec/Duration.antt =====
-- internal/spec/duration.go: `ParseDuration` and `FormatDuration`. A text is its bytes and a duration its
-- milliseconds; int64 wraps around in products and sums. `strings.TrimSpace` is a parameter.
pub mod Checked
pub mod Decimal
pub mod Fuel
pub mod Parts
pub mod RoundTrip
pub mod Written
use pulseq.Prelude.{
  ℕ, zero, suc, ◌+◌, ◌-◌, ◌*◌, ◌/◌, ◌%◌, ◌^◌, Bool, true, false, not, ◌&&◌, ◌||◌, List, [], ◌∷◌,
  ◌++◌, length, if◌then◌else◌, leb, ltb, ◌==◌, Text, same_text,
}
use pulseq.Prelude.Int.{ℤ, pos, negsuc, wrap64}

-- The ways a text is no duration.
pub data NotDuration : Type 0 where
  empty outer_space signed inner_space no_number no_fraction fraction_long no_unit day_or_week
        unknown_unit too_long too_fine nothing :
      NotDuration

pub data Reading {ℓ} (A : Type ℓ) : Type ℓ where
  read : A → Reading A
  refused : NotDuration → Reading A

infixl 5 ◌>>=◌
abbrev pub ◌>>=◌ {ℓ κ} : {A : Type ℓ} {B : Type κ} → Reading A → (A → Reading B) → Reading B
read a >>= f = f a
refused e >>= f = refused e

-- `maxDurationMillis`: the greatest int64 over the nanoseconds of a millisecond.
abbrev pub max_duration_millis : ℕ
max_duration_millis = 9223372036854

-- `mulChecked`. The quotient of a negative product is not the positive `a`.
unfoldable pub mul_checked : ℕ → ℕ → Reading ℕ
unfolding wrap64
mul_checked a b = if a == 0 || b == 0 then read 0 else elim (wrap64 (pos (a * b))) [
  | negsuc _ ↦ refused too_long
  | pos product ↦
      if not (product / b == a) || ltb max_duration_millis product
      then refused too_long
      else read product
]

-- `addChecked`.
unfoldable pub add_checked : ℕ → ℕ → Reading ℕ
unfolding wrap64
add_checked a b = elim (wrap64 (pos (a + b))) [
  | negsuc _ ↦ refused too_long
  | pos sum ↦ if ltb sum a || ltb max_duration_millis sum then refused too_long else read sum
]

abbrev pub is_digit : ℕ → Bool
is_digit c = leb 48 c && leb c 57

unfoldable pub take_digits : Text → Text × Text
take_digits [] = ([], [])
take_digits (c ∷ rest) =
    let (digits, after) = take_digits rest in
    if is_digit c then (c ∷ digits, after) else ([], c ∷ rest)

-- `digitsValue`, from a value on.
unfoldable pub digits_value : ℕ → Text → Reading ℕ
unfolding mul_checked add_checked
digits_value value [] = read value
digits_value value (c ∷ rest) = mul_checked value 10 >>= λ shifted.
    add_checked shifted (c - 48) >>= λ next. digits_value next rest

-- `takeUnit`: the unit's milliseconds and what follows; ms is tried before s and m, then h.
abbrev unit_error : Text → NotDuration
unit_error [] = no_unit
unit_error (c ∷ []) = if c == 100 || c == 119 then day_or_week else unknown_unit
unit_error (c ∷ d ∷ _) =
    if (c == 100 || c == 119) && not (is_letter d) then day_or_week else unknown_unit
  where
    is_letter : ℕ → Bool
    is_letter x = (leb 97 x && leb x 122) || (leb 65 x && leb x 90)

abbrev pub starts_with : ℕ → Text → Bool
starts_with c [] = false
starts_with c (d ∷ _) = d == c

abbrev pub tail : Text → Text
tail [] = []
tail (_ ∷ rest) = rest

unfoldable pub take_unit : Text → Reading (ℕ × Text)
take_unit s =
    if starts_with 109 s && starts_with 115 (tail s)
    then read (1, tail (tail s))
    else if starts_with 115 s
    then read (1000, tail s)
    else if starts_with 109 s
    then read (60000, tail s)
    else if starts_with 104 s
    then read (3600000, tail s)
    else refused (unit_error s)

-- The digits behind a point.
unfoldable pub fraction_of : Text × Text → Reading (Text × Text)
fraction_of ([], _) = refused no_fraction
fraction_of (c ∷ digits, rest) =
    if ltb 9 (length (c ∷ digits)) then refused fraction_long else read (c ∷ digits, rest)

-- The fraction, if there is a point.
unfoldable pub take_fraction : Text → Reading (Text × Text)
unfolding take_digits fraction_of
take_fraction after =
    if starts_with 46 after then fraction_of (take_digits (tail after)) else read ([], after)

-- The milliseconds of a scaled value.
unfoldable pub unscale : ℕ → ℕ → Text → Reading (ℕ × Text)
unscale product scale after =
    if product % scale == 0 then read (product / scale, after) else refused too_fine

-- What follows the digits of `parseDurationPart`.
unfoldable pub part_of_number : Text × Text → Reading (ℕ × Text)
unfolding take_fraction take_unit digits_value mul_checked unscale
part_of_number ([], _) = refused no_number
part_of_number (c ∷ digits, after) = take_fraction after >>= λ fraction.
    take_unit fraction.1 >>= λ unit. digits_value 0 ((c ∷ digits) ++ fraction.0) >>= λ scaled.
    mul_checked scaled unit.0 >>= λ product. unscale product (10 ^ length fraction.0) unit.1

-- `parseDurationPart`.
unfoldable pub parse_duration_part : Text → Reading (ℕ × Text)
unfolding take_digits part_of_number
parse_duration_part rest = part_of_number (take_digits rest)

-- The loop of `ParseDuration`, on fuel: a part takes at least two bytes.
unfoldable pub parse_parts : ℕ → ℕ → Text → Reading ℕ
unfolding parse_duration_part add_checked
parse_parts fuel total [] = read total
parse_parts zero total (c ∷ rest) = refused no_number
parse_parts (suc fuel) total (c ∷ rest) = parse_duration_part (c ∷ rest) >>= λ part.
    add_checked total part.0 >>= λ next. parse_parts fuel next part.1

abbrev pub contains_space : Text → Bool
contains_space [] = false
contains_space (c ∷ rest) = c == 32 || c == 9 || contains_space rest

abbrev not_zero : ℕ → Reading ℕ
not_zero total = if total == 0 then refused nothing else read total

-- `ParseDuration`, in milliseconds.
unfoldable pub parse_duration : (Text → Text) → Text → Reading ℕ
unfolding parse_parts
parse_duration trim_space [] = refused empty
parse_duration trim_space (c ∷ text) =
    if not (same_text (trim_space (c ∷ text)) (c ∷ text))
    then refused outer_space
    else if c == 45 || c == 43
    then refused signed
    else if contains_space (c ∷ text)
    then refused inner_space
    else parse_parts (length (c ∷ text)) 0 (c ∷ text) >>= not_zero

-- The decimal digits of a number, in front of a text; the fuel is more than the number.
unfoldable pub decimal : ℕ → ℕ → Text → Text
decimal zero n text = text
decimal (suc fuel) n text =
    let longer = decimal fuel (n / 10) ((48 + n % 10) ∷ text) in
    if ltb n 10 then (48 + n) ∷ text else longer

abbrev pub units : List (ℕ × Text)
units = (3600000, 104 ∷ []) ∷ (60000, 109 ∷ []) ∷ (1000, 115 ∷ []) ∷ (1, 109 ∷ 115 ∷ []) ∷ []

-- The loop of `FormatDuration`.
unfoldable pub format_units : List (ℕ × Text) → ℕ → Text
unfolding decimal
format_units [] millis = []
format_units ((worth, suffix) ∷ rest) millis =
    let count = millis / worth in
    let later = format_units rest (millis - count * worth) in
    if ltb 0 count then decimal (suc count) count (suffix ++ later) else later

-- `FormatDuration`, of milliseconds.
unfoldable pub format_duration : ℕ → Text
unfolding format_units
format_duration millis = if millis == 0 then 48 ∷ 109 ∷ 115 ∷ [] else format_units units millis
