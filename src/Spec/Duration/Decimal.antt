-- ===== src/Spec/Duration/Decimal.antt =====
-- The decimal digits that `FormatDuration` of internal/spec writes are read back by `takeDigits` and
-- `digitsValue`.
use pulseq.Prelude.{
  Text, ℕ, zero, suc, ◌+◌, ◌-◌, ◌*◌, ◌/◌, ◌%◌, ◌≤◌, ◌<◌, ◌≡◌, refl, ◌∙◌, ap, true, false, [], ◌∷◌,
  ◌++◌, Bool-cases, inl, inr, arith, ltb,
}
use pulseq.Spec.Duration.{is_digit, take_digits, digits_value, decimal, max_duration_millis}
use pulseq.Spec.Duration.Checked.{add_checked_fits, mul_checked_fits}

-- One digit more is the value's next one.
digit_value :
    (v d : ℕ) (text : Text)
    → v * 10 + d ≤ max_duration_millis
    → digits_value v ((48 + d) ∷ text) ≡ digits_value (v * 10 + d) text
unfolding digits_value
digit_value v d text h =
    let back : 48 + d - 48 ≡ d = omega arith in
    rw (mul_checked_fits v 10 (omega (arith, h)), back, add_checked_fits (v * 10) d h) refl

pub digits_value-decimal :
    (fuel n : ℕ) (text : Text)
    → n < fuel
    → n ≤ max_duration_millis
    → digits_value 0 (decimal fuel n text) ≡ digits_value n text
unfolding decimal
digits_value-decimal zero n text more h = absurd (omega (arith, more))
digits_value-decimal (suc fuel) n text more h = elim (Bool-cases (ltb n 10)) [
  | inl small ↦
      rw small
        (digit_value 0 n text (omega (arith, h)) ∙ ap (λ v. digits_value v text) (omega arith))
  | inr large ↦
      let ten : 10 ≤ n = ground arith in
      rw large (
        digits_value-decimal fuel (n / 10) ((48 + n % 10) ∷ text) (omega (arith, more, ten))
          (omega (arith, h))
        ∙ digit_value (n / 10) (n % 10) text (omega (arith, h))
        ∙ ap (λ v. digits_value v text) (omega arith))
]

-- Texts of digits.
abbrev pub Digits : Text → Type 0
Digits [] = Unit {0}
Digits (c ∷ text) = (is_digit c ≡ true) × Digits text

pub decimal-Digits : (fuel n : ℕ) (text : Text) → Digits text → Digits (decimal fuel n text)
unfolding decimal
decimal-Digits zero n text h = h
decimal-Digits (suc fuel) n text h = elim (Bool-cases (ltb n 10)) [
  | inl small ↦ rw small (ground arith, h)
  | inr large ↦ rw large (decimal-Digits fuel (n / 10) ((48 + n % 10) ∷ text) (ground arith, h))
]

-- What is written in front of a text stays in front of a longer one.
pub decimal-append :
    (fuel n : ℕ) (text more : Text) → decimal fuel n (text ++ more) ≡ decimal fuel n text ++ more
unfolding decimal
decimal-append zero n text more = refl
decimal-append (suc fuel) n text more = elim (Bool-cases (ltb n 10)) [
  | inl small ↦ rw small refl
  | inr large ↦ rw large (decimal-append fuel (n / 10) ((48 + n % 10) ∷ text) more)
]

-- The digits in front of a text that begins with none are taken off it.
pub take_digits-append :
    (digits : Text) (c : ℕ) (after : Text)
    → Digits digits
    → is_digit c ≡ false
    → take_digits (digits ++ c ∷ after) ≡ (digits, c ∷ after)
unfolding take_digits
take_digits-append [] c after h none_more = rw none_more refl
take_digits-append (d ∷ digits) c after h none_more =
    rw (take_digits-append digits c after h.1 none_more, h.0) refl

-- A number in front of a text leaves no empty text.
decimal_full :
    (fuel n c : ℕ) (text : Text) → (d : ℕ) × (ds : Text) × (decimal fuel n (c ∷ text) ≡ d ∷ ds)
unfolding decimal
decimal_full zero n c text = (c, text, refl)
decimal_full (suc fuel) n c text = elim (Bool-cases (ltb n 10)) [
  | inl small ↦ (48 + n, c ∷ text, rw small refl)
  | inr large ↦
      let (d, ds, e) = decimal_full fuel (n / 10) (48 + n % 10) (c ∷ text) in (d, ds, rw large e)
]

pub decimal_cons : (fuel n : ℕ) → (d : ℕ) × (ds : Text) × (decimal (suc fuel) n [] ≡ d ∷ ds)
unfolding decimal
decimal_cons fuel n = elim (Bool-cases (ltb n 10)) [
  | inl small ↦ (48 + n, [], rw small refl)
  | inr large ↦ let (d, ds, e) = decimal_full fuel (n / 10) (48 + n % 10) [] in (d, ds, rw large e)
]
