-- ===== src/Spec/Duration/Written.antt =====
-- `ParseDuration` of internal/spec accepts what `FormatDuration` writes, and reads the same duration.
use pulseq.Prelude.{
  same_text_refl, Text, ℕ, suc, zero, ◌+◌, ◌-◌, ◌*◌, ◌/◌, ◌%◌, ◌≤◌, ◌<◌, ◌≡◌, ◌≢◌, refl, subst,
  false, List, [], ◌∷◌, ◌++◌, length, Bool-cases, inl, inr, arith, ltb, ◌==◌,
}
use pulseq.Spec.Duration.{
  read, parse_parts, decimal, format_units, units, format_duration, parse_duration,
  max_duration_millis, starts_with, contains_space,
}
use pulseq.Spec.Duration.RoundTrip.{read_units, no_other}

-- A text of visible ASCII letters, of which no space is trimmed.
abbrev pub Visible : Text → Type 0
Visible [] = Unit {0}
Visible (c ∷ text) = (32 < c) × (c < 127) × Visible text

decimal-Visible : (fuel n : ℕ) (text : Text) → Visible text → Visible (decimal fuel n text)
unfolding decimal
decimal-Visible zero n text h = h
decimal-Visible (suc fuel) n text h = elim (Bool-cases (ltb n 10)) [
  | inl small ↦ rw small (ground arith, ground arith, h)
  | inr large ↦
      rw large (decimal-Visible fuel (n / 10) ((48 + n % 10) ∷ text) (omega arith, omega arith, h))
]

append-Visible : (s t : Text) → Visible s → Visible t → Visible (s ++ t)
append-Visible [] t h k = k
append-Visible (c ∷ s) t (low, high, h) k = (low, high, append-Visible s t h k)

abbrev VisibleUnits : List (ℕ × Text) → Type 0
VisibleUnits [] = Unit {0}
VisibleUnits ((worth, suffix) ∷ us) = Visible suffix × VisibleUnits us

format_units-Visible :
    (us : List (ℕ × Text)) (m : ℕ) → VisibleUnits us → Visible (format_units us m)
unfolding format_units
format_units-Visible [] m h = tt
format_units-Visible ((worth, suffix) ∷ us) m (shown, h) =
    let count = m / worth in
    let later = format_units us (m - count * worth) in
    let rest = format_units-Visible us (m - count * worth) h in
    elim (Bool-cases (ltb 0 count)) [
      | inl some_of ↦ rw some_of (
          decimal-Visible (suc count) count (suffix ++ later)
            (append-Visible suffix later shown rest))
      | inr nothing ↦ rw nothing rest
    ]

contains_space-Visible : (t : Text) → Visible t → contains_space t ≡ false
contains_space-Visible [] h = refl
contains_space-Visible (c ∷ t) (low, high, h) = ground (arith, contains_space-Visible t h)

not_nothing : (m : ℕ) → 0 < m → (m == 0) ≡ false
not_nothing m h = ground arith

accepted :
    (trim_space : Text → Text) (m c : ℕ) (text : Text)
    → 0 < m
    → trim_space (c ∷ text) ≡ c ∷ text
    → (c == 45) ≡ false
    → (c == 43) ≡ false
    → contains_space (c ∷ text) ≡ false
    → parse_parts (length (c ∷ text)) 0 (c ∷ text) ≡ read m
    → parse_duration trim_space (c ∷ text) ≡ read m
unfolding parse_duration
accepted trim_space m c text some_of trims minus plus spaces reads =
    rw (trims, same_text_refl (c ∷ text), minus, plus, spaces, reads, not_nothing m some_of) refl

nothing_written : (m : ℕ) → 0 < m → m ≤ max_duration_millis → format_units units m ≢ []
unfolding parse_parts
nothing_written m some_of h e =
    let k = subst (λ t. parse_parts 0 0 t ≡ read m) e (read_units m 0 h (rw e (omega arith))) in
    ground arith

-- A duration of at least a millisecond that `ParseDuration` counts, written by `FormatDuration`, is read
-- back as it was, if trimming the space off a text of visible ASCII letters leaves it alone.
pub parse_duration-format_duration :
    (trim_space : Text → Text) (m : ℕ)
    → ((t : Text) → Visible t → trim_space t ≡ t)
    → 0 < m
    → m ≤ max_duration_millis
    → parse_duration trim_space (format_duration m) ≡ read m
unfolding format_duration
parse_duration-format_duration trim_space m trims some_of h =
    rw (not_nothing m some_of) (go (format_units units m) refl)
  where
    go :
        (t : Text)
        → format_units units m ≡ t
        → parse_duration trim_space (format_units units m) ≡ read m
    go [] e = absurd (nothing_written m some_of h e)
    go (c ∷ text) e =
        let shown : Visible (c ∷ text) =
          subst Visible e (format_units-Visible units m (ground arith)) in
        rw e (
          accepted trim_space m c text some_of (trims (c ∷ text) shown)
            (subst (λ t. starts_with 45 t ≡ false) e (no_other 45 refl units m))
            (subst (λ t. starts_with 43 t ≡ false) e (no_other 43 refl units m))
            (contains_space-Visible (c ∷ text) shown)
            (subst (λ t. parse_parts (length t) 0 t ≡ read m) e
              (read_units m (length (format_units units m)) h (omega arith))))
