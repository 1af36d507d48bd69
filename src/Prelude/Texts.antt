-- ===== src/Prelude/Texts.antt =====
-- Texts as their bytes: the functions of Go's `strings` that the model uses on them.
use Prim.Native.Nat.{ℕ}
use mathlib.Core.Path.{◌≡◌, refl}
use mathlib.Core.Bool.{Bool, true, false, ◌&&◌}
use mathlib.Core.Option.{Option, none, some}
use mathlib.Core.List.{List, [], ◌∷◌, ◌++◌}
use native.Mathlib.Omega.{arith}
use pulseq.Prelude.Tests.{◌==◌, if◌then◌else◌}

abbrev pub Text : Type 0
Text = List ℕ

abbrev pub same_text : Text → Text → Bool
same_text [] [] = true
same_text (x ∷ a) (y ∷ b) = x == y && same_text a b
same_text _ _ = false

pub same_text_refl : (t : Text) → same_text t t ≡ true
same_text_refl [] = refl
same_text_refl (c ∷ t) = ground (arith, same_text_refl t)

pub same_text_sound : (s t : Text) → same_text s t ≡ true → s ≡ t
same_text_sound [] [] h = refl
same_text_sound [] (y ∷ t) h = cc
same_text_sound (x ∷ s) [] h = cc
same_text_sound (x ∷ s) (y ∷ t) h = ground (arith, same_text_sound s t)

-- `strings.Cut` at a byte: what is before and behind the first one, if there is one.
unfoldable pub cut : ℕ → Text → Option (Text × Text)
cut sep [] = none
cut sep (c ∷ text) =
    let later = cut sep text in
    if c == sep
    then some ([], text)
    else elim later [ none ↦ none | some (before, behind) ↦ some (c ∷ before, behind) ]

-- Texts without a byte.
abbrev pub Without : ℕ → Text → Type 0
Without sep [] = Unit {0}
Without sep (c ∷ text) = ((c == sep) ≡ false) × Without sep text

pub cut-append :
    (sep : ℕ) (before behind : Text)
    → Without sep before
    → cut sep (before ++ sep ∷ behind) ≡ some (before, behind)
unfolding cut
cut-append sep [] behind h = ground arith
cut-append sep (c ∷ before) behind h = rw (h.0, cut-append sep before behind h.1) refl

pub cut-none : (sep : ℕ) (text : Text) → Without sep text → cut sep text ≡ none
unfolding cut
cut-none sep [] h = refl
cut-none sep (c ∷ text) h = rw (h.0, cut-none sep text h.1) refl
