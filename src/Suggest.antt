-- ===== src/Suggest.antt =====
-- internal/diag/suggest.go: which known name a mistyped one is closest to. A string is its runes;
-- lowering the case, the sort and the length in bytes are parameters.
pub mod Distance
pub mod Nearest
use pulseq.Prelude.{
  ℕ, suc, Bool, true, false, ◌&&◌, ◌||◌, List, [], ◌∷◌, length, Option, none, some, if◌then◌else◌,
  ltb, ◌==◌,
}
use pulseq.Suggest.Distance.{distance}

abbrev pub Name : Type 0
Name = List ℕ

-- `MaxDistance`.
abbrev pub max_distance : ℕ
max_distance = 2

abbrev pub same_name : Name → Name → Bool
same_name [] [] = true
same_name (x ∷ a) (y ∷ b) = x == y && same_name a b
same_name _ _ = false

-- `strings.HasPrefix`.
abbrev pub has_prefix : Name → Name → Bool
has_prefix _ [] = true
has_prefix [] (y ∷ prefix) = false
has_prefix (x ∷ name) (y ∷ prefix) = x == y && has_prefix name prefix

abbrev is_empty : {A : Type 0} → List A → Bool
is_empty [] = true
is_empty _ = false

module _ (lower : Name → Name) (byte_len : Name → ℕ) (sort : List Name → List Name) where
  -- The distance that a candidate counts with: none, if it extends what was written.
  unfoldable pub counted_distance : Name → Name → ℕ
  counted_distance written candidate =
      if has_prefix (lower candidate) (lower written)
      then 0
      else distance (lower written) (lower candidate)

  -- One round of the loop, for a candidate that is not what was written: the best so far and its
  -- distance.
  unfoldable pub better : Name → Name → Name × ℕ → Name × ℕ
  unfolding counted_distance
  better written candidate (best, best_distance) =
      let d = counted_distance written candidate in
      if ltb max_distance d
      then (best, best_distance)
      else if ltb d best_distance
          || (d == best_distance && ltb (byte_len candidate) (byte_len best))
      then (candidate, d)
      else (best, best_distance)

  -- The loop, which an exact match ends with no suggestion.
  unfoldable pub scan : Name → List Name → Name × ℕ → Option (Name × ℕ)
  unfolding better
  scan written [] so_far = some so_far
  scan written (candidate ∷ rest) so_far =
      let later = scan written rest (better written candidate so_far) in
      if same_name candidate written then none else later

  abbrev name_of : Option (Name × ℕ) → Name
  name_of none = []
  name_of (some (best, d)) = best

  -- `Suggest`.
  unfoldable pub suggest : Name → List Name → Name
  unfolding scan
  suggest written known =
      if is_empty written || is_empty known
      then []
      else name_of (scan written (sort known) ([], suc max_distance))
