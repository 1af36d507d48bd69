-- ===== src/Prefix.antt =====
-- internal/id/prefix.go: prefixes of run ids and the range of ids that share one. A text is its
-- bytes; the alphabet and the length of an id are the ulid library's, `strings.TrimSpace` is the
-- standard library's, and all three are parameters.
pub mod Between
use pulseq.Prelude.{
  ℕ, zero, suc, ◌+◌, ◌-◌, Bool, true, false, ◌&&◌, List, [], ◌∷◌, ◌++◌, Option, none, some,
  if◌then◌else◌, ltb, leb, ◌==◌, length, replicate, get_or,
}

-- Why a prefix is refused.
pub data Refusal : Type 0 where
  empty_prefix : Refusal
  not_in_alphabet : ℕ → Refusal
  too_long : ℕ → Refusal

pub data Normalized : Type 0 where
  prefix : List ℕ → Normalized
  refused : Refusal → Normalized

-- `Range`: the half-open interval of ids.
pub record IdRange : Type 0 where
  pub lower : List ℕ
  pub upper : List ℕ

-- `strings.IndexByte`.
unfoldable pub index_byte : List ℕ → ℕ → Option ℕ
index_byte [] c = none
index_byte (a ∷ rest) c =
    let later = index_byte rest c in
    if a == c then some 0 else elim later [ none ↦ none | some i ↦ some (suc i) ]

-- `c -= 'a' - 'A'` on a lower case letter.
abbrev pub upper_case : ℕ → ℕ
upper_case c = if leb 97 c && leb c 122 then c - 32 else c

module _ (alphabet : List ℕ) (id_length : ℕ) (trim_space : List ℕ → List ℕ) where
  -- The loop of `NormalizePrefix` from a position on.
  unfoldable pub upper_cased : ℕ → List ℕ → Normalized
  unfolding index_byte
  upper_cased i [] = prefix []
  upper_cased i (c ∷ rest) =
      let later = upper_cased (suc i) rest in
      elim (index_byte alphabet (upper_case c)) [
        | none ↦ refused (not_in_alphabet i)
        | some _ ↦ elim later [ prefix p ↦ prefix (upper_case c ∷ p) | refused e ↦ refused e ]
      ]

  -- The check of the length behind the loop.
  abbrev pub not_too_long : Normalized → Normalized
  not_too_long (refused e) = refused e
  not_too_long (prefix p) =
      if ltb id_length (length p) then refused (too_long (length p)) else prefix p

  -- `NormalizePrefix`.
  unfoldable pub normalize_prefix : List ℕ → Normalized
  unfolding upper_cased
  normalize_prefix s = from_typed (trim_space s)
    where
      from_typed : List ℕ → Normalized
      from_typed [] = refused empty_prefix
      from_typed (c ∷ rest) = not_too_long (upper_cased 0 (c ∷ rest))

  abbrev pub letter : ℕ → ℕ
  letter i = get_or alphabet i 0

  -- The place of a letter, 0 for a byte that is none.
  abbrev pub place : ℕ → ℕ
  place c = elim (index_byte alphabet c) [ none ↦ 0 | some i ↦ i ]

  -- The loop of `successor` over a suffix: the new suffix, and whether its carry ran off the left.
  unfoldable pub carried : List ℕ → Bool × List ℕ
  unfolding index_byte
  carried [] = (true, [])
  carried (c ∷ rest) =
      let (carry, next) = carried rest in
      if carry
      then if ltb (place c) (length alphabet - 1)
        then (false, letter (suc (place c)) ∷ next)
        else (true, letter 0 ∷ next)
      else (false, c ∷ next)

  -- `successor`.
  unfoldable pub successor : List ℕ → Option (List ℕ)
  unfolding carried
  successor p = if (carried p).0 then none else some (carried p).1

  -- `PrefixRange` on a prefix that is normalised.
  unfoldable pub range_of : List ℕ → IdRange
  unfolding successor
  range_of p =
      let pad = replicate (id_length - length p) (letter 0) in
      elim (successor p) [
        | some next ↦ record { lower = p ++ pad; upper = next ++ pad }
        | none ↦ record {
          lower = p ++ pad;
          upper = replicate id_length (letter (length alphabet - 1)) ++ letter 0 ∷ [];
        }
      ]
