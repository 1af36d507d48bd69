-- ===== src/Prefix/Between.antt =====
-- internal/id/prefix.go: an id lies in the range of a prefix exactly when it has the prefix. The
-- range is read by the order of bytes, which is SQLite's on the ids of the runs.
use pulseq.Prelude.{
  ℕ, zero, suc, ◌+◌, ◌-◌, ◌≤◌, ◌<◌, ◌≡◌, ◌↔◌, refl, Bool, true, false, not, ◌&&◌, ◌||◌, List, [],
  ◌∷◌, ◌++◌, some, Option-cases, arith, ltb, ◌==◌, length, replicate, get_or, Bool-cases, inl, inr,
  subst,
}
use pulseq.Prefix.{
  Normalized, prefix, refused, upper_case, upper_cased, not_too_long, normalize_prefix, index_byte,
  carried, successor, range_of, letter, place,
}

-- `<` on texts.
abbrev pub below : List ℕ → List ℕ → Bool
below x [] = false
below [] (b ∷ y) = true
below (a ∷ x) (b ∷ y) = ltb a b || (a == b && below x y)

-- Whether a text begins with a prefix, and whether it comes behind all texts that do.
abbrev pub begins : List ℕ → List ℕ → Bool
begins [] x = true
begins (c ∷ p) [] = false
begins (c ∷ p) (d ∷ x) = c == d && begins p x

abbrev behind : List ℕ → List ℕ → Bool
behind [] x = false
behind (c ∷ p) [] = false
behind (c ∷ p) (d ∷ x) = ltb c d || (c == d && behind p x)

begins-behind : (p x : List ℕ) → begins p x ≡ true → behind p x ≡ false
begins-behind [] x h = refl
begins-behind (c ∷ p) [] h = refl
begins-behind (c ∷ p) (d ∷ x) h = ground (arith, begins-behind p x)

same_prefix : (p q : List ℕ) → prefix p ≡ prefix q → p ≡ q
same_prefix p q h = ground arith

-- The letters of a text are in the alphabet.
abbrev pub Spelt : List ℕ → List ℕ → Type 0
Spelt alphabet [] = Unit {0}
Spelt alphabet (c ∷ x) = ((i : ℕ) × (index_byte alphabet c ≡ some i)) × Spelt alphabet x

index_byte-get_or :
    (a : List ℕ) (c i : ℕ) → index_byte a c ≡ some i → (i < length a) × (get_or a i 0 ≡ c)
unfolding index_byte
index_byte-get_or [] c i h = absurd (ground (arith, h))
index_byte-get_or (b ∷ a) c i h = elim (Bool-cases (b == c)) [
  | inl here ↦
      let first : 0 ≡ i = ground (arith, h, here) in
      subst (λ k. (k < length (b ∷ a)) × (get_or (b ∷ a) k 0 ≡ c)) first
        (omega arith, ground (arith, here))
  | inr later ↦ elim (Option-cases (index_byte a c)) [
    | inl none_there ↦ absurd (ground (arith, h, later, none_there))
    | inr (j, found) ↦
        let at : suc j ≡ i = ground (arith, h, later, found) in
        let (less, is) = index_byte-get_or a c j found in
        subst (λ k. (k < length (b ∷ a)) × (get_or (b ∷ a) k 0 ≡ c)) at (omega (arith, less), is)
  ]
]

module _ (alphabet : List ℕ) (id_length : ℕ) (trim_space : List ℕ → List ℕ)
    (ascending : (i j : ℕ)
      → i < j
      → j < length alphabet
      → get_or alphabet i 0 < get_or alphabet j 0) where
  abbrev at : ℕ → ℕ
  at i = letter alphabet id_length trim_space i

  abbrev last : ℕ
  last = length alphabet - 1

  first_least : (c i : ℕ) → index_byte alphabet c ≡ some i → at 0 ≤ c
  first_least c zero h = let (less, is) = index_byte-get_or alphabet c 0 h in omega (arith, is)
  first_least c (suc i) h =
      let (less, is) = index_byte-get_or alphabet c (suc i) h in
      omega (arith, is, ascending 0 (suc i) (omega arith) less)

  last_greatest : (c i : ℕ) → index_byte alphabet c ≡ some i → c ≤ at last
  last_greatest c i h =
      let (less, is) = index_byte-get_or alphabet c i h in
      elim (Bool-cases (ltb i last)) [
        | inl before ↦
            let rises = ascending i last (ground (arith, before)) (omega (arith, less)) in
            omega (arith, is, rises)
        | inr at_end ↦
            let same : i ≡ last = ground (arith, at_end, less) in
            subst (λ k. c ≤ at k) same (omega (arith, is))
      ]

  -- The letter behind another one is above exactly the letters up to that one.
  next_above :
      (c i d j : ℕ)
      → index_byte alphabet c ≡ some i
      → index_byte alphabet d ≡ some j
      → i < last
      → ltb d (at (suc i)) ≡ not (ltb c d)
  next_above c i d j hc hd inside =
      let (less_c, is_c) = index_byte-get_or alphabet c i hc in
      let (less_d, is_d) = index_byte-get_or alphabet d j hd in
      let up : get_or alphabet i 0 < get_or alphabet (suc i) 0 =
        ascending i (suc i) (omega arith) (omega (arith, inside)) in
      elim (Bool-cases (ltb i j)) [
        | inl higher ↦ elim (Bool-cases (ltb (suc i) j)) [
          | inl far ↦
              let rises = ascending (suc i) j (ground (arith, far)) less_d in
              ground (arith, is_c, is_d, up, rises)
          | inr near ↦
              let same : suc i ≡ j = ground (arith, higher, near) in
              let is : get_or alphabet (suc i) 0 ≡ d = rw same is_d in ground (arith, is_c, is, up)
        ]
        | inr lower ↦ elim (Bool-cases (ltb j i)) [
          | inl under ↦
              let rises = ascending j i (ground (arith, under)) less_c in
              ground (arith, is_c, is_d, up, rises)
          | inr level ↦
              let same : i ≡ j = ground (arith, lower, level) in
              let is : get_or alphabet i 0 ≡ d = rw same is_d in ground (arith, is_c, is, up)
        ]
      ]

  -- Nothing is below a text of first letters, and an id is below one more than its width of last ones.
  padding_least :
      (x : List ℕ) (n : ℕ) → length x ≡ n → Spelt alphabet x → below x (replicate n (at 0)) ≡ false
  padding_least [] zero l s = refl
  padding_least [] (suc n) l s = absurd (omega (arith, l))
  padding_least (d ∷ x) zero l s = absurd (omega (arith, l))
  padding_least (d ∷ x) (suc n) l s =
      let (i, is) = s.0 in
      ground (arith, first_least d i is, padding_least x n (omega (arith, l)) s.1)

  ends_greatest :
      (x : List ℕ) (n : ℕ)
      → length x ≡ n
      → Spelt alphabet x
      → below x (replicate n (at last) ++ at 0 ∷ []) ≡ true
  ends_greatest [] zero l s = refl
  ends_greatest [] (suc n) l s = absurd (omega (arith, l))
  ends_greatest (d ∷ x) zero l s = absurd (omega (arith, l))
  ends_greatest (d ∷ x) (suc n) l s =
      let (i, is) = s.0 in
      ground (arith, last_greatest d i is, ends_greatest x n (omega (arith, l)) s.1)

  lower_bound :
      (p x : List ℕ) (n : ℕ)
      → length x ≡ length p + n
      → Spelt alphabet x
      → not (below x (p ++ replicate n (at 0))) ≡ (begins p x || behind p x)
  lower_bound [] x n l s = rw (padding_least x n (omega (arith, l)) s) refl
  lower_bound (c ∷ p) [] n l s = absurd (omega (arith, l))
  lower_bound (c ∷ p) (d ∷ x) n l s = ground (arith, lower_bound p x n (omega (arith, l)) s.1)

  -- Where the carry runs off the left, no text of letters comes behind the prefix, and the successor
  -- is the least of its width; else the texts below the successor are those that do not come behind.
  carried_bound :
      (p x : List ℕ) (n : ℕ)
      → length x ≡ length p + n
      → Spelt alphabet p
      → Spelt alphabet x
      → ((carried alphabet id_length trim_space p).0 ≡ true
          → (behind p x ≡ false)
            × (below x ((carried alphabet id_length trim_space p).1 ++ replicate n (at 0)) ≡ false))
        × ((carried alphabet id_length trim_space p).0 ≡ false
            → below x ((carried alphabet id_length trim_space p).1 ++ replicate n (at 0))
              ≡ not (behind p x))
  unfolding carried
  carried_bound [] x n l sp s =
      ((λ _. (refl, padding_least x n (omega (arith, l)) s)), (λ h. absurd (ground (arith, h))))
  carried_bound (c ∷ p) [] n l sp s = absurd (omega (arith, l))
  carried_bound (c ∷ p) (d ∷ x) n l sp s =
      let (i, hc) = sp.0 in
      let (j, hd) = s.0 in
      let (over, fine) = carried_bound p x n (omega (arith, l)) sp.1 s.1 in
      let placed : place alphabet id_length trim_space c ≡ i = rw (place, hc) refl in
      elim (Bool-cases (carried alphabet id_length trim_space p).0) [
        | inl runs_off ↦
            let (none_behind, none_below) = over runs_off in
            elim (Bool-cases (ltb i last)) [
              | inl inside ↦
                  let step = next_above c i d j hc hd (ground (arith, inside)) in
                  rw (carried, runs_off, placed, inside)
                    (
                      (λ h. absurd (ground (arith, h))),
                      (λ h. ground (arith, step, none_behind, none_below)),
                    )
              | inr at_end ↦
                  let (less, is) = index_byte-get_or alphabet c i hc in
                  let same : i ≡ last = ground (arith, at_end, less) in
                  let top : at last ≡ c = subst (λ k. at k ≡ c) same is in
                  let most = last_greatest d j hd in
                  let least = first_least d j hd in
                  rw (carried, runs_off, placed, at_end)
                    (
                      (λ h. (
                        ground (arith, none_behind, most, top),
                        ground (arith, none_below, least),
                      )),
                      (λ h. absurd (ground (arith, h))),
                    )
            ]
        | inr stays ↦
            let below_it = fine stays in
            rw (carried, stays) ((λ h. absurd (ground (arith, h))), (λ h. ground (arith, below_it)))
      ]

  -- The bounds of a prefix of letters that fits.
  bounds_of :
      (p x : List ℕ)
      → length p ≤ id_length
      → Spelt alphabet p
      → length x ≡ id_length
      → Spelt alphabet x
      → let r = range_of alphabet id_length trim_space p in
        (begins p x ≡ true) ↔ ((below x r.lower ≡ false) × (below x r.upper ≡ true))
  unfolding range_of successor
  bounds_of p x fits sp wide s =
      let n = id_length - length p in
      let l : length x ≡ length p + n = omega (arith, fits, wide) in
      let low = lower_bound p x n l s in
      let first = begins-behind p x in
      let (over, fine) = carried_bound p x n l sp s in
      elim (Bool-cases (carried alphabet id_length trim_space p).0) [
        | inl runs_off ↦
            let (none_behind, _) = over runs_off in
            let top = ends_greatest x id_length wide s in
            rw (range_of, successor, runs_off)
              ((λ h. (ground (arith, low, h), top)), (λ h. ground (arith, low, none_behind, h.0)))
        | inr stays ↦
            let below_it = fine stays in
            rw (range_of, successor, stays)
              (
                (λ h. (ground (arith, low, h), ground (arith, below_it, first h))),
                (λ h. ground (arith, low, below_it, h.0, h.1)),
              )
      ]

  upper_cased-Spelt :
      (i : ℕ) (t p : List ℕ)
      → upper_cased alphabet id_length trim_space i t ≡ prefix p
      → Spelt alphabet p
  unfolding upper_cased
  upper_cased-Spelt i [] p h = subst (Spelt alphabet) (same_prefix [] p h) tt
  upper_cased-Spelt i (c ∷ t) p h = elim (Option-cases (index_byte alphabet (upper_case c))) [
    | inl nowhere ↦ absurd (ground (arith, h, nowhere))
    | inr (k, found) ↦
        split k found (λ q e. upper_cased-Spelt (suc i) t q e)
          (upper_cased alphabet id_length trim_space (suc i) t) refl
  ]
    where
      split :
          (k : ℕ)
          → index_byte alphabet (upper_case c) ≡ some k
          → ((q : List ℕ)
              → upper_cased alphabet id_length trim_space (suc i) t ≡ prefix q
              → Spelt alphabet q)
          → (r : Normalized) → upper_cased alphabet id_length trim_space (suc i) t ≡ r
          → Spelt alphabet p
      split k found rest (prefix q) e =
          let same : upper_case c ∷ q ≡ p =
            same_prefix (upper_case c ∷ q) p (ground (arith, h, found, e)) in
          subst (Spelt alphabet) same ((k, found), rest q e)
      split k found rest (refused x) e = absurd (ground (arith, h, found, e))

  not_too_long-fits :
      (r : Normalized) (p : List ℕ)
      → not_too_long alphabet id_length trim_space r ≡ prefix p
      → (r ≡ prefix p) × (length p ≤ id_length)
  not_too_long-fits (refused e) p h = absurd (ground (arith, h))
  not_too_long-fits (prefix q) p h = elim (Bool-cases (ltb id_length (length q))) [
    | inl long ↦ absurd (ground (arith, h, long))
    | inr fits ↦
        let same : q ≡ p = same_prefix q p (ground (arith, h, fits)) in
        subst (λ x. (prefix q ≡ prefix x) × (length x ≤ id_length)) same
          (refl, ground (arith, fits))
  ]

  -- What `NormalizePrefix` answers is spelt in the alphabet, and no wider than an id.
  normalized-Spelt :
      (t p : List ℕ)
      → normalize_prefix alphabet id_length trim_space t ≡ prefix p
      → Spelt alphabet p × (length p ≤ id_length)
  unfolding normalize_prefix
  normalized-Spelt t p h = split (trim_space t) refl
    where
      split : (u : List ℕ) → trim_space t ≡ u → Spelt alphabet p × (length p ≤ id_length)
      split [] e = absurd (ground (arith, h, e))
      split (c ∷ rest) e =
          let (cased, fits) =
            not_too_long-fits (upper_cased alphabet id_length trim_space 0 (c ∷ rest)) p
              (let k = rw e at h in k) in
          (upper_cased-Spelt 0 (c ∷ rest) p cased, fits)

  -- Where the alphabet is ascending: an id, which is a text of letters as wide as ids are, lies in the range of a prefix
  -- that is accepted, not below the lower bound and below the upper one in the order of bytes, exactly when it begins
  -- with the normalised prefix.
  pub range_of_lem :
      (t p x : List ℕ)
      → normalize_prefix alphabet id_length trim_space t ≡ prefix p
      → length x ≡ id_length
      → Spelt alphabet x
      → let r = range_of alphabet id_length trim_space p in
        (begins p x ≡ true) ↔ ((below x r.lower ≡ false) × (below x r.upper ≡ true))
  range_of_lem t p x accepted wide s =
      let (sp, fits) = normalized-Spelt t p accepted in bounds_of p x fits sp wide s
