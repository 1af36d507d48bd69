-- ===== src/Suggest/Nearest.antt =====
-- What `Suggest` of internal/diag answers: a known name that no other is closer than.
use mathlib.Core.List.{Memᴰ}
use mathlib.Core.List.Memᴰ
use pulseq.Prelude.{
  ℕ, suc, ◌≤◌, ◌≡◌, ◌≢◌, refl, sym, ◌∙◌, ap, subst, List, [], ◌∷◌, none, some, Option, ◌↔◌, ◌⊎◌,
  inl, inr, arith, Bool-cases, ltb,
}
use pulseq.Suggest.{Name, max_distance, same_name, counted_distance, better, scan, suggest}

module _ (lower : Name → Name) (byte_len : Name → ℕ) (sort : List Name → List Name) where
  abbrev near : Name → Name → ℕ
  near = counted_distance lower byte_len sort

  -- The best of a state is the candidate that the last round looked at, or the one before.
  better_lem :
      (written c best : Name) (d : ℕ)
      → let (best', d') = better lower byte_len sort written c (best, d) in
        (((best' ≡ best) × (d' ≡ d)) ⊎ ((best' ≡ c) × (d' ≡ near written c) × (d' ≤ max_distance)))
        × (d' ≤ d)
        × ((near written c ≤ max_distance) → d' ≤ near written c)
  unfolding better
  better_lem written c best d = ground arith

  -- A best name with its distance comes from so many candidates, within the greatest distance.
  abbrev From : Name → List Name → Name → ℕ → Type 0
  From written cs b m = Memᴰ b cs × (m ≡ near written b) × (m ≤ max_distance)

  -- What the loop finds from a state on: the state's best or a candidate, and nothing closer.
  record Found (written : Name) (cs : List Name) (best : Name) (d : ℕ) (b : Name) (m : ℕ)
      : Type 0 where
    no_worse : m ≤ d
    nearest : (c : Name) → Memᴰ c cs → m ≤ near written c
    source : ((b ≡ best) × (m ≡ d)) ⊎ From written cs b m

  source_of :
      (written c : Name) (cs : List Name) (best best' b : Name) (d d' m : ℕ)
      → ((best' ≡ best) × (d' ≡ d)) ⊎ ((best' ≡ c) × (d' ≡ near written c) × (d' ≤ max_distance))
      → ((b ≡ best') × (m ≡ d')) ⊎ From written cs b m
      → ((b ≡ best) × (m ≡ d)) ⊎ From written (c ∷ cs) b m
  source_of written c cs best best' b d d' m which (inr (in_it, is, within)) =
      inr (Memᴰ.tail in_it, is, within)
  source_of written c cs best best' b d d' m (inl (same_best, same_d)) (inl (e, f)) =
      inl (e ∙ same_best, f ∙ same_d)
  source_of written c cs best best' b d d' m (inr (is_c, is_near, within)) (inl (e, f)) = inr (
    Memᴰ.head (e ∙ is_c),
    f ∙ is_near ∙ ap (near written) (sym (e ∙ is_c)),
    subst (λ z. z ≤ max_distance) (sym f) within,
  )

  nearest_of :
      (written c : Name) (cs : List Name) (best' b : Name) (d' m : ℕ) (x : Name)
      → d' ≤ suc max_distance
      → (near written c ≤ max_distance → d' ≤ near written c)
      → Found written cs best' d' b m
      → Memᴰ x (c ∷ cs)
      → m ≤ near written x
  nearest_of written c cs best' b d' m x far close later (Memᴰ.tail in_it) = later.nearest x in_it
  nearest_of written c cs best' b d' m x far close later (Memᴰ.head e) =
      subst (λ z. m ≤ near written z) (sym e)
        (let k = later.no_worse in
          elim (Bool-cases (ltb max_distance (near written c))) [
            | inl beyond ↦ ground arith
            | inr within ↦ ground (arith, close)
          ])

  scan-Found :
      (written : Name) (cs : List Name) (best : Name) (d : ℕ) (b : Name) (m : ℕ)
      → d ≤ suc max_distance
      → scan lower byte_len sort written cs (best, d) ≡ some (b, m)
      → Found written cs best d b m
  unfolding scan
  scan-Found written [] best d b m far h = record {
    no_worse = ground arith;
    nearest = λ c in_it. absurd (Memᴰ.not-nil in_it);
    source = inl (ground arith, ground arith);
  }
  scan-Found written (c ∷ cs) best d b m far h = elim (Bool-cases (same_name c written)) [
    | inl exact ↦ absurd (ground arith)
    | inr other ↦
        let next = better lower byte_len sort written c (best, d) in
        let (which, less, close) = better_lem written c best d in
        let far' : next.1 ≤ suc max_distance = ground arith in
        let later = scan-Found written cs next.0 next.1 b m far' (ground arith) in
        record {
          no_worse = ground (arith, later.no_worse);
          nearest = λ x in_it. nearest_of written c cs next.0 b next.1 m x far' close later in_it;
          source = source_of written c cs best next.0 b d next.1 m which later.source;
        }
  ]

  -- A suggestion, where there is one, is a known name that what was written is a beginning of or lies
  -- within the greatest distance of, and no known name counts as closer, if the sort keeps the names
  -- that it is given and adds none.
  pub suggest_nearest :
      (written : Name) (known : List Name)
      → ((c : Name) → Memᴰ c known ↔ Memᴰ c (sort known))
      → suggest lower byte_len sort written known ≢ []
      → let answer = suggest lower byte_len sort written known in
        Memᴰ answer known
        × (counted_distance lower byte_len sort written answer ≤ max_distance)
        × ((c : Name)
            → Memᴰ c known
            → counted_distance lower byte_len sort written answer
              ≤ counted_distance lower byte_len sort written c)
  unfolding suggest
  suggest_nearest written known sorted some_answer = split _ refl
    where
      split :
          (r : Option (Name × ℕ))
          → scan lower byte_len sort written (sort known) ([], suc max_distance) ≡ r
          → let answer = suggest lower byte_len sort written known in
            Memᴰ answer known
            × (near written answer ≤ max_distance)
            × ((c : Name) → Memᴰ c known → near written answer ≤ near written c)
      split none e = absurd (some_answer (ground arith))
      split (some (b, m)) e =
          let is : suggest lower byte_len sort written known ≡ b = ground arith in
          let k = scan-Found written (sort known) [] (suc max_distance) b m (omega arith) e in
          elim k.source [
            | inl (nothing, _) ↦ absurd (some_answer (is ∙ nothing))
            | inr (in_it, counts, within) ↦
                subst
                  (λ a.
                    Memᴰ a known
                    × (near written a ≤ max_distance)
                    × ((c : Name) → Memᴰ c known → near written a ≤ near written c))
                  (sym is)
                  (
                    (sorted b).1 in_it,
                    ground arith,
                    λ c there. let near_c = k.nearest c ((sorted c).0 there) in ground arith,
                  )
          ]
