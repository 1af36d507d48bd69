-- ===== src/Store/Table.antt =====
-- A table as the list of its rows, with the lookup and the update of the rows that a test selects:
-- what `SELECT ... WHERE` and `UPDATE ... WHERE` do on a table with a primary key.
use pulseq.Prelude.{
  Bool, true, false, ◌&&◌, ◌≡◌, refl, List, [], ◌∷◌, ◌++◌, Option, none, some, arith, if◌then◌else◌,
}

module _ {R : Type 0} where
  -- The first row that the test selects.
  unfoldable pub find : (R → Bool) → List R → Option R
  find p [] = none
  find p (r ∷ rows) = if p r then some r else find p rows

  -- Every row that the test selects, changed.
  unfoldable pub update : (R → Bool) → (R → R) → List R → List R
  update p f [] = []
  update p f (r ∷ rows) = (if p r then f r else r) ∷ update p f rows

  unfoldable pub select : (R → Bool) → List R → List R
  select p [] = []
  select p (r ∷ rows) = if p r then r ∷ select p rows else select p rows

  abbrev pub apply_some : (R → R) → Option R → Option R
  apply_some f none = none
  apply_some f (some r) = some (f r)

  pub find_sound : (p : R → Bool) (rows : List R) (r : R) → find p rows ≡ some r → p r ≡ true
  unfolding find
  find_sound p [] r h = cc
  find_sound p (x ∷ rows) r h = ground (arith, find_sound p rows r)

  -- An update of other rows than the one that is looked up.
  pub find-update_other :
      (p q : R → Bool) (f : R → R) (rows : List R)
      → ((r : R) → p r ≡ true → (q r ≡ false) × (q (f r) ≡ false))
      → find q (update p f rows) ≡ find q rows
  unfolding find update
  find-update_other p q f [] apart = refl
  find-update_other p q f (r ∷ rows) apart =
      ground (arith, apart r, find-update_other p q f rows apart)

  -- An update of the rows with a key, within a state, looked up by that key.
  pub find-update_self :
      (p w : R → Bool) (f : R → R) (rows : List R)
      → ((r : R) → p (f r) ≡ p r)
      → find p (update (λ r. p r && w r) f rows)
        ≡ apply_some (λ r. if w r then f r else r) (find p rows)
  unfolding find update
  find-update_self p w f [] keeps = refl
  find-update_self p w f (r ∷ rows) keeps =
      ground (arith, keeps r, find-update_self p w f rows keeps)

  -- A narrower test finds the same row, if that row passes it.
  pub find-and :
      (p w : R → Bool) (rows : List R) (r : R)
      → find p rows ≡ some r
      → w r ≡ true
      → find (λ q. p q && w q) rows ≡ some r
  unfolding find
  find-and p w [] r h k = cc
  find-and p w (x ∷ rows) r h k = ground (arith, find-and p w rows r)

  -- A row at the end is found if no earlier one is.
  pub find-append :
      (p : R → Bool) (rows : List R) (r : R)
      → find p (rows ++ r ∷ [])
        ≡ elim (find p rows) [ some x ↦ some x | none ↦ if p r then some r else none ]
  unfolding find
  find-append p [] r = refl
  find-append p (x ∷ rows) r = ground (arith, find-append p rows r)

  -- An update that keeps a key brings no new row with that key.
  pub find-update-none :
      (p q : R → Bool) (f : R → R) (rows : List R)
      → ((r : R) → q (f r) ≡ q r)
      → find q rows ≡ none
      → find q (update p f rows) ≡ none
  unfolding find update
  find-update-none p q f [] keeps h = refl
  find-update-none p q f (r ∷ rows) keeps h =
      ground (arith, keeps r, find-update-none p q f rows keeps)
