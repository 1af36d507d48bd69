-- ===== src/Prelude/Sorting.antt =====
-- Sorting by a test, stably: what `sort.SliceStable` and `ORDER BY` do.
use mathlib.Core.Logic.{◌↔◌, inl, inr}
use mathlib.Core.Bool.{Bool}
use mathlib.Core.List.{List, [], ◌∷◌, Memᴰ}
use mathlib.Core.List.Memᴰ
use pulseq.Prelude.Tests.{if◌then◌else◌, Bool-cases}

module _ {ℓ} {A : Type ℓ} where
  unfoldable pub insert_by : (A → A → Bool) → A → List A → List A
  insert_by leq m [] = m ∷ []
  insert_by leq m (x ∷ rest) =
      let later = insert_by leq m rest in if leq m x then m ∷ x ∷ rest else x ∷ later

  unfoldable pub sort_by : (A → A → Bool) → List A → List A
  unfolding insert_by
  sort_by leq [] = []
  sort_by leq (m ∷ rest) = insert_by leq m (sort_by leq rest)

  Mem-insert_by :
      (leq : A → A → Bool) (m : A) (rest : List A) (x : A)
      → Memᴰ x (insert_by leq m rest) ↔ Memᴰ x (m ∷ rest)
  unfolding insert_by
  Mem-insert_by leq m [] x = (λ h. h, λ h. h)
  Mem-insert_by leq m (y ∷ rest) x = elim (Bool-cases (leq m y)) [
    | inl below ↦ rw below ((λ h. h, λ h. h))
    | inr above ↦
        let (out_of, into) = Mem-insert_by leq m rest x in
        rw above (
          (
            λ h. elim (Memᴰ.cases_cons h) [
              | inl here ↦ Memᴰ.tail (Memᴰ.head here)
              | inr there ↦ elim (Memᴰ.cases_cons (out_of there)) [
                | inl same ↦ Memᴰ.head same
                | inr later ↦ Memᴰ.tail (Memᴰ.tail later)
              ]
            ],
            λ h. elim (Memᴰ.cases_cons h) [
              | inl same ↦ Memᴰ.tail (into (Memᴰ.head same))
              | inr there ↦ elim (Memᴰ.cases_cons there) [
                | inl here ↦ Memᴰ.head here
                | inr later ↦ Memᴰ.tail (into (Memᴰ.tail later))
              ]
            ],
          ))
  ]

  -- A sort keeps what it sorts and adds nothing.
  pub Mem-sort_by :
      (leq : A → A → Bool) (items : List A) (x : A) → Memᴰ x (sort_by leq items) ↔ Memᴰ x items
  unfolding sort_by
  Mem-sort_by leq [] x = (λ h. h, λ h. h)
  Mem-sort_by leq (m ∷ rest) x =
      let (out_of, into) = Mem-sort_by leq rest x in
      let (leave, enter) = Mem-insert_by leq m (sort_by leq rest) x in
      (
        λ h. elim (Memᴰ.cases_cons (leave h)) [
          | inl same ↦ Memᴰ.head same
          | inr later ↦ Memᴰ.tail (out_of later)
        ],
        λ h. elim (Memᴰ.cases_cons h) [
          | inl same ↦ enter (Memᴰ.head same)
          | inr later ↦ enter (Memᴰ.tail (into later))
        ],
      )
