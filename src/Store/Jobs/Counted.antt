-- ===== src/Store/Jobs/Counted.antt =====
-- The versions of internal/store/jobs.go, counted without gaps and each spec only once.
use pulseq.Prelude.{
  ℕ, suc, ◌≡◌, refl, sym, ap, ◌∙◌, subst, Bool, true, String, str_eq, eq_iff, List, [], ◌∷◌, ◌++◌,
  none, inl, inr, Bool-cases, Option-cases, arith, if◌then◌else◌, ltb,
}
use mathlib.Core.List.{append-nil, append_assoc}
use pulseq.Store.Table.{find, select}
use pulseq.Store.Tx.{done}
use pulseq.Store.Jobs.{
  JobVersionInput, JobVersion, Catalogue, has_spec, has_version_id, highest_version, new_version,
  insert_version,
}

-- A version that follows the earlier ones.
pub record Follows (seen : List JobVersion) (v : JobVersion) : Type 0 where
  pub next : v.version ≡ suc (highest_version v.job_name seen)
  pub new_spec : find (has_spec v.job_name v.spec_hash) seen ≡ none
  pub new_id : find (has_version_id v.id) seen ≡ none

-- Each version follows those before it.
abbrev pub Counted : List JobVersion → List JobVersion → Type 0
Counted seen [] = Unit {0}
Counted seen (v ∷ rest) = Follows seen v × Counted (seen ++ v ∷ []) rest

Counted-append :
    (seen versions : List JobVersion) (v : JobVersion)
    → Counted seen versions
    → Follows (seen ++ versions) v
    → Counted seen (versions ++ v ∷ [])
Counted-append seen [] v h f = (subst (λ l. Follows l v) (append-nil seen) f, tt)
Counted-append seen (x ∷ versions) v h f = (
  h.0,
  Counted-append (seen ++ x ∷ []) versions v h.1
      (subst (λ l. Follows l v) (sym (append_assoc seen (x ∷ []) versions)) f),
)

-- The statement that inserts a version keeps the count.
pub insert_version-Counted :
    (id : String) (at : ℕ) (input : JobVersionInput) (c c' : Catalogue) (created : Bool)
    → Counted [] c.versions
    → insert_version id at input c ≡ done created c'
    → Counted [] c'.versions
unfolding insert_version
insert_version-Counted id at input c c' created h ran =
    elim (Option-cases (find (has_spec input.job_name input.spec_hash) c.versions)) [
      | inr (v, known) ↦ subst (Counted []) (ground (arith, known, ran)) h
      | inl unknown ↦ elim (Option-cases (find (has_version_id id) c.versions)) [
        | inr (v, used) ↦ absurd (ground (arith, unknown, used, ran))
        | inl fresh ↦
            let same : c.versions ++ new_version id at input c.versions ∷ [] ≡ c'.versions =
              ground (arith, unknown, fresh, ran) in
            subst (Counted []) same (
              Counted-append [] c.versions (new_version id at input c.versions) h
                (record { next = refl; new_spec = unknown; new_id = fresh }))
      ]
    ]

-- Numbers that count up from behind the given one.
abbrev pub Upward : ℕ → List JobVersion → Type 0
Upward i [] = Unit {0}
Upward i (v ∷ rest) = (v.version ≡ suc i) × Upward (suc i) rest

abbrev pub of_job : String → JobVersion → Bool
of_job name v = str_eq v.job_name name

numbered :
    (name : String) (seen : List JobVersion) (v : JobVersion)
    → v.version ≡ suc (highest_version v.job_name seen)
    → of_job name v ≡ true
    → v.version ≡ suc (highest_version name seen)
numbered name seen v next own =
    let same : v.job_name ≡ name = ground (arith, own, eq_iff v.job_name name) in
    next ∙ ap (λ n. suc (highest_version n seen)) same

highest_version-more :
    (name : String) (seen : List JobVersion) (v : JobVersion)
    → highest_version name (seen ++ v ∷ []) ≡ (
        let highest = highest_version name seen in
        if of_job name v then (if ltb highest v.version then v.version else highest) else highest)
unfolding highest_version
highest_version-more name [] v = refl
highest_version-more name (x ∷ seen) v = ground (arith, highest_version-more name seen v)

highest_version-append :
    (name : String) (seen : List JobVersion) (v : JobVersion)
    → v.version ≡ suc (highest_version v.job_name seen)
    → highest_version name (seen ++ v ∷ [])
      ≡ (if of_job name v then suc (highest_version name seen) else highest_version name seen)
highest_version-append name seen v next = elim (Bool-cases (of_job name v)) [
  | inr other ↦ rw (highest_version-more name seen v, other) refl
  | inl own ↦
      let number : v.version ≡ suc (highest_version name seen) = numbered name seen v next own in
      ground (arith, highest_version-more name seen v, own, number)
]

-- The versions of each job, in the order in which they were written, are numbered without a gap.
pub Upward-select :
    (name : String) (seen versions : List JobVersion)
    → Counted seen versions
    → Upward (highest_version name seen) (select (of_job name) versions)
unfolding select
Upward-select name seen [] h = tt
Upward-select name seen (v ∷ versions) h =
    let rest = Upward-select name (seen ++ v ∷ []) versions h.1 in
    let highest = highest_version-append name seen v h.0.next in
    elim (Bool-cases (of_job name v)) [
      | inr other ↦
          let same : highest_version name (seen ++ v ∷ []) ≡ highest_version name seen =
            ground (arith, highest, other) in
          rw other (subst (λ i. Upward i (select (of_job name) versions)) same rest)
      | inl own ↦
          let grown : highest_version name (seen ++ v ∷ []) ≡ suc (highest_version name seen) =
            ground (arith, highest, own) in
          rw own (
            numbered name seen v h.0.next own,
            subst (λ i. Upward i (select (of_job name) versions)) grown rest,
          )
    ]
