-- ===== src/Store/Jobs/Reload.antt =====
-- Applying the same specs of internal/store/apply.go again.
use pulseq.Prelude.{
  ℕ, ◌≡◌, refl, ap, ◌∙◌, subst, Bool, true, false, String, List, [], ◌∷◌, ◌++◌, Option, some, inl,
  inr, Option-cases, arith, map,
}
use pulseq.Store.Table.{find, update, find-append}
use pulseq.Store.Tx.{done, Attempt, goes, >>=-done, done->>=}
use pulseq.Store.Jobs.{
  JobVersionInput, JobVersion, Catalogue, JobApplyResult, has_name, has_spec, has_version_id,
  concurrency, positive, new_version, new_job, reloaded, pointed_at, record_job, insert_version,
  read_back, point_job, write_job_version, write_each, apply_jobs,
}
use pulseq.Store.Tx.Atomic.{with_tx_once_only, with_tx_goes}
use pulseq.Store.Jobs.Reached.{write_job_version-Written}

-- The version that carries a spec.
abbrev pub version_of : JobVersionInput → List JobVersion → Option JobVersion
version_of input versions = find (has_spec input.job_name input.spec_hash) versions

-- Versions that are there stay there.
record_job_versions :
    (at : ℕ) (input : JobVersionInput) (c c' : Catalogue)
    → record_job at input c ≡ done tt c'
    → c.versions ≡ c'.versions
unfolding record_job
record_job_versions at input c c' ran = ground (arith, ran)

insert_version_keeps :
    (id : String) (at : ℕ) (input other : JobVersionInput) (c c' : Catalogue) (created : Bool)
    (v : JobVersion)
    → insert_version id at input c ≡ done created c'
    → version_of other c.versions ≡ some v
    → version_of other c'.versions ≡ some v
unfolding insert_version
insert_version_keeps id at input other c c' created v ran there =
    elim (Option-cases (find (has_spec input.job_name input.spec_hash) c.versions)) [
      | inr (x, known) ↦
          let same : c ≡ c' = ground (arith, known, ran) in
          subst (λ d. version_of other d.versions ≡ some v) same there
      | inl unknown ↦ elim (Option-cases (find (has_version_id id) c.versions)) [
        | inr (x, used) ↦ absurd (ground (arith, unknown, used, ran))
        | inl fresh ↦
            let x = new_version id at input c.versions in
            let same : record c { versions = c.versions ++ x ∷ [] } ≡ c' =
              ground (arith, unknown, fresh, ran) in
            subst (λ d. version_of other d.versions ≡ some v) same
              (find-append (has_spec other.job_name other.spec_hash) c.versions x ∙ rw there refl)
      ]
    ]

point_job_versions :
    (at : ℕ) (name id : String) (c c' : Catalogue)
    → point_job at name id c ≡ done tt c'
    → c.versions ≡ c'.versions
unfolding point_job
point_job_versions at name id c c' ran = ground (arith, ran)

write_job_version_keeps :
    (id : String) (at : ℕ) (input other : JobVersionInput) (c c' : Catalogue) (v x : JobVersion)
    (created : Bool)
    → write_job_version id at input c ≡ done (v, created) c'
    → version_of other c.versions ≡ some x
    → version_of other c'.versions ≡ some x
write_job_version_keeps id at input other c c' v x created ran there =
    let w = write_job_version-Written id at input c c' v created ran in
    let there₁ =
      subst (λ vs. version_of other vs ≡ some x)
        (record_job_versions at input c w.recorded w.records) there in
    let there₂ =
      insert_version_keeps id at input other w.recorded w.inserted created x w.inserts there₁ in
    subst (λ vs. version_of other vs ≡ some x)
      (point_job_versions at input.job_name v.id w.inserted c' w.points) there₂

write_each_keeps :
    (at : ℕ) (inputs : List (String × JobVersionInput)) (other : JobVersionInput) (c c' : Catalogue)
    (rs : List JobApplyResult) (x : JobVersion)
    → write_each at inputs c ≡ done rs c'
    → version_of other c.versions ≡ some x
    → version_of other c'.versions ≡ some x
unfolding write_each
write_each_keeps at [] other c c' rs x ran there =
    let same : c ≡ c' = ground (arith, ran) in
    subst (λ d. version_of other d.versions ≡ some x) same there
write_each_keeps at ((id, input) ∷ rest) other c c' rs x ran there =
    let ((v, created), mid, writes, ran₁) =
      >>=-done (write_job_version id at input) _ c c' rs ran in
    let (rs', end, goes_on, ran₂) = >>=-done (write_each at rest) _ mid c' rs ran₁ in
    let last : end ≡ c' = ground (arith, ran₂) in
    subst (λ d. version_of other d.versions ≡ some x) last
      (write_each_keeps at rest other mid end rs' x goes_on
        (write_job_version_keeps id at input other c mid v x created writes there))

-- What is read back is what carries the spec.
read_back_found :
    (input : JobVersionInput) (c c' : Catalogue) (v : JobVersion)
    → read_back input c ≡ done v c'
    → version_of input c.versions ≡ some v
unfolding read_back
read_back_found input c c' v ran = ground (arith, ran)

record_job_allowed :
    (at : ℕ) (input : JobVersionInput) (c c' : Catalogue)
    → record_job at input c ≡ done tt c'
    → positive (concurrency input.max_concurrent) ≡ true
unfolding record_job
record_job_allowed at input c c' ran = ground (arith, ran)

abbrev result_of : JobVersionInput → JobVersion → Bool → JobApplyResult
result_of input v created = record {
  job_name = input.job_name;
  version_id = v.id;
  version = v.version;
  created = created;
}

-- Each input's spec is carried by the version that its result names.
abbrev Known : List (String × JobVersionInput) → List JobApplyResult → List JobVersion → Type 0
Known [] [] versions = Unit {0}
Known ((id, input) ∷ rest) (r ∷ rs) versions =
    (positive (concurrency input.max_concurrent) ≡ true)
    × ((v : JobVersion) × (version_of input versions ≡ some v) × (result_of input v r.created ≡ r))
    × Known rest rs versions
Known _ _ versions = ⊥

write_each-Known :
    (at : ℕ) (inputs : List (String × JobVersionInput)) (c c' : Catalogue)
    (rs : List JobApplyResult)
    → write_each at inputs c ≡ done rs c'
    → Known inputs rs c'.versions
unfolding write_each
write_each-Known at [] c c' rs ran =
    let none_left : [] ≡ rs = ground (arith, ran) in
    subst (λ l. Known [] l c'.versions) none_left tt
write_each-Known at ((id, input) ∷ rest) c c' rs ran =
    let ((v, created), mid, writes, ran₁) =
      >>=-done (write_job_version id at input) _ c c' rs ran in
    let (rs', end, goes_on, ran₂) = >>=-done (write_each at rest) _ mid c' rs ran₁ in
    let last : end ≡ c' = ground (arith, ran₂) in
    let whole : result_of input v created ∷ rs' ≡ rs = ground (arith, ran₂) in
    let w = write_job_version-Written id at input c mid v created writes in
    let there : version_of input mid.versions ≡ some v =
      subst (λ vs. version_of input vs ≡ some v)
        (point_job_versions at input.job_name v.id w.inserted mid w.points)
        (read_back_found input w.inserted w.inserted v w.reads) in
    subst (λ l. Known ((id, input) ∷ rest) l c'.versions) whole
      (subst (λ d. Known ((id, input) ∷ rest) (result_of input v created ∷ rs') d.versions) last
        (
          record_job_allowed at input c w.recorded w.records,
          (v, write_each_keeps at rest input mid end rs' v goes_on there, refl),
          write_each-Known at rest mid end rs' goes_on,
        ))

record_again :
    (at : ℕ) (input : JobVersionInput) (c : Catalogue)
    → positive (concurrency input.max_concurrent) ≡ true
    → (c' : Catalogue) × (record_job at input c ≡ done tt c') × (c.versions ≡ c'.versions)
unfolding record_job
record_again at input c allowed = elim (Option-cases (find (has_name input.job_name) c.jobs)) [
  | inl unknown ↦ (
    record c { jobs = c.jobs ++ new_job at input ∷ [] },
    rw (record_job, allowed, unknown) refl,
    refl,
  )
  | inr (j, found) ↦ (
    record c { jobs = update (has_name input.job_name) (reloaded at input) c.jobs },
    rw (record_job, allowed, found) refl,
    refl,
  )
]

insert_again :
    (id : String) (at : ℕ) (input : JobVersionInput) (c : Catalogue) (v : JobVersion)
    → version_of input c.versions ≡ some v
    → (insert_version id at input c ≡ done false c) × (read_back input c ≡ done v c)
unfolding insert_version read_back
insert_again id at input c v known = (rw (insert_version, known) refl, rw (read_back, known) refl)

-- A spec that is known already is accepted again, and nothing is written to the versions.
write_again :
    (id : String) (at : ℕ) (input : JobVersionInput) (c : Catalogue) (v : JobVersion)
    → positive (concurrency input.max_concurrent) ≡ true
    → version_of input c.versions ≡ some v
    → (c' : Catalogue) × (write_job_version id at input c ≡ done (v, false) c')
      × (c.versions ≡ c'.versions)
unfolding write_job_version point_job
write_again id at input c v allowed known =
    let (c₁, records, same) = record_again at input c allowed in
    let (inserts, reads) =
      insert_again id at input c₁ v (subst (λ vs. version_of input vs ≡ some v) same known) in
    (
      record c₁ { jobs = update (has_name input.job_name) (pointed_at at v.id) c₁.jobs },
      done->>= (record_job at input) _ c c₁ tt records
          ∙ done->>= (insert_version id at input) _ c₁ c₁ false inserts
          ∙ done->>= (read_back input) _ c₁ c₁ v reads,
      same,
    )

abbrev pub unmade : JobApplyResult → JobApplyResult
unmade r = record r { created = false }

-- The same specs, under ids that were minted anew.
abbrev pub reminted :
    (String → String) → List (String × JobVersionInput) → List (String × JobVersionInput)
reminted mint inputs = map (λ i. (mint i.0, i.1)) inputs

write_each_repeats :
    (at : ℕ) (mint : String → String) (inputs : List (String × JobVersionInput))
    (rs : List JobApplyResult) (c : Catalogue)
    → Known inputs rs c.versions
    → (c' : Catalogue) × (write_each at (reminted mint inputs) c ≡ done (map unmade rs) c')
      × (c.versions ≡ c'.versions)
unfolding write_each
write_each_repeats at mint [] [] c h = (c, refl, refl)
write_each_repeats at mint [] (r ∷ rs) c h = absurd h
write_each_repeats at mint (i ∷ rest) [] c h = absurd h
write_each_repeats at mint ((id, input) ∷ rest) (r ∷ rs) c h =
    let (v, known, named) = h.1 in
    let (mid, writes, same) = write_again (mint id) at input c v h.0 known in
    let (c', goes_on, same') =
      write_each_repeats at mint rest rs mid (subst (Known rest rs) same h.2) in
    let result : map unmade (result_of input v r.created ∷ rs) ≡ map unmade (r ∷ rs) =
      ap (λ x. map unmade (x ∷ rs)) named in
    (
      c',
      done->>= (write_job_version (mint id) at input) _ c mid (v, false) writes
          ∙ done->>= (write_each at (reminted mint rest)) _ mid c' (map unmade rs) goes_on
          ∙ ap (λ l. done l c') result,
      same ∙ same',
    )

write_each_again :
    (at later : ℕ) (mint : String → String) (inputs : List (String × JobVersionInput))
    (c c' : Catalogue) (rs : List JobApplyResult)
    → write_each at inputs c ≡ done rs c'
    → (c'' : Catalogue) × (write_each later (reminted mint inputs) c' ≡ done (map unmade rs) c'')
      × (c'.versions ≡ c''.versions)
write_each_again at later mint inputs c c' rs ran =
    write_each_repeats later mint inputs rs c' (write_each-Known at inputs c c' rs ran)

-- After a committed `ApplyJobs`, applying the same specs again, at any later time, under newly minted
-- ids and in a transaction that goes through, succeeds and writes no version: its results are those
-- of the first time, with nothing created.
pub apply_jobs_again :
    (writable : Bool) (env : ℕ → Attempt) (at later : ℕ) (mint : String → String)
    (inputs : List (String × JobVersionInput)) (c c' : Catalogue) (rs : List JobApplyResult)
    (env' : ℕ → Attempt)
    → apply_jobs writable env at inputs c ≡ done rs c'
    → (env' 1).fate ≡ goes
    → (c'' : Catalogue) × (apply_jobs true env' later (reminted mint inputs) c'
        ≡ done (map unmade rs) c'')
      × (c'.versions ≡ c''.versions)
unfolding apply_jobs
apply_jobs_again writable env at later mint inputs c c' rs env' ran first =
    let body = with_tx_once_only writable env (write_each at inputs) c c' rs ran in
    let (c'', again, same) = write_each_again at later mint inputs c c' rs body in
    (
      c'',
      with_tx_goes true env' (write_each later (reminted mint inputs)) c' c'' (map unmade rs) refl
          first again,
      same,
    )
