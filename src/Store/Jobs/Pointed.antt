-- ===== src/Store/Jobs/Pointed.antt =====
-- The jobs of internal/store/jobs.go point at versions of theirs, whatever is applied.
use pulseq.Prelude.{
  ℕ, ◌≡◌, refl, sym, ap, ◌∙◌, subst, Bool, true, String, eq_iff, List, [], ◌∷◌, ◌++◌, none, some,
  inl, inr, Bool-cases, Option-cases, arith,
}
use mathlib.Core.List.{Memᴰ}
use pulseq.Store.Table.{find, update, find_sound}
use pulseq.Store.Tx.{done}
use pulseq.Store.Jobs.{
  JobVersionInput, JobVersion, Job, Catalogue, has_name, has_spec, has_version_id, new_job,
  reloaded, new_version, positive, concurrency, record_job, insert_version, read_back, pointed_at,
  point_job,
}
use pulseq.Store.Jobs.Counted.{Counted, insert_version-Counted}

-- A job that points nowhere yet, or at a version of its own.
pub data Points (versions : List JobVersion) : Job → Type 0 where
  nowhere : {j : Job} → j.current_version_id ≡ none → Points versions j
  at_version :
      {j : Job} (v : JobVersion)
      → Memᴰ v versions
      → v.job_name ≡ j.name
      → j.current_version_id ≡ some v.id
      → Points versions j

abbrev pub Pointed : List JobVersion → List Job → Type 0
Pointed versions [] = Unit {0}
Pointed versions (j ∷ rest) = Points versions j × Pointed versions rest

Mem_append : {A : Type 0} (x y : A) (l : List A) → Memᴰ x l → Memᴰ x (l ++ y ∷ [])
Mem_append x y [] m = Memᴰ.tail m
Mem_append x y (z ∷ l) (Memᴰ.head e) = Memᴰ.head e
Mem_append x y (z ∷ l) (Memᴰ.tail m) = Memᴰ.tail (Mem_append x y l m)

find_Mem : {R : Type 0} (p : R → Bool) (rows : List R) (r : R) → find p rows ≡ some r → Memᴰ r rows
unfolding find
find_Mem p [] r h = cc
find_Mem p (x ∷ rows) r h = elim (Bool-cases (p x)) [
  | inl found ↦ Memᴰ.head (ground (arith, found, h))
  | inr other ↦ Memᴰ.tail (find_Mem p rows r (ground (arith, other, h)))
]

Points-more :
    (versions : List JobVersion) (x : JobVersion) (j : Job)
    → Points versions j
    → Points (versions ++ x ∷ []) j
Points-more versions x j (nowhere e) = nowhere e
Points-more versions x j (at_version v m n e) = at_version v (Mem_append v x versions m) n e

Pointed-more :
    (versions : List JobVersion) (x : JobVersion) (jobs : List Job)
    → Pointed versions jobs
    → Pointed (versions ++ x ∷ []) jobs
Pointed-more versions x [] h = tt
Pointed-more versions x (j ∷ jobs) h =
    (Points-more versions x j h.0, Pointed-more versions x jobs h.1)

Pointed-new :
    (versions : List JobVersion) (jobs : List Job) (j : Job)
    → Pointed versions jobs
    → Points versions j
    → Pointed versions (jobs ++ j ∷ [])
Pointed-new versions [] j h p = (p, tt)
Pointed-new versions (x ∷ jobs) j h p = (h.0, Pointed-new versions jobs j h.1 p)

pub Pointed-update :
    (versions : List JobVersion) (p : Job → Bool) (f : Job → Job) (jobs : List Job)
    → Pointed versions jobs
    → ((j : Job) → p j ≡ true → Points versions j → Points versions (f j))
    → Pointed versions (update p f jobs)
unfolding update
Pointed-update versions p f [] h keeps = tt
Pointed-update versions p f (j ∷ jobs) h keeps = elim (Bool-cases (p j)) [
  | inl chosen ↦ rw chosen (keeps j chosen h.0, Pointed-update versions p f jobs h.1 keeps)
  | inr other ↦ rw other (h.0, Pointed-update versions p f jobs h.1 keeps)
]

-- A catalogue whose versions are counted and whose jobs point at versions of theirs.
pub record WellFormed (c : Catalogue) : Type 0 where
  pub counted : Counted [] c.versions
  pub pointed : Pointed c.versions c.jobs

-- A change of a job that keeps its name and what it points at.
pub unmoved :
    (versions : List JobVersion) (f : Job → Job)
    → ((j : Job) → (f j).name ≡ j.name)
    → ((j : Job) → (f j).current_version_id ≡ j.current_version_id)
    → (j : Job) → Points versions j
    → Points versions (f j)
unmoved versions f names points j (nowhere e) = nowhere (points j ∙ e)
unmoved versions f names points j (at_version v m n e) =
    at_version v m (n ∙ sym (names j)) (points j ∙ e)

pub record_job-WellFormed :
    (at : ℕ) (input : JobVersionInput) (c c' : Catalogue)
    → WellFormed c
    → record_job at input c ≡ done tt c'
    → WellFormed c'
unfolding record_job
record_job-WellFormed at input c c' h ran =
    elim (Bool-cases (positive (concurrency input.max_concurrent))) [
      | inr none_allowed ↦ absurd (ground (arith, none_allowed, ran))
      | inl allowed ↦ elim (Option-cases (find (has_name input.job_name) c.jobs)) [
        | inl unknown ↦
            let same : record c { jobs = c.jobs ++ new_job at input ∷ [] } ≡ c' =
              ground (arith, allowed, unknown, ran) in
            subst WellFormed same (record {
              counted = h.counted;
              pointed = Pointed-new c.versions c.jobs (new_job at input) h.pointed (nowhere refl);
            })
        | inr (j, known) ↦
            let same : record c {
              jobs = update (has_name input.job_name) (reloaded at input) c.jobs;
            }
                ≡ c' =
              ground (arith, allowed, known, ran) in
            subst WellFormed same (record {
              counted = h.counted;
              pointed =
                  Pointed-update c.versions (has_name input.job_name) (reloaded at input) c.jobs
                    h.pointed
                    λ j chosen. unmoved c.versions (reloaded at input) (λ j. refl) (λ j. refl) j;
            })
      ]
    ]

pub insert_version-WellFormed :
    (id : String) (at : ℕ) (input : JobVersionInput) (c c' : Catalogue) (created : Bool)
    → WellFormed c
    → insert_version id at input c ≡ done created c'
    → WellFormed c'
unfolding insert_version
insert_version-WellFormed id at input c c' created h ran = record {
  counted = insert_version-Counted id at input c c' created h.counted ran;
  pointed = elim (Option-cases (find (has_spec input.job_name input.spec_hash) c.versions)) [
    | inr (v, known) ↦
        let same : c ≡ c' = ground (arith, known, ran) in
        subst (λ d. Pointed d.versions d.jobs) same h.pointed
    | inl unknown ↦ elim (Option-cases (find (has_version_id id) c.versions)) [
      | inr (v, used) ↦ absurd (ground (arith, unknown, used, ran))
      | inl fresh ↦
          let same : record c { versions = c.versions ++ new_version id at input c.versions ∷ [] }
              ≡ c' =
            ground (arith, unknown, fresh, ran) in
          subst (λ d. Pointed d.versions d.jobs) same
            (Pointed-more c.versions (new_version id at input c.versions) c.jobs h.pointed)
    ]
  ];
}

-- The row that is read back is a version of the job.
pub read_back-Mem :
    (input : JobVersionInput) (c c' : Catalogue) (v : JobVersion)
    → read_back input c ≡ done v c'
    → (c ≡ c') × Memᴰ v c.versions × (v.job_name ≡ input.job_name) × (v.spec_hash ≡ input.spec_hash)
unfolding read_back
read_back-Mem input c c' v ran =
    elim (Option-cases (find (has_spec input.job_name input.spec_hash) c.versions)) [
      | inl unknown ↦ absurd (ground (arith, unknown, ran))
      | inr (x, known) ↦
          let same : x ≡ v = ground (arith, known, ran) in
          let found : find (has_spec input.job_name input.spec_hash) c.versions ≡ some v =
            known ∙ ap some same in
          let test = find_sound (has_spec input.job_name input.spec_hash) c.versions v found in
          (
            ground (arith, known, ran),
            find_Mem (has_spec input.job_name input.spec_hash) c.versions v found,
            ground (arith, test, eq_iff v.job_name input.job_name),
            ground (arith, test, eq_iff v.spec_hash input.spec_hash),
          )
    ]

pub point_job-WellFormed :
    (at : ℕ) (name : String) (v : JobVersion) (c c' : Catalogue)
    → WellFormed c
    → Memᴰ v c.versions
    → v.job_name ≡ name
    → point_job at name v.id c ≡ done tt c'
    → WellFormed c'
unfolding point_job
point_job-WellFormed at name v c c' h there own ran =
    let same : record c { jobs = update (has_name name) (pointed_at at v.id) c.jobs } ≡ c' =
      ground (arith, ran) in
    subst WellFormed same (record {
      counted = h.counted;
      pointed =
          Pointed-update c.versions (has_name name) (pointed_at at v.id) c.jobs h.pointed
            λ j chosen p. at_version v there (ground (arith, own, chosen, eq_iff j.name name)) refl;
    })
