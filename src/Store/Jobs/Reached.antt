-- ===== src/Store/Jobs/Reached.antt =====
-- The catalogues that the operations of internal/store/jobs.go and apply.go can make.
use pulseq.Prelude.{
  ℕ, ◌≡◌, refl, sym, ap, ◌∙◌, subst, Bool, String, List, [], ◌∷◌, inl, inr, Option-cases, arith,
}
use pulseq.Store.Table.{find, update, select}
use pulseq.Store.Tx.{Over, TxResult, done, failed, Attempt, with_tx, after, >>-done, >>=-done, pure}
use pulseq.Store.Tx.Atomic.{with_tx_once_only}
use pulseq.Store.Jobs.{
  highest_version, JobVersionInput, JobVersion, Job, Catalogue, JobApplyResult, has_name,
  record_job, insert_version, read_back, point_job, write_job_version, upsert_job_version,
  write_each, apply_jobs, set_job_paused,
}
use pulseq.Store.Jobs.Counted.{Upward, Upward-select, of_job}
use pulseq.Store.Jobs.Pointed.{
  WellFormed, record_job-WellFormed, insert_version-WellFormed, read_back-Mem, point_job-WellFormed,
  unmoved, Pointed-update,
}

-- The parts of `writeJobVersion` that committed.
pub record Written (id : String) (at : ℕ) (input : JobVersionInput) (c : Catalogue) (v : JobVersion)
    (created : Bool) (c' : Catalogue) : Type 0 where
  pub recorded : Catalogue
  pub inserted : Catalogue
  pub records : record_job at input c ≡ done tt recorded
  pub inserts : insert_version id at input recorded ≡ done created inserted
  pub reads : read_back input inserted ≡ done v inserted
  pub points : point_job at input.job_name v.id inserted ≡ done tt c'

pub write_job_version-Written :
    (id : String) (at : ℕ) (input : JobVersionInput) (c c' : Catalogue) (v : JobVersion)
    (created : Bool)
    → write_job_version id at input c ≡ done (v, created) c'
    → Written id at input c v created c'
unfolding write_job_version
write_job_version-Written id at input c c' v created ran =
    let (c₁, records, ran₁) = >>-done (record_job at input) _ c c' (v, created) ran in
    let (made, c₂, inserts, ran₂) =
      >>=-done (insert_version id at input) _ c₁ c' (v, created) ran₁ in
    let (x, c₃, reads, ran₃) = >>=-done (read_back input) _ c₂ c' (v, created) ran₂ in
    let (c₄, points, ran₄) =
      >>-done (point_job at input.job_name x.id) (pure (x, made)) c₃ c' (v, created) ran₃ in
    let sx : x ≡ v = ground (arith, ran₄) in
    let sm : made ≡ created = ground (arith, ran₄) in
    let s₄ : c₄ ≡ c' = ground (arith, ran₄) in
    let sc = (read_back-Mem input c₂ c₃ x reads).0 in
    record {
      recorded = c₁;
      inserted = c₂;
      records = records;
      inserts = inserts ∙ ap (λ b. done b c₂) sm;
      reads = reads ∙ ap (done x) (sym sc) ∙ ap (λ y. done y c₂) sx;
      points =
          ap (point_job at input.job_name v.id) sc
          ∙ ap (λ (y : JobVersion). point_job at input.job_name y.id c₃) (sym sx)
          ∙ points
          ∙ ap (done tt) s₄;
    }

write_job_version-WellFormed :
    (id : String) (at : ℕ) (input : JobVersionInput) (c c' : Catalogue) (v : JobVersion)
    (created : Bool)
    → WellFormed c
    → write_job_version id at input c ≡ done (v, created) c'
    → WellFormed c'
write_job_version-WellFormed id at input c c' v created h ran =
    let w = write_job_version-Written id at input c c' v created ran in
    let h₁ = record_job-WellFormed at input c w.recorded h w.records in
    let h₂ = insert_version-WellFormed id at input w.recorded w.inserted created h₁ w.inserts in
    let (_, there, own, _) = read_back-Mem input w.inserted w.inserted v w.reads in
    point_job-WellFormed at input.job_name v w.inserted c' h₂ there own w.points

write_each-WellFormed :
    (at : ℕ) (inputs : List (String × JobVersionInput)) (c c' : Catalogue)
    (results : List JobApplyResult)
    → WellFormed c
    → write_each at inputs c ≡ done results c'
    → WellFormed c'
unfolding write_each
write_each-WellFormed at [] c c' results h ran = subst WellFormed (ground (arith, ran)) h
write_each-WellFormed at ((id, input) ∷ rest) c c' results h ran =
    let ((v, created), mid, writes, ran₁) =
      >>=-done (write_job_version id at input) _ c c' results ran in
    let (rs, end, goes_on, ran₂) = >>=-done (write_each at rest) _ mid c' results ran₁ in
    let last : end ≡ c' = ground (arith, ran₂) in
    subst WellFormed last (
      write_each-WellFormed at rest mid end rs
        (write_job_version-WellFormed id at input c mid v created h writes) goes_on)

set_job_paused-WellFormed :
    (at : ℕ) (name : String) (paused : Bool) (c c' : Catalogue)
    → WellFormed c
    → set_job_paused at name paused c ≡ done tt c'
    → WellFormed c'
unfolding set_job_paused
set_job_paused-WellFormed at name paused c c' h ran =
    let pause : Job → Job = λ j. record j { paused = paused; updated_at = at } in
    elim (Option-cases (find (has_name name) c.jobs)) [
      | inl unknown ↦ absurd (ground (arith, unknown, ran))
      | inr (j, known) ↦
          let same : record c { jobs = update (has_name name) pause c.jobs } ≡ c' =
            ground (arith, known, ran) in
          subst WellFormed same (record {
            counted = h.counted;
            pointed =
                Pointed-update c.versions (has_name name) pause c.jobs h.pointed
                  λ j chosen. unmoved c.versions pause (λ j. refl) (λ j. refl) j;
          })
    ]

-- What a call leaves behind is well-formed if what it commits is.
after-WellFormed :
    {A : Type 0} (c : Catalogue) (t : TxResult Catalogue A)
    → WellFormed c
    → ((a : A) (c' : Catalogue) → t ≡ done a c' → WellFormed c')
    → WellFormed (after c t)
after-WellFormed c (done a c') h keeps = keeps a c' refl
after-WellFormed c (failed f) h keeps = h

with_tx-WellFormed :
    {A : Type 0} (writable : Bool) (env : ℕ → Attempt) (body : Over Catalogue A) (c : Catalogue)
    → WellFormed c
    → ((a : A) (c' : Catalogue) → body c ≡ done a c' → WellFormed c')
    → WellFormed (after c (with_tx writable env body c))
with_tx-WellFormed writable env body c h keeps =
    after-WellFormed c (with_tx writable env body c) h
      λ a c' e. keeps a c' (with_tx_once_only writable env body c c' a e)

-- What any calls make of an empty catalogue, whether they succeed or fail.
pub data Reached : Catalogue → Type 0 where
  empty : Reached (record { jobs = []; versions = [] })
  upserted :
      {c : Catalogue} (writable : Bool) (env : ℕ → Attempt) (id : String) (at : ℕ)
      (input : JobVersionInput)
      → Reached c
      → Reached (after c (upsert_job_version writable env id at input c))
  applied :
      {c : Catalogue} (writable : Bool) (env : ℕ → Attempt) (at : ℕ)
      (inputs : List (String × JobVersionInput))
      → Reached c
      → Reached (after c (apply_jobs writable env at inputs c))
  paused :
      {c : Catalogue} (at : ℕ) (name : String) (flag : Bool)
      → Reached c
      → Reached (after c (set_job_paused at name flag c))

pub Reached-WellFormed : (c : Catalogue) → Reached c → WellFormed c
unfolding upsert_job_version apply_jobs
Reached-WellFormed c empty = record { counted = tt; pointed = tt }
Reached-WellFormed c (upserted {c = d} writable env id at input r) =
    with_tx-WellFormed writable env (write_job_version id at input) d (Reached-WellFormed d r)
      λ a c' ran. write_job_version-WellFormed id at input d c' a.0 a.1 (Reached-WellFormed d r) ran
Reached-WellFormed c (applied {c = d} writable env at inputs r) =
    with_tx-WellFormed writable env (write_each at inputs) d (Reached-WellFormed d r)
      λ rs c' ran. write_each-WellFormed at inputs d c' rs (Reached-WellFormed d r) ran
Reached-WellFormed c (paused {c = d} at name flag r) =
    after-WellFormed d (set_job_paused at name flag d) (Reached-WellFormed d r)
      λ a c' ran. set_job_paused-WellFormed at name flag d c' (Reached-WellFormed d r) ran

-- In every catalogue that calls of `UpsertJobVersion`, `ApplyJobs` and `SetJobPaused` can make,
-- successful or not: the versions of each job, in the order in which they were written, are numbered
-- 1, 2, 3 and so on without a gap; no id and no spec of a job occurs twice; and a job points at no
-- version or at a version of its own.
pub Reached-Upward :
    (c : Catalogue)
    → Reached c
    → ((name : String) → Upward 0 (select (of_job name) c.versions)) × WellFormed c
unfolding highest_version
Reached-Upward c r =
    let h = Reached-WellFormed c r in (λ name. Upward-select name [] c.versions h.counted, h)
