-- ===== src/Store/Jobs.antt =====
-- internal/store/jobs.go and apply.go, with the pause of materialize.go: the tables `jobs` and
-- `job_versions` (internal/store/migrations/0002_definitions.sql), with their keys and CHECK
-- constraints, and the operations on them. An instant is its milliseconds; NULL is `none`.
pub mod Counted
pub mod Pointed
pub mod Reached
pub mod Reload
use pulseq.Prelude.{
  ℕ, zero, suc, ◌&&◌, Bool, true, false, String, str_eq, List, [], ◌∷◌, ◌++◌, Option, none, some,
  sort_by, if◌then◌else◌, ltb, leb,
}
use pulseq.Prelude.Int.{ℤ, pos, negsuc}
use pulseq.Store.Rows.{null_if_empty, or_empty}
use pulseq.Store.Table.{find, update, select}
use pulseq.Store.Tx.{
  Over, TxResult, done, failed, constraint, no_row, Attempt, with_tx, ◌>>=◌, ◌>>◌, pure,
}

pub record JobVersionInput : Type 0 where
  pub job_name : String
  pub description : String
  pub source_path : String
  pub max_concurrent : ℤ
  pub spec_hash : String
  pub spec_json : String

-- A row of `job_versions`; `source_path` is NULL for the empty one.
pub record JobVersion : Type 0 where
  pub id : String
  pub job_name : String
  pub version : ℕ
  pub spec_hash : String
  pub spec_json : String
  pub source_path : Option String
  pub created_at : ℕ

-- A row of `jobs`.
pub record Job : Type 0 where
  pub name : String
  pub current_version_id : Option String
  pub description : String
  pub paused : Bool
  pub max_concurrent : ℤ
  pub source_path : Option String
  pub created_at : ℕ
  pub updated_at : ℕ

pub record Catalogue : Type 0 where
  pub jobs : List Job
  pub versions : List JobVersion

abbrev pub has_name : String → Job → Bool
has_name name j = str_eq j.name name

abbrev pub has_spec : String → String → JobVersion → Bool
has_spec name hash v = str_eq v.job_name name && str_eq v.spec_hash hash

abbrev pub has_version_id : String → JobVersion → Bool
has_version_id id v = str_eq v.id id

-- `coalesce(max(version), 0)` of a job.
unfoldable pub highest_version : String → List JobVersion → ℕ
highest_version name [] = 0
highest_version name (v ∷ rest) =
    let later = highest_version name rest in
    if str_eq v.job_name name then (if ltb later v.version then v.version else later) else later

abbrev pub concurrency : ℤ → ℤ
concurrency (pos zero) = pos 1
concurrency n = n

abbrev pub positive : ℤ → Bool
positive (pos (suc _)) = true
positive _ = false

-- The row that the first statement inserts, and what it changes of a job that is there.
abbrev pub new_job : ℕ → JobVersionInput → Job
new_job at input = record {
  name = input.job_name;
  current_version_id = none;
  description = input.description;
  paused = false;
  max_concurrent = concurrency input.max_concurrent;
  source_path = null_if_empty input.source_path;
  created_at = at;
  updated_at = at;
}

abbrev pub reloaded : ℕ → JobVersionInput → Job → Job
reloaded at input j = record j {
  description = input.description;
  max_concurrent = concurrency input.max_concurrent;
  source_path = null_if_empty input.source_path;
  updated_at = at;
}

-- The upsert of the job.
unfoldable pub record_job : ℕ → JobVersionInput → Over Catalogue (Unit {0})
unfolding find update
record_job at input c =
    if positive (concurrency input.max_concurrent)
    then elim (find (has_name input.job_name) c.jobs) [
      | none ↦ done tt (record c { jobs = c.jobs ++ new_job at input ∷ [] })
      | some _ ↦
          done tt (record c { jobs = update (has_name input.job_name) (reloaded at input) c.jobs })
    ]
    else failed constraint

abbrev pub new_version : String → ℕ → JobVersionInput → List JobVersion → JobVersion
new_version id at input versions = record {
  id = id;
  job_name = input.job_name;
  version = suc (highest_version input.job_name versions);
  spec_hash = input.spec_hash;
  spec_json = input.spec_json;
  source_path = null_if_empty input.source_path;
  created_at = at;
}

-- The insertion of the version, which does nothing on a known hash, and whether it wrote a row.
unfoldable pub insert_version : String → ℕ → JobVersionInput → Over Catalogue Bool
unfolding find highest_version
insert_version id at input c = elim (find (has_spec input.job_name input.spec_hash) c.versions) [
  | some _ ↦ done false c
  | none ↦ elim (find (has_version_id id) c.versions) [
    | some _ ↦ failed constraint
    | none ↦
        done true (record c { versions = c.versions ++ new_version id at input c.versions ∷ [] })
  ]
]

-- The row that carries the hash now.
unfoldable pub read_back : JobVersionInput → Over Catalogue JobVersion
unfolding find
read_back input c = elim (find (has_spec input.job_name input.spec_hash) c.versions) [
  | none ↦ failed no_row
  | some v ↦ done v c
]

abbrev pub pointed_at : ℕ → String → Job → Job
pointed_at at id j = record j { current_version_id = some id; updated_at = at }

unfoldable pub point_job : ℕ → String → String → Over Catalogue (Unit {0})
unfolding update
point_job at name id c =
    done tt (record c { jobs = update (has_name name) (pointed_at at id) c.jobs })

-- `writeJobVersion`.
unfoldable pub write_job_version : String → ℕ → JobVersionInput → Over Catalogue (JobVersion × Bool)
unfolding record_job insert_version read_back point_job
write_job_version id at input =
    record_job at input
    >> (insert_version id at input >>= λ created.
        read_back input >>= λ v. point_job at input.job_name v.id >> pure (v, created))

-- `UpsertJobVersion`, with the id that it minted.
unfoldable pub upsert_job_version :
    Bool → (ℕ → Attempt) → String → ℕ → JobVersionInput → Over Catalogue (JobVersion × Bool)
unfolding write_job_version with_tx
upsert_job_version writable env id at input = with_tx writable env (write_job_version id at input)

pub record JobApplyResult : Type 0 where
  pub job_name : String
  pub version_id : String
  pub version : ℕ
  pub created : Bool

-- The loop of `ApplyJobs`, over the inputs with the ids minted for them.
unfoldable pub write_each :
    ℕ → List (String × JobVersionInput) → Over Catalogue (List JobApplyResult)
unfolding write_job_version
write_each at [] = pure []
write_each at ((id, input) ∷ rest) = write_job_version id at input >>= λ written.
    write_each at rest >>= λ results. pure (
      record {
        job_name = input.job_name;
        version_id = written.0.id;
        version = written.0.version;
        created = written.1;
      }
      ∷ results)

-- `ApplyJobs`.
unfoldable pub apply_jobs :
    Bool
    → (ℕ → Attempt)
    → ℕ
    → List (String × JobVersionInput)
    → Over Catalogue (List JobApplyResult)
unfolding write_each with_tx
apply_jobs writable env at inputs = with_tx writable env (write_each at inputs)

-- `SetJobPaused`.
unfoldable pub set_job_paused : ℕ → String → Bool → Over Catalogue (Unit {0})
unfolding find update
set_job_paused at name paused c = elim (find (has_name name) c.jobs) [
  | none ↦ failed no_row
  | some _ ↦ done tt (record c {
    jobs = update (has_name name) (λ j. record j { paused = paused; updated_at = at }) c.jobs;
  })
]

-- `JobPaused`.
unfoldable pub job_paused : Catalogue → String → Option Bool
unfolding find
job_paused c name = elim (find (has_name name) c.jobs) [ none ↦ none | some j ↦ some j.paused ]

-- `CurrentJobVersion`, `JobVersionByID` and `ListJobVersions`.
unfoldable pub job_version_by_id : Catalogue → String → Option JobVersion
unfolding find
job_version_by_id c id = find (has_version_id id) c.versions

unfoldable pub current_job_version : Catalogue → String → Option JobVersion
unfolding find job_version_by_id
current_job_version c name = elim (find (has_name name) c.jobs) [
  | none ↦ none
  | some j ↦ elim j.current_version_id [ none ↦ none | some id ↦ job_version_by_id c id ]
]

unfoldable pub list_job_versions : Catalogue → String → List JobVersion
unfolding select sort_by
list_job_versions c name =
    sort_by (λ v w. leb w.version v.version) (select (λ v. str_eq v.job_name name) c.versions)
