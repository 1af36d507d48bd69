-- ===== src/Examples/Catalogues.antt =====
-- Two jobs applied to an empty catalogue, and applied again.
use pulseq.Prelude.{ℕ, ◌≡◌, refl, true, false, String, List, [], ◌∷◌, map, none, some, sort_by}
use pulseq.Prelude.Int.{pos}
use pulseq.Store.Table.{find, update, select}
use pulseq.Store.Rows.{null_if_empty}
use pulseq.Store.Tx.{done, Attempt, goes, with_tx, attempts_from, with_tx_once, after}
use pulseq.Store.Jobs.{
  JobVersionInput, JobVersion, Catalogue, JobApplyResult, record_job, insert_version, read_back,
  point_job, write_job_version, write_each, apply_jobs, highest_version, list_job_versions,
}
use pulseq.Store.Jobs.Counted.{Upward, of_job}
use pulseq.Store.Jobs.Pointed.{WellFormed}
use pulseq.Store.Jobs.Reached.{empty, applied, Reached-Upward}
use pulseq.Store.Jobs.Reload.{unmade, reminted, apply_jobs_again}

abbrev spec_of : String → String → JobVersionInput
spec_of name hash = record {
  job_name = name;
  description = "";
  source_path = "";
  max_concurrent = pos 0;
  spec_hash = hash;
  spec_json = "{}";
}

abbrev inputs : List (String × JobVersionInput)
inputs = ("v1", spec_of "a" "h1") ∷ ("v2", spec_of "a" "h2") ∷ []

abbrev at_once : ℕ → Attempt
at_once n = record { fate = goes; context_done = false }

abbrev no_jobs : Catalogue
no_jobs = record { jobs = []; versions = [] }

abbrev version_row : String → ℕ → String → JobVersion
version_row id number hash = record {
  id = id;
  job_name = "a";
  version = number;
  spec_hash = hash;
  spec_json = "{}";
  source_path = none;
  created_at = 5;
}

abbrev two_versions : Catalogue
two_versions = record {
  jobs =
      record {
        name = "a";
        current_version_id = some "v2";
        description = "";
        paused = false;
        max_concurrent = pos 1;
        source_path = none;
        created_at = 5;
        updated_at = 5;
      }
      ∷ [];
  versions = version_row "v1" 1 "h1" ∷ version_row "v2" 2 "h2" ∷ [];
}

abbrev two_results : List JobApplyResult
two_results =
    record { job_name = "a"; version_id = "v1"; version = 1; created = true }
    ∷ record { job_name = "a"; version_id = "v2"; version = 2; created = true }
    ∷ []

two_applied : apply_jobs true at_once 5 inputs no_jobs ≡ done two_results two_versions
unfolding apply_jobs write_each write_job_version record_job insert_version read_back point_job find
    update highest_version with_tx attempts_from with_tx_once null_if_empty
two_applied = refl

newest_first : map (λ (v : JobVersion). v.version) (list_job_versions two_versions "a") ≡ 2 ∷ 1 ∷ []
unfolding list_job_versions select sort_by
newest_first = refl

apply_jobs_again_example :
    (c'' : Catalogue) × (apply_jobs true at_once 9 (reminted (λ id. "w") inputs) two_versions
      ≡ done (map unmade two_results) c'')
    × (two_versions.versions ≡ c''.versions)
apply_jobs_again_example =
    apply_jobs_again true at_once 5 9 (λ id. "w") inputs no_jobs two_versions two_results at_once
      two_applied refl

Reached-Upward_example :
    ((name : String)
      → Upward 0 (
          select (of_job name) (after no_jobs (apply_jobs true at_once 5 inputs no_jobs)).versions))
    × WellFormed (after no_jobs (apply_jobs true at_once 5 inputs no_jobs))
Reached-Upward_example =
    Reached-Upward (after no_jobs (apply_jobs true at_once 5 inputs no_jobs))
      (applied true at_once 5 inputs empty)
