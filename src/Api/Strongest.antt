-- ===== src/Api/Strongest.antt =====
-- What `_merge_job_records` gives for a job that several records are of.
use mathlib.Core.Path.{subst}
use try_ops_try_on_mlops.Base.{
  ◌≤◌, nat_eq, string_eq, true, false, ◌≡◌, some, List, [], ◌++◌, All, All-append, take-All, length,
  length-take_le, ◌==◌,
}
use try_ops_try_on_mlops.Base.Dict.{lookup, values}
use try_ops_try_on_mlops.Base.Int.{ℤ}
use try_ops_try_on_mlops.Base.Json.{Fields}
use try_ops_try_on_mlops.Base.Python.{Python}
use try_ops_try_on_mlops.Base.Sort.{sort_by, sort_by-All}
use try_ops_try_on_mlops.Api.Merge.{
  rank_leb, page_size, job_id_of, is_newer, add_jobs, job_record_rank, merge_job_records,
}
use try_ops_try_on_mlops.Api.Loop.{
  All-imply, All-both, add_jobs-Merged, Beaten, add_jobs_beat, values-lookup,
}

-- A record of the page is of a job that has one, and no record of its job has a higher rank.
abbrev pub IsStrongest : Python → List Fields → Fields → Type 0
IsStrongest py jobs best =
    All
      (λ job.
        (job_id_of py job == "") ≡ false
        → job_id_of py job ≡ job_id_of py best
        → rank_leb (job_record_rank py job) (job_record_rank py best) ≡ true)
      jobs

module _ (py : Python) where
  strongest :
      (jobs : List Fields) (best : Fields)
      → lookup (job_id_of py best) (add_jobs (job_id_of py) (job_record_rank py) jobs [])
        ≡ some best
      → IsStrongest py jobs best
  strongest jobs best found =
      All-imply
        (λ job.
          (job_id_of py job == "") ≡ false
          → Beaten (job_id_of py) (job_record_rank py)
              (add_jobs (job_id_of py) (job_record_rank py) jobs []) job)
        (λ job.
          (job_id_of py job == "") ≡ false
          → job_id_of py job ≡ job_id_of py best
          → rank_leb (job_record_rank py job) (job_record_rank py best) ≡ true)
        (λ job beaten named same.
          let (top, at, le) = beaten named in
          let is : top ≡ best = cc (at, found, same) in
          subst (λ t. rank_leb (job_record_rank py job) (job_record_rank py t) ≡ true) is le)
        jobs (add_jobs_beat (job_id_of py) (job_record_rank py) jobs [])

  -- The page has at most as many records as the clamped limit; whatever holds of all persisted and live records holds
  -- of those on the page; and no persisted or live record of a job on the page has a higher rank than the one shown.
  pub merge_job_records-IsStrongest :
      (P : Fields → Type 0) (persisted_jobs live_jobs : List Fields) (limit : ℤ)
      → All P persisted_jobs
      → All P live_jobs
      → (length (merge_job_records py persisted_jobs live_jobs limit) ≤ page_size limit)
        × All
            (λ job. P job × IsStrongest py (persisted_jobs ++ live_jobs) job)
            (merge_job_records py persisted_jobs live_jobs limit)
  unfolding merge_job_records
  merge_job_records-IsStrongest P persisted_jobs live_jobs limit hp hl =
      let jobs = persisted_jobs ++ live_jobs in
      let d = add_jobs (job_id_of py) (job_record_rank py) jobs [] in
      let m =
        add_jobs-Merged (job_id_of py) (job_record_rank py) P jobs []
          (All-append P persisted_jobs live_jobs hp hl)
          (record { keyed = tt; unique = tt; from = tt }) in
      let own = values-lookup (job_id_of py) (job_record_rank py) d m.keyed m.unique in
      let top =
        All-imply (λ v. lookup (job_id_of py v) d ≡ some v) (IsStrongest py jobs) (strongest jobs)
          (values d) own in
      let Q : Fields → Type 0 = λ job. P job × IsStrongest py jobs job in
      let both : All Q (values d) = All-both P (IsStrongest py jobs) (values d) m.from top in
      (
        length-take_le (page_size limit) (sort_by (is_newer py) (values d)),
        take-All Q (page_size limit) (sort_by (is_newer py) (values d))
            (sort_by-All (is_newer py) Q (values d) both),
      )
