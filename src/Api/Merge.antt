-- ===== src/Api/Merge.antt =====
-- src/tryops/api.py: `_merge_job_records`, which puts the jobs of the database and of the queue together, and the
-- limit on the jobs of a plan. A job is a JSON dict.
use Prim.Native.String.{compare}
use text.Mathlib.Text.{is_lt}
use try_ops_try_on_mlops.Base.{
  ℕ, min, max, ltb, leb, nat_eq, String, string_eq, Bool, not, ◌&&◌, ◌||◌, Option, none, some, List,
  [], ◌∷◌, ◌++◌, take, if◌then◌else◌, ◌==◌,
}
use try_ops_try_on_mlops.Base.Dict
use try_ops_try_on_mlops.Base.Dict.{Dict, lookup, insert, values}
use try_ops_try_on_mlops.Base.Int.{ℤ, pos, negsuc}
use try_ops_try_on_mlops.Base.Json
use try_ops_try_on_mlops.Base.Json.{Json, Fields, null, str, or_else}
use try_ops_try_on_mlops.Base.Python.{Python}
use try_ops_try_on_mlops.Base.Sort.{sort_by}
use try_ops_try_on_mlops.Base.Text.{strip}

-- `d is not None`, as a number
abbrev pub given : Json → ℕ
given null = 0
given _ = 1

abbrev pub status_ranks : Dict String ℕ
status_ranks =
    ("accepted", 1) ∷ ("queued", 2) ∷ ("running", 3) ∷ ("completed", 4) ∷ ("failed", 4) ∷ []

pub record Rank : Type 0 where
  pub status : ℕ
  pub result : ℕ
  pub error : ℕ

-- `a <= b` of two tuples
unfoldable pub rank_leb : Rank → Rank → Bool
rank_leb a b =
    ltb a.status b.status
    || (a.status == b.status
        && (ltb a.result b.result || (a.result == b.result && leb a.error b.error)))

-- the loop, for jobs with an id and a rank
module _ (id_of : Fields → String) (rank_of : Fields → Rank) where
  -- what is done with a job, by the entry of its id
  abbrev pub choose_job : Fields → Dict String Fields → Option Fields → Dict String Fields
  choose_job job by_id none = insert (id_of job) job by_id
  choose_job job by_id (some existing) =
      if rank_leb (rank_of existing) (rank_of job) then insert (id_of job) job by_id else by_id

  abbrev pub add_job : Fields → Dict String Fields → Dict String Fields
  add_job job by_id =
      if id_of job == "" then by_id else choose_job job by_id (lookup (id_of job) by_id)

  abbrev pub add_jobs : List Fields → Dict String Fields → Dict String Fields
  add_jobs [] by_id = by_id
  add_jobs (job ∷ jobs) by_id = add_jobs jobs (add_job job by_id)

-- `max(1, min(limit, 100))`
abbrev pub page_size : ℤ → ℕ
page_size (pos n) = max 1 (min n 100)
page_size (negsuc n) = 1

module _ (py : Python) where
  -- `str(job.get(key) or "")`
  abbrev pub text_or_empty : String → Fields → String
  text_or_empty key job = py.json_text (or_else (Json.get_or key null job) (str ""))

  abbrev pub job_id_of : Fields → String
  job_id_of job = strip (
      py.json_text
        (or_else (or_else (Json.get_or "job_id" null job) (Json.get_or "id" null job)) (str "")))

  -- `_job_record_rank`
  abbrev pub job_record_rank : Fields → Rank
  job_record_rank job = record {
    status = Dict.get_or (text_or_empty "status" job) 0 status_ranks;
    result = given (Json.get_or "result" null job);
    error = given (Json.get_or "error" null job);
  }

  -- the newest first, and of one time in their order
  abbrev pub is_newer : Fields → Fields → Bool
  is_newer a b = not (is_lt (compare (text_or_empty "created_at" a) (text_or_empty "created_at" b)))

  -- `_merge_job_records`
  unfoldable pub merge_job_records : List Fields → List Fields → ℤ → List Fields
  unfolding sort_by rank_leb
  merge_job_records persisted_jobs live_jobs limit = take (page_size limit) (
      sort_by is_newer
        (values (add_jobs job_id_of job_record_rank (persisted_jobs ++ live_jobs) [])))
