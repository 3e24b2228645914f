-- ===== src/Api/Tests.antt =====
-- Two records of one job, and a third job.
use try_ops_try_on_mlops.Base.{
  ◌<◌, ◌⊎◌, ℕ, ◌≤◌, ltb, String, string_eq, ◌≡◌, refl, Option, none, some, List, [], ◌∷◌, ◌++◌, All,
  length,
}
use try_ops_try_on_mlops.Base.Int.{ℤ, pos}
use try_ops_try_on_mlops.Base.Json
use try_ops_try_on_mlops.Base.Json.{Json, Fields, end, field, str, num, null}
use try_ops_try_on_mlops.Base.Python.{Python}
use try_ops_try_on_mlops.Base.Text.{strip}
use try_ops_try_on_mlops.Api.Merge.{merge_job_records, page_size}
use try_ops_try_on_mlops.Jobs.Record.{JobQueue, SubmitRequest, SubmitResult, active_count_locked}
use try_ops_try_on_mlops.Jobs.Submission.{Accepted}
use try_ops_try_on_mlops.Api.Concurrency.{
  refused_by_api, given_to_queue, vton_job_concurrency, submit_vton_job, limited_request,
  submit_vton_job_cases,
}
use try_ops_try_on_mlops.Api.Strongest.{IsStrongest, merge_job_records-IsStrongest}

abbrev text_of : Json → String
text_of (str s) = s
text_of _ = "?"

abbrev int_of : Json → Option ℤ
int_of (num n) = some n
int_of _ = none

abbrev python : Python
python = record {
  Float = ℕ;
  float_lt = ltb;
  float_text = λ n. "?";
  json_text = text_of;
  json_int = int_of;
  lower = λ s. s;
}

abbrev job : String → String → String → Fields
job id status time =
    field "job_id" (str id)
      (field "status" (str status) (field "created_at" (str time) (field "kind" (str "vton") end)))

abbrev persisted : List Fields
persisted = job "a" "completed" "2026-01-01" ∷ job "b" "queued" "2026-01-03" ∷ []

abbrev live : List Fields
live = job "a" "running" "2026-01-01" ∷ job "b" "running" "2026-01-03" ∷ []

merged_page :
    merge_job_records python persisted live (pos 5)
    ≡ job "b" "running" "2026-01-03" ∷ job "a" "completed" "2026-01-01" ∷ []
unfolding merge_job_records strip
merged_page = refl

abbrev IsVton : Fields → Type 0
IsVton d = Json.get "kind" d ≡ some (str "vton")

merge_job_records-IsStrongest_example :
    (length (merge_job_records python persisted live (pos 5)) ≤ page_size (pos 5))
    × All
        (λ d. IsVton d × IsStrongest python (persisted ++ live) d)
        (merge_job_records python persisted live (pos 5))
merge_job_records-IsStrongest_example =
    merge_job_records-IsStrongest python IsVton persisted live (pos 5) (refl, (refl, tt))
      (refl, (refl, tt))

abbrev empty_queue : JobQueue
empty_queue = record { max_workers = 2; records = [] }

abbrev request : SubmitRequest
request = record {
  workload = "vton";
  request_id = "r1";
  payload = end;
  account_id = some "acme";
  principal_subject = none;
  active_limit = none;
  payload_metadata = end;
}

submit_vton_job_cases_example :
    let c = vton_job_concurrency python (λ plan. "") empty_queue 1 (some "acme") " team " in
    (1 ≤ c.limit)
    × (c.limit ≤ 32)
    × ((c.remaining ≡ 0)
          × (submit_vton_job python (λ plan. "") empty_queue "j1" 7 request 1 " team "
              ≡ refused_by_api c)
        ⊎ (0 < c.remaining)
          × ((result : SubmitResult) × (submit_vton_job python
                  (λ plan. "")
                  empty_queue
                  "j1"
                  7
                  request
                  1
                  " team "
                ≡ given_to_queue result)
              × Accepted empty_queue "j1" 7
                  (limited_request python (λ plan. "") c.limit request)
                  result))
submit_vton_job_cases_example =
    submit_vton_job_cases python (λ plan. "") empty_queue "j1" 7 request 1 " team " refl

one_remains :
    (vton_job_concurrency python (λ plan. "") empty_queue 1 (some "acme") " team ").remaining ≡ 1
unfolding vton_job_concurrency strip active_count_locked
one_remains = refl
