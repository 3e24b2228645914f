-- ===== src/Jobs/Tests.antt =====
-- Runs of the job queue at concrete inputs.
use try_ops_try_on_mlops.Base.{
  ◌≤◌, String, string_eq, option_eq, true, false, ◌≡◌, ◌≢◌, ◌↔◌, ◌⊎◌, refl, none, some, List, [],
  ◌∷◌, ◌++◌, count_if, length, min, All, arith,
}
use mathlib.Core.List.{Perm}
use try_ops_try_on_mlops.Base.Int.{negsuc}
use try_ops_try_on_mlops.Base.Dict.{lookup, values}
use try_ops_try_on_mlops.Base.Json.{Fields, end, field, null, str}
use try_ops_try_on_mlops.Base.Sort.{IsDescending}
use try_ops_try_on_mlops.Jobs.Record.{
  status_eq, queued, running, completed, failed, JobRecord, SubmitRequest, raised, returned,
  active_count_locked, new_record, enqueue, submit, start, finish, finished, to_dict,
  queue_depth_locked,
}
use try_ops_try_on_mlops.Jobs.Listing.{
  ListQuery, Clamped, bounded_limit, matches, matching, list_jobs, list_jobs_page,
}
use try_ops_try_on_mlops.Jobs.Submission.{Refused, HasRoom, Accepted, submit_cases}
use try_ops_try_on_mlops.Jobs.Pool.{
  Pool, Event, submitting, starting, finishing, resetting, apply, Runs, run, new_pool, Enabled,
}
use try_ops_try_on_mlops.Jobs.Pool.Agreement.{is_running, run-Agrees, running-le-max_workers}
use try_ops_try_on_mlops.Jobs.Pool.Progress.{remaining, Moves, active_jobs, run-active_jobs}
use try_ops_try_on_mlops.Jobs.Pool.Limits.{AllRespect, active-le-bound}
use try_ops_try_on_mlops.Jobs.Pool.Lifecycle.{Continues, SameJob, apply-Continues}
use try_ops_try_on_mlops.Jobs.Pool.Closing.{IsSuccess, Closed}
use try_ops_try_on_mlops.Jobs.Pool.Filling.{Filled, run-Filled, start-finish}

abbrev request : SubmitRequest
request = record {
  workload = "vton";
  request_id = "request-1";
  payload = end;
  account_id = some "workspace";
  principal_subject = none;
  active_limit = some 1;
  payload_metadata = end;
}

-- One job runs to an error while another is refused; a third is accepted and started.
abbrev events : List Event
events =
    submitting "one" 5 request
    ∷ starting "one" 6
    ∷ submitting "two" 7 request
    ∷ finishing "one" 8 (raised "no GPU")
    ∷ submitting "three" 9 request
    ∷ starting "three" 10
    ∷ []

events-Runs : Runs (new_pool 1) events
unfolding apply submit enqueue new_record start finish finished active_count_locked
    queue_depth_locked to_dict
events-Runs = (
  (refl, refl),
  ((refl, omega arith), ((refl, refl), (refl, ((refl, refl), ((refl, omega arith), tt))))),
)

-- The third job ends after all this.
abbrev ending : List Event
ending = finishing "three" 11 (raised "no GPU") ∷ []

ending-Runs : Runs (run (new_pool 1) events) ending
unfolding run apply submit enqueue new_record start finish finished active_count_locked
    queue_depth_locked to_dict
ending-Runs = (refl, tt)

run-active_jobs_example :
    (length ending ≤ remaining (run (new_pool 1) events))
    × (Moves (run (run (new_pool 1) events) ending)
        ⊎ (active_jobs (run (run (new_pool 1) events) ending) ≡ 0))
run-active_jobs_example =
    run-active_jobs 1 events ending (omega arith) events-Runs ending-Runs (tt, tt)

events-AllRespect : AllRespect "workspace" "vton" 1 events
events-AllRespect = (
  λ a w. (1, refl, omega arith),
  (tt, (λ a w. (1, refl, omega arith), (tt, (λ a w. (1, refl, omega arith), (tt, tt))))),
)

active-le-bound_example :
    active_count_locked (run (new_pool 1) events).queue (some "workspace") (some "vton") ≤ 1
active-le-bound_example =
    active-le-bound "workspace" "vton" 1 1 events events-Runs events-AllRespect

running-le-max_workers_example :
    count_if is_running (values (run (new_pool 1) events).queue.records)
    ≤ (run (new_pool 1) events).queue.max_workers
running-le-max_workers_example = running-le-max_workers 1 events events-Runs

abbrev ended : JobRecord
ended =
    finished (raised "no GPU") 8
      (record (new_record "one" 5 request) { status = running; started_at = some 6 })

ended_found : lookup "one" (run (new_pool 1) events).queue.records ≡ some ended
unfolding run apply submit enqueue new_record start finish finished active_count_locked
    queue_depth_locked to_dict
ended_found = refl

run-Filled_example : Filled ended.status ended
run-Filled_example = run-Filled 1 events "one" ended events-Runs ended_found

-- The queue in which one job waits.
abbrev one_job : Pool
one_job = run (new_pool 1) (submitting "one" 5 request ∷ [])

one_job-Runs : Runs (new_pool 1) (submitting "one" 5 request ∷ [])
one_job-Runs = ((refl, refl), tt)

one_job_found : lookup "one" one_job.queue.records ≡ some (new_record "one" 5 request)
unfolding run apply submit enqueue new_record active_count_locked queue_depth_locked to_dict
one_job_found = refl

one_job-Enabled : Enabled one_job (starting "one" 6)
unfolding run apply submit enqueue new_record active_count_locked queue_depth_locked to_dict
one_job-Enabled = (refl, omega arith)

starting_resets_not : starting "one" 6 ≢ resetting
starting_resets_not = λ h. cc

apply-Continues_example :
    Continues
      (new_record "one" 5 request)
      (lookup "one" (apply one_job (starting "one" 6)).queue.records)
apply-Continues_example =
    apply-Continues one_job (starting "one" 6) "one" (new_record "one" 5 request) one_job-Enabled
      starting_resets_not (run-Agrees 1 (submitting "one" 5 request ∷ []) one_job-Runs)
      one_job_found

-- a result with a null under "error"
abbrev no_error : Fields
no_error = field "status" (str "failed") (field "error" null end)

-- A failed job can be without an error.
no_error_failed :
    let r = finished (returned no_error) 8 (new_record "one" 5 request) in
    (r.status ≡ failed) × (r.error ≡ none)
unfolding finished
no_error_failed = (refl, refl)

start-finish_example :
    let t = apply (apply one_job (starting "one" 6)) (finishing "one" 8 (returned no_error)) in
    (r : JobRecord) × (lookup "one" t.queue.records ≡ some r)
    × SameJob (new_record "one" 5 request) r
    × ((r.status ≡ completed) ⊎ (r.status ≡ failed))
    × (r.started_at ≡ some 6)
    × Closed (returned no_error) (new_record "one" 5 request) r
    × ((r.status ≡ completed) ↔ IsSuccess (returned no_error))
    × (r.completed_at ≡ some 8)
    × (lookup "one" t.tasks ≡ none)
    × ((j : String) → "one" ≢ j → lookup j t.queue.records ≡ lookup j one_job.queue.records)
start-finish_example =
    start-finish one_job "one" (new_record "one" 5 request) 6 8 (returned no_error) one_job_found

unused : lookup "two" one_job.queue.records ≡ none
unfolding run apply submit enqueue new_record active_count_locked queue_depth_locked to_dict
unused = refl

submit_cases_example :
    Refused one_job.queue request (submit one_job.queue "two" 7 request)
    ⊎ HasRoom one_job.queue request
      × Accepted one_job.queue "two" 7 request (submit one_job.queue "two" 7 request)
submit_cases_example = submit_cases one_job.queue "two" 7 request unused

abbrev query : ListQuery
query = record {
  account_id = some "workspace";
  workload = none;
  statuses = some (queued ∷ failed ∷ []);
  include_result = false;
  limit = negsuc 0;
}

list_jobs_page_example :
    let page = list_jobs one_job.queue query in
    (rest : List JobRecord) × Perm (page ++ rest) (matching one_job.queue query)
    × IsDescending (λ r. r.created_at) (page ++ rest)
    × All (λ r. matches query r ≡ true) page
    × IsDescending (λ r. r.created_at) page
    × (length page
        ≡ min (bounded_limit query.limit) (count_if (matches query) (values one_job.queue.records)))
    × Clamped query.limit (bounded_limit query.limit)
list_jobs_page_example = list_jobs_page one_job.queue query
