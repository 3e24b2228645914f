-- ===== src/Jobs/Record.antt =====
-- src/tryops/jobs.py: `JobRecord`, and the methods of `InMemoryJobQueue` on one job. A clock value
-- (`_now`) and a fresh id (`uuid4`) are arguments. Dicts are values, so a `deepcopy` is the value.
use try_ops_try_on_mlops.Base.{
  ℕ, leb, String, Bool, true, false, ◌&&◌, ◌≡◌, ◌↔◌, Option, none, some, count_if, arith,
  if◌then◌else◌, ◌==◌, Eq, string_eq, option_eq, [],
}
use try_ops_try_on_mlops.Base.Dict.{Dict, lookup, insert, values}
use try_ops_try_on_mlops.Base.Json.{
  Json, null, str, Fields, end, field, get, get_or, setdefault, is_str,
}

-- the values that `record.status` is given
pub data Status : Type 0 where
  queued running completed failed : Status

abbrev pub status_beq : Status → Status → Bool
status_beq queued queued = true
status_beq running running = true
status_beq completed completed = true
status_beq failed failed = true
status_beq _ _ = false

pub status_beq_iff : (a b : Status) → (status_beq a b ≡ true) ↔ (a ≡ b)
status_beq_iff a b = (λ h. ground arith, λ h. ground arith)

instance abbrev pub status_eq : Eq Status
status_eq = record { beq = status_beq; beq_iff = status_beq_iff }

-- `status in ACTIVE_JOB_STATUSES`
abbrev pub is_active : Status → Bool
is_active queued = true
is_active running = true
is_active _ = false

pub record JobRecord : Type 0 where
  pub job_id : String
  pub workload : String
  pub request_id : String
  pub status : Status
  pub created_at : ℕ
  pub queued_at : ℕ
  pub account_id : Option String
  pub principal_subject : Option String
  pub started_at : Option ℕ
  pub completed_at : Option ℕ
  pub result : Option Fields
  pub error : Option Json
  pub payload_metadata : Fields

-- `to_dict`: the keys `error` and `result` are left out where the value is None, so the dict is the
-- record again, and without its result if `include_result` is False.
unfoldable pub to_dict : Bool → JobRecord → JobRecord
to_dict true r = r
to_dict false r = record r { result = none }

pub record JobQueue : Type 0 where
  pub max_workers : ℕ
  pub records : Dict String JobRecord

-- the two `continue` tests on the filters of `active_count_locked` and `list`
abbrev pub passes : Option String → String → Bool
passes none s = true
passes (some w) s = s == w

abbrev pub passes_account : Option String → Option String → Bool
passes_account none s = true
passes_account (some w) s = s == some w

abbrev pub counts : Option String → Option String → JobRecord → Bool
counts account_id workload r =
    is_active r.status && passes_account account_id r.account_id && passes workload r.workload

unfoldable pub active_count_locked : JobQueue → Option String → Option String → ℕ
active_count_locked q account_id workload = count_if (counts account_id workload) (values q.records)

unfoldable pub queue_depth_locked : JobQueue → ℕ
unfolding active_count_locked
queue_depth_locked q = active_count_locked q none none

pub record SubmitRequest : Type 0 where
  pub workload : String
  pub request_id : String
  pub payload : Fields
  pub account_id : Option String
  pub principal_subject : Option String
  pub active_limit : Option ℕ
  pub payload_metadata : Fields

-- What the executor is given: `_run`'s job id and payload.
pub record Task : Type 0 where
  pub job_id : String
  pub payload : Fields

-- `accepted` holds the new queue, the snapshot passed to `on_update`, the task for the executor and
-- the queue depth of the reply; `limit_exceeded` is `JobConcurrencyLimitExceeded`.
pub data SubmitResult : Type 0 where
  accepted : JobQueue → JobRecord → Task → ℕ → SubmitResult
  limit_exceeded : (active : ℕ) → (limit : ℕ) → SubmitResult

unfoldable pub new_record : String → ℕ → SubmitRequest → JobRecord
new_record job_id now r = record {
  job_id = job_id;
  workload = r.workload;
  request_id = r.request_id;
  status = queued;
  created_at = now;
  queued_at = now;
  account_id = r.account_id;
  principal_subject = r.principal_subject;
  started_at = none;
  completed_at = none;
  result = none;
  error = none;
  payload_metadata = r.payload_metadata;
}

unfoldable pub enqueue : JobQueue → String → ℕ → SubmitRequest → SubmitResult
unfolding new_record queue_depth_locked to_dict
enqueue q job_id now r =
    let rec = new_record job_id now r in
    let q' : JobQueue = record q { records = insert job_id rec q.records } in
    accepted q' (to_dict false rec)
      (record { job_id = job_id; payload = setdefault "job_id" (str job_id) r.payload })
      (queue_depth_locked q')

abbrev pub submit_limited : Option ℕ → JobQueue → String → ℕ → SubmitRequest → SubmitResult
unfolding enqueue active_count_locked
submit_limited none q job_id now r = enqueue q job_id now r
submit_limited (some limit) q job_id now r =
    let active : ℕ = active_count_locked q r.account_id (some r.workload) in
    if leb limit active then limit_exceeded active limit else enqueue q job_id now r

unfoldable pub submit : JobQueue → String → ℕ → SubmitRequest → SubmitResult
submit q job_id now r = submit_limited r.active_limit q job_id now r

-- `_run` up to the call of the runner. `none` is the `KeyError` of `self._records[job_id]`: the
-- record is gone after a `reset`.
unfoldable pub start : JobQueue → String → ℕ → Option (JobQueue × JobRecord)
unfolding to_dict
start q job_id now = elim (lookup job_id q.records) [
  | none ↦ none
  | some rec ↦
      let rec' : JobRecord = record rec { status = running; started_at = some now } in
      some (record q { records = insert job_id rec' q.records }, to_dict false rec')
]

-- How the call of the runner ends. `raised` holds the text of the exception; it stands too for
-- what fails in the `try` block behind the call, as for a result that is no dict.
pub data Outcome : Type 0 where
  returned : Fields → Outcome
  raised : String → Outcome

-- `{"code": "job_failed"}`
abbrev job_failed : Json
job_failed = Json.obj (field "code" (str "job_failed") end)

abbrev pub final_status : Option Json → Status
final_status none = failed
final_status (some v) = if is_str "completed" v then completed else failed

-- a value that is stored where None is "no value"
abbrev unless_null : Json → Option Json
unless_null null = none
unless_null v = some v

-- the record after the `try` block, or after the `except` block
unfoldable pub finished : Outcome → ℕ → JobRecord → JobRecord
finished (returned result) now rec =
    let status : Status = final_status (get "status" result) in
    record rec {
      status = status;
      result = some result;
      completed_at = some now;
      error =
          if status == failed then unless_null (get_or "error" job_failed result) else rec.error;
    }
finished (raised message) now rec = record rec {
  status = failed;
  completed_at = some now;
  error = some (Json.obj (field "code" (str "job_exception") (field "message" (str message) end)));
}

-- `_run` from the end of the runner's call on. `none`: the record is gone, and the `KeyError` in
-- the `try` block is followed by the one in the `except` block.
unfoldable pub finish : JobQueue → String → ℕ → Outcome → Option (JobQueue × JobRecord)
unfolding finished to_dict
finish q job_id now o = elim (lookup job_id q.records) [
  | none ↦ none
  | some rec ↦
      let rec' : JobRecord = finished o now rec in
      some (record q { records = insert job_id rec' q.records }, to_dict true rec')
]

unfoldable pub get_job : JobQueue → String → Option (JobRecord × ℕ)
unfolding to_dict queue_depth_locked
get_job q job_id = elim (lookup job_id q.records) [
  | none ↦ none
  | some rec ↦ some (to_dict true rec, queue_depth_locked q)
]

unfoldable pub reset : JobQueue → JobQueue
reset q = record q { records = [] }
