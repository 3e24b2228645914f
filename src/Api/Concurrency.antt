-- ===== src/Api/Concurrency.antt =====
-- src/tryops/api.py: the limit on the active try-on jobs of an account, and the submission of a job under it. The value
-- of the environment variable of a plan (`raw_limit`, of the plan's normalized name) and the count of the database
-- (`persisted`) are arguments.
use try_ops_try_on_mlops.Base.{
  ℕ, ◌-◌, ◌≤◌, ◌<◌, min, max, leb, String, string_eq, ◌≡◌, refl, ◌⊎◌, inl, inr, Option, none, some,
  [], ◌∷◌, if◌then◌else◌, ◌==◌, arith, Bool-cases,
}
use try_ops_try_on_mlops.Base.Dict
use try_ops_try_on_mlops.Base.Dict.{Dict, lookup}
use try_ops_try_on_mlops.Base.Int.{ℤ, pos, negsuc}
use try_ops_try_on_mlops.Base.Json.{str}
use try_ops_try_on_mlops.Base.Python.{Python}
use try_ops_try_on_mlops.Base.Text.{strip}
use try_ops_try_on_mlops.Jobs.Record.{
  JobQueue, SubmitRequest, SubmitResult, active_count_locked, submit,
}
use try_ops_try_on_mlops.Jobs.Submission.{Accepted, submit_cases}

pub record JobConcurrency : Type 0 where
  pub plan : String
  pub active : ℕ
  pub limit : ℕ
  pub remaining : ℕ
  pub global_workers : ℕ

-- `defaults` of `_vton_concurrency_limit`
abbrev pub plan_defaults : Dict String ℕ
plan_defaults = ("free", 1) ∷ ("team", 2) ∷ ("enterprise", 4) ∷ []

-- `max(minimum, min(maximum, value))` for a `minimum` that is not negative
abbrev pub clamp : ℕ → ℕ → ℤ → ℕ
clamp minimum maximum (pos n) = max minimum (min maximum n)
clamp minimum maximum (negsuc n) = minimum

-- what `submit_vton_job` comes to: the API's own refusal, or what the queue says
pub data Submission : Type 0 where
  refused_by_api : JobConcurrency → Submission
  given_to_queue : SubmitResult → Submission

-- `_count_persisted_active_jobs`
abbrev pub persisted_active : Option String → ℕ → ℕ
persisted_active none persisted = 0
persisted_active (some account_id) persisted = if account_id == "" then 0 else persisted

module _ (py : Python) (raw_limit : String → String) where
  -- `plan.strip().lower() or "free"`
  abbrev pub normalize_plan : String → String
  normalize_plan plan = let plan' = py.lower (strip plan) in if plan' == "" then "free" else plan'

  -- `_env_int`
  abbrev pub env_int : String → ℕ → ℕ → ℕ → ℕ
  env_int raw default minimum maximum =
      if strip raw == "" then default else elim (py.json_int (str (strip raw))) [
        | none ↦ default
        | some value ↦ clamp minimum maximum value
      ]

  unfoldable pub vton_concurrency_limit : String → ℕ
  vton_concurrency_limit plan =
      env_int (raw_limit (normalize_plan plan)) (Dict.get_or (normalize_plan plan) 1 plan_defaults)
        1 32

  unfoldable pub vton_job_concurrency : JobQueue → ℕ → Option String → String → JobConcurrency
  unfolding vton_concurrency_limit
  vton_job_concurrency q persisted account_id plan =
      let limit = vton_concurrency_limit (normalize_plan plan) in
      let active =
        max (active_count_locked q account_id (some "vton"))
          (persisted_active account_id persisted) in
      record {
        plan = normalize_plan plan;
        active = active;
        limit = limit;
        remaining = limit - active;
        global_workers = q.max_workers;
      }

  -- the request as it is passed to the queue
  abbrev pub limited_request : ℕ → SubmitRequest → SubmitRequest
  limited_request limit r = record r { workload = "vton"; active_limit = some limit }

  -- the submission of a try-on job, from the reading of the concurrency on
  unfoldable pub submit_vton_job : JobQueue → String → ℕ → SubmitRequest → ℕ → String → Submission
  unfolding vton_job_concurrency
  submit_vton_job q job_id now r persisted plan =
      let c = vton_job_concurrency q persisted r.account_id plan in
      if leb c.limit c.active
      then refused_by_api c
      else given_to_queue (submit q job_id now (limited_request c.limit r))

  default_in_range :
      (plan : String)
      → (1 ≤ Dict.get_or plan 1 plan_defaults) × (Dict.get_or plan 1 plan_defaults ≤ 32)
  default_in_range plan = ground arith

  clamp_in_range : (n : ℤ) → (1 ≤ clamp 1 32 n) × (clamp 1 32 n ≤ 32)
  clamp_in_range (pos n) = omega arith
  clamp_in_range (negsuc n) = omega arith

  parsed :
      (o : Option ℤ) (plan : String)
      → let limit : ℕ = elim o [
        | none ↦ Dict.get_or plan 1 plan_defaults
        | some value ↦ clamp 1 32 value
      ] in
        (1 ≤ limit) × (limit ≤ 32)
  parsed none plan = default_in_range plan
  parsed (some value) plan = clamp_in_range value

  -- Whatever the plan and the environment are, the limit lies between 1 and 32.
  pub vton_concurrency_limit_range :
      (plan : String) → (1 ≤ vton_concurrency_limit plan) × (vton_concurrency_limit plan ≤ 32)
  unfolding vton_concurrency_limit
  vton_concurrency_limit_range plan =
      let raw = raw_limit (normalize_plan plan) in
      elim (Bool-cases (strip raw == "")) [
        | inl blank ↦ rw blank (default_in_range (normalize_plan plan))
        | inr set ↦ rw set (parsed (py.json_int (str (strip raw))) (normalize_plan plan))
      ]

  -- A try-on job under an unused id is refused by the API if nothing remains of the limit; if anything remains, and
  -- nothing else happens in between, the queue accepts the job. The limit lies between 1 and 32.
  pub submit_vton_job_cases :
      (q : JobQueue) (job_id : String) (now : ℕ) (r : SubmitRequest) (persisted : ℕ) (plan : String)
      → lookup job_id q.records ≡ none
      → let c = vton_job_concurrency q persisted r.account_id plan in
        (1 ≤ c.limit)
        × (c.limit ≤ 32)
        × ((c.remaining ≡ 0) × (submit_vton_job q job_id now r persisted plan ≡ refused_by_api c)
            ⊎ (0 < c.remaining)
              × ((result : SubmitResult) × (submit_vton_job q job_id now r persisted plan
                    ≡ given_to_queue result)
                  × Accepted q job_id now (limited_request c.limit r) result))
  unfolding submit_vton_job vton_job_concurrency
  submit_vton_job_cases q job_id now r persisted plan fresh =
      let c = vton_job_concurrency q persisted r.account_id plan in
      let (low, high) = vton_concurrency_limit_range (normalize_plan plan) in
      (
        low,
        high,
        elim (Bool-cases (leb c.limit c.active)) [
          | inl full ↦ inl (ground arith, rw full refl)
          | inr room ↦
              let request = limited_request c.limit r in
              let taken : Accepted q job_id now request (submit q job_id now request) =
                elim (submit_cases q job_id now request fresh) [
                  | inl (limit, is, reached, _) ↦
                      absurd (
                        let same : c.limit ≡ limit = cc (is) in ground (arith, same, reached, room))
                  | inr (_, taken) ↦ taken
                ] in
              inr (ground arith, (submit q job_id now request, rw room refl, taken))
        ],
      )
