-- ===== src/Jobs/Pool/Closing.antt =====
-- What the end of a job writes into its record.
use try_ops_try_on_mlops.Base.{
  ℕ, ◌≡◌, ◌≢◌, refl, Option, none, some, arith, string_eq, inl, inr, ◌⊎◌, ◌↔◌,
}
use text.Mathlib.TextEquality.{eq_iff}
use text.Mathlib.TextPositions.{eq_refl}
use try_ops_try_on_mlops.Base.Json.{Json, Fields, end, field, null, obj, str, get}
use try_ops_try_on_mlops.Jobs.Record.{
  completed, failed, JobRecord, Outcome, returned, raised, final_status, finished,
}
use try_ops_try_on_mlops.Jobs.Pool.Lifecycle.{begin, SameJob}

pub Status-final : (o : Option Json) → (final_status o ≡ completed) ⊎ (final_status o ≡ failed)
Status-final o = ground arith

-- the error that is stored for what the result has under "error"
abbrev pub reported : Option Json → Option Json
reported none = some (obj (field "code" (str "job_failed") end))
reported (some null) = none
reported (some v) = some v

pub finished-error :
    (result : Fields) (now : ℕ) (r : JobRecord)
    → final_status (get "status" result) ≡ failed
    → (finished (returned result) now r).error ≡ reported (get "error" result)
unfolding finished
finished-error result now r bad = ground arith

pub null_of_reported : (o : Option Json) → reported o ≡ none → o ≡ some null
null_of_reported none h = cc
null_of_reported (some null) h = refl
null_of_reported (some v) h = ground arith

pub finished-completed_at :
    (o : Outcome) (now : ℕ) (r : JobRecord) → (finished o now r).completed_at ≡ some now
unfolding finished
finished-completed_at (returned result) now r = refl
finished-completed_at (raised message) now r = refl

-- The runner has returned a result whose status is "completed".
abbrev pub IsSuccess : Outcome → Type 0
IsSuccess (returned result) = get "status" result ≡ some (str "completed")
IsSuccess (raised message) = ⊥

pub finished-completed :
    (o : Outcome) (now : ℕ) (r : JobRecord) → ((finished o now r).status ≡ completed) ↔ IsSuccess o
unfolding finished
finished-completed (raised message) now r = (λ h. cc, λ h. absurd h)
finished-completed (returned result) now r =
    (is_completed (get "status" result), λ h. ground (arith, eq_refl "completed"))
  where
    is_completed : (v : Option Json) → final_status v ≡ completed → v ≡ some (str "completed")
    is_completed none h = cc
    is_completed (some (str t)) h = ground (arith, eq_iff t "completed")
    is_completed (some v) h = ground arith

-- What the end of a job writes. A result is kept, with an error only if its status is not "completed": the one
-- that it has, the default if it has none. An exception leaves the result and gives its message.
abbrev pub Closed : Outcome → JobRecord → JobRecord → Type 0
Closed (returned result) rec r =
    (r.result ≡ some result)
    × (get "status" result ≡ some (str "completed") → r.error ≡ rec.error)
    × (get "status" result ≢ some (str "completed") → r.error ≡ reported (get "error" result))
Closed (raised message) rec r =
    (r.result ≡ rec.result)
    × (r.error
        ≡ some (obj (field "code" (str "job_exception") (field "message" (str message) end))))

pub finished-Closed : (o : Outcome) (now : ℕ) (r : JobRecord) → Closed o r (finished o now r)
unfolding finished
finished-Closed (raised message) now r = (refl, refl)
finished-Closed (returned result) now r =
    let o : Outcome = returned result in
    (
      refl,
      (λ good. let done = (finished-completed o now r).1 good in rw done refl),
      (λ bad. elim (Status-final (get "status" result)) [
        | inl done ↦ absurd (bad ((finished-completed o now r).0 done))
        | inr bad_end ↦ finished-error result now r bad_end
      ]),
    )

pub finished-status :
    (o : Outcome) (now : ℕ) (r : JobRecord)
    → ((finished o now r).status ≡ completed) ⊎ ((finished o now r).status ≡ failed)
unfolding finished
finished-status (returned result) now r = Status-final (get "status" result)
finished-status (raised message) now r = inr refl

pub finished-started_at :
    (o : Outcome) (now : ℕ) (r : JobRecord) → (finished o now r).started_at ≡ r.started_at
unfolding finished
finished-started_at (returned result) now r = refl
finished-started_at (raised message) now r = refl

pub SameJob-begin : (now : ℕ) (rec r : JobRecord) → SameJob (begin now rec) r → SameJob rec r
SameJob-begin now rec r s = record {
  job_id = s.job_id;
  workload = s.workload;
  request_id = s.request_id;
  created_at = s.created_at;
  account_id = s.account_id;
  principal_subject = s.principal_subject;
  payload_metadata = s.payload_metadata;
}

pub Closed-begin :
    (o : Outcome) (now : ℕ) (rec r : JobRecord) → Closed o (begin now rec) r → Closed o rec r
Closed-begin (returned result) now rec r c = c
Closed-begin (raised message) now rec r c = c
