-- ===== src/Jobs/Submission.antt =====
-- src/tryops/jobs.py: `submit`, on every branch.
use try_ops_try_on_mlops.Base.{
  ℕ, ◌+◌, ◌≤◌, ◌<◌, String, false, ◌≡◌, ◌≢◌, refl, Option, none, some, ◌⊎◌, inl, inr, arith, leb,
  string_eq, ap, ◌∙◌, Bool-cases, leb→le,
}
use text.Mathlib.TextEquality.{eq_iff}
use text.Mathlib.TextPositions.{eq_refl}
use try_ops_try_on_mlops.Base.Dict.{insert, lookup, lookup-insert, count_if-insert_new}
use try_ops_try_on_mlops.Base.Json.{str, setdefault}
use try_ops_try_on_mlops.Jobs.Record.{
  JobRecord, JobQueue, SubmitRequest, SubmitResult, accepted, limit_exceeded, Task,
  active_count_locked, queue_depth_locked, counts, new_record, submit_limited, enqueue, submit,
  get_job, to_dict,
}

-- The submission is refused for a limit that the active jobs of the account and workload reach.
abbrev pub Refused : JobQueue → SubmitRequest → SubmitResult → Type 0
Refused q r result =
    (limit : ℕ) × (r.active_limit ≡ some limit)
    × (limit ≤ active_count_locked q r.account_id (some r.workload))
    × (result ≡ limit_exceeded (active_count_locked q r.account_id (some r.workload)) limit)

-- No limit is given, or the active jobs are below it.
abbrev pub HasRoom : JobQueue → SubmitRequest → Type 0
HasRoom q r =
    (limit : ℕ)
    → r.active_limit ≡ some limit
    → active_count_locked q r.account_id (some r.workload) < limit

-- The submission is accepted: `get` finds the job queued, behind one more active job than before, and
-- finds the other jobs as before.
abbrev pub Accepted : JobQueue → String → ℕ → SubmitRequest → SubmitResult → Type 0
Accepted q id now r result =
    (q' : JobQueue) × (snapshot : JobRecord) × (task : Task) × (result
      ≡ accepted q' snapshot task (queue_depth_locked q + 1))
    × (get_job q' id ≡ some (new_record id now r, queue_depth_locked q + 1))
    × ((j : String) → id ≢ j → lookup j q'.records ≡ lookup j q.records)

depth-enqueue :
    (q : JobQueue) (id : String) (now : ℕ) (r : SubmitRequest)
    → lookup id q.records ≡ none
    → queue_depth_locked (record q { records = insert id (new_record id now r) q.records })
      ≡ queue_depth_locked q + 1
unfolding queue_depth_locked new_record
depth-enqueue q id now r fresh =
    count_if-insert_new (counts none none) id (new_record id now r) q.records fresh

get-enqueue :
    (q : JobQueue) (id : String) (rec : JobRecord)
    → get_job (record q { records = insert id rec q.records }) id
      ≡ some (rec, queue_depth_locked (record q { records = insert id rec q.records }))
unfolding get_job
get-enqueue q id rec =
    let found : lookup id (insert id rec q.records) ≡ some rec =
      ground (arith, lookup-insert id id rec q.records, eq_refl id) in
    rw (found, get_job)

enqueue-Accepted :
    (q : JobQueue) (id : String) (now : ℕ) (r : SubmitRequest)
    → lookup id q.records ≡ none
    → Accepted q id now r (enqueue q id now r)
unfolding enqueue
enqueue-Accepted q id now r fresh =
    let rec = new_record id now r in
    let q' : JobQueue = record q { records = insert id rec q.records } in
    let task : Task = record { job_id = id; payload = setdefault "job_id" (str id) r.payload } in
    let depth = depth-enqueue q id now r fresh in
    (
      q',
      to_dict false rec,
      task,
      ap (accepted q' (to_dict false rec) task) depth,
      get-enqueue q id rec ∙ ap (λ (d : ℕ). some (rec, d)) depth,
      λ j ne. ground (arith, lookup-insert id j rec q.records, eq_iff id j),
    )

submit_limited_cases :
    (limit : Option ℕ) (q : JobQueue) (id : String) (now : ℕ) (r : SubmitRequest)
    → r.active_limit ≡ limit
    → lookup id q.records ≡ none
    → Refused q r (submit_limited limit q id now r)
      ⊎ HasRoom q r × Accepted q id now r (submit_limited limit q id now r)
unfolding enqueue active_count_locked
submit_limited_cases none q id now r e fresh =
    inr (λ l e'. absurd (cc (e, e')), enqueue-Accepted q id now r fresh)
submit_limited_cases (some limit) q id now r e fresh =
    elim (Bool-cases (leb limit (active_count_locked q r.account_id (some r.workload)))) [
      | inl full ↦ rw full (inl (limit, e, leb→le _ _ full, refl))
      | inr room ↦ rw room (
          inr (
            (λ l e'. let eq : limit ≡ l = cc (e, e') in ground (arith, room, eq)),
            enqueue-Accepted q id now r fresh,
          ))
    ]

-- A submission under an unused id is refused, and then a limit is given and the active jobs of its
-- account and workload reach it, or accepted, and then they are below any limit that is given:
-- `get` then finds the job queued, the queue is one job deeper, and no other job is touched.
pub submit_cases :
    (q : JobQueue) (id : String) (now : ℕ) (r : SubmitRequest)
    → lookup id q.records ≡ none
    → Refused q r (submit q id now r) ⊎ HasRoom q r × Accepted q id now r (submit q id now r)
unfolding submit
submit_cases q id now r fresh = submit_limited_cases r.active_limit q id now r refl fresh
