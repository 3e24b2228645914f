-- ===== src/Jobs/Pool/Limits.antt =====
-- The limit on the active jobs of a workspace holds in every interleaving: `submit` counts and
-- inserts under one lock.
use try_ops_try_on_mlops.Base.{
  ℕ, ◌+◌, ◌≤◌, String, Bool, true, ◌≡◌, Option, none, some, List, [], ◌∷◌, count_if, arith, leb,
  string_eq, option_eq, Option-cases, inl, inr, Bool-cases,
}
use text.Mathlib.TextEquality.{eq_iff}
use mathlib.Core.Path.{subst}
use try_ops_try_on_mlops.Base.Dict.{
  insert, lookup, values, count_if-insert_present, count_if-insert_new,
}
use try_ops_try_on_mlops.Jobs.Record.{
  queued, running, passes_account, counts, JobRecord, JobQueue, SubmitRequest, Outcome,
  active_count_locked, new_record, submit_limited, enqueue, submit, finished,
}
use try_ops_try_on_mlops.Jobs.Pool.{
  Pool, Event, submitting, starting, finishing, resetting, after_submit, apply, Enabled, IsFresh,
  run, Runs, new_pool,
}
use try_ops_try_on_mlops.Jobs.Pool.Agreement.{
  Fits, Agrees, apply-Agrees, new_pool-Agrees, finished-inactive,
}

passes_account-eq :
    (account : String) (o : Option String)
    → passes_account (some account) o ≡ true
    → o ≡ some account
passes_account-eq account o h = (option_eq.beq_iff o (some account)).0 h

-- A write to a record that changes no filter's answer leaves the count alone, or lowers it.
count_write :
    (p : JobRecord → Bool) (id : String) (rec rec' : JobRecord) (q : JobQueue)
    → lookup id q.records ≡ some rec
    → (p rec' ≡ true → p rec ≡ true)
    → count_if p (values (insert id rec' q.records)) ≤ count_if p (values q.records)
count_write p id rec rec' q there h =
    let moved = count_if-insert_present p id rec' q.records there in
    elim (Bool-cases (p rec')) [
      | inl t ↦ omega (arith, rw (t, h t) at moved)
      | inr f ↦ omega (arith, rw f at moved)
    ]

module _ (account workload : String) (bound : ℕ) where
  -- `active_count(account_id=account, workload=workload)`
  abbrev pub active : Pool → ℕ
  active s = count_if (counts (some account) (some workload)) (values s.queue.records)

  -- A submission for the account and the workload passes an `active_limit` of at most `bound`.
  abbrev pub RequestRespects : SubmitRequest → Type 0
  RequestRespects r =
      r.account_id ≡ some account
      → r.workload ≡ workload
      → (m : ℕ) × (r.active_limit ≡ some m) × (m ≤ bound)

  abbrev pub Respects : Event → Type 0
  Respects (submitting id now r) = RequestRespects r
  Respects _ = Unit

  abbrev pub AllRespect : List Event → Type 0
  AllRespect [] = Unit
  AllRespect (e ∷ es) = Respects e × AllRespect es

  -- A new record that counts is one for the account and the workload.
  new_record-counts :
      (id : String) (now : ℕ) (r : SubmitRequest)
      → counts (some account) (some workload) (new_record id now r) ≡ true
      → (r.account_id ≡ some account) × (r.workload ≡ workload)
  unfolding new_record
  new_record-counts id now r h = (
    passes_account-eq account r.account_id (ground arith),
    (eq_iff r.workload workload).0 (ground arith),
  )

  enqueue_bound :
      (s : Pool) (id : String) (now : ℕ) (r : SubmitRequest)
      → IsFresh s id
      → active s ≤ bound
      → (counts (some account) (some workload) (new_record id now r) ≡ true → active s + 1 ≤ bound)
      → active (after_submit s id (enqueue s.queue id now r)) ≤ bound
  unfolding enqueue
  enqueue_bound s id now r fresh h room =
      let p = counts (some account) (some workload) in
      let grown = count_if-insert_new p id (new_record id now r) s.queue.records fresh.0 in
      elim (Bool-cases (p (new_record id now r))) [
        | inl t ↦ omega (arith, rw t at grown, room t)
        | inr f ↦ omega (arith, rw f at grown)
      ]

  submit_bound :
      (limit : Option ℕ) (s : Pool) (id : String) (now : ℕ) (r : SubmitRequest)
      → IsFresh s id
      → (r.account_id ≡ some account
          → r.workload ≡ workload
          → (m : ℕ) × (limit ≡ some m) × (m ≤ bound))
      → active s ≤ bound
      → active (after_submit s id (submit_limited limit s.queue id now r)) ≤ bound
  unfolding enqueue active_count_locked
  submit_bound none s id now r fresh respects h = enqueue_bound s id now r fresh h λ t.
      let (a, w) = new_record-counts id now r t in let (m, e, _) = respects a w in absurd (cc (e))
  submit_bound (some limit) s id now r fresh respects h =
      elim (Bool-cases (leb limit (active_count_locked s.queue r.account_id (some r.workload)))) [
        | inl full ↦ rw full h
        | inr room ↦ rw room (
            enqueue_bound s id now r fresh h λ t.
              let (a, w) = new_record-counts id now r t in
              let (m, e, le) = respects a w in
              let same : active_count_locked s.queue r.account_id (some r.workload) ≡ active s =
                rw (a, w) in
              let eq : limit ≡ m = cc (e) in ground (arith, same, room, eq, le))
      ]

  start_bound :
      (s : Pool) (id : String) (now : ℕ)
      → Enabled s (starting id now)
      → Agrees s
      → active s ≤ bound
      → active (apply s (starting id now)) ≤ bound
  unfolding apply
  start_bound s id now en a h = elim (Option-cases (lookup id s.queue.records)) [
    | inl gone ↦ rw (gone, apply) h
    | inr (rec, there) ↦
        rw (there, apply)
          (let rec' : JobRecord = record rec { status = running; started_at = some now } in
            omega (
              arith,
              h,
              count_write (counts (some account) (some workload)) id rec rec' s.queue there (λ t.
                  let fit : rec.status ≡ queued =
                    subst (λ p. Fits p rec.status) en.0 (a.fits id rec there) in
                  rw fit t),
            ))
  ]

  finish_bound :
      (s : Pool) (id : String) (now : ℕ) (o : Outcome)
      → active s ≤ bound
      → active (apply s (finishing id now o)) ≤ bound
  unfolding apply
  finish_bound s id now o h = elim (Option-cases (lookup id s.queue.records)) [
    | inl gone ↦ rw (gone, apply) h
    | inr (rec, there) ↦
        rw (there, apply)
          (omega (
            arith,
            h,
            count_write (counts (some account) (some workload)) id rec (finished o now rec) s.queue
                there (λ t. let idle = finished-inactive o now rec in ground arith),
          ))
  ]

  apply_bound :
      (s : Pool) (e : Event)
      → Enabled s e
      → Respects e
      → Agrees s
      → active s ≤ bound
      → active (apply s e) ≤ bound
  apply_bound s (submitting id now r) en respects a h =
      unfold apply submit in submit_bound r.active_limit s id now r en respects h
  apply_bound s (starting id now) en respects a h = start_bound s id now en a h
  apply_bound s (finishing id now o) en respects a h = finish_bound s id now o h
  apply_bound s resetting en respects a h = unfold apply in omega arith

  run_bound :
      (s : Pool) (es : List Event)
      → Runs s es
      → AllRespect es
      → Agrees s
      → active s ≤ bound
      → active (run s es) ≤ bound
  unfolding run
  run_bound s [] r respects a h = h
  run_bound s (e ∷ es) r respects a h =
      run_bound (apply s e) es r.1 respects.1 (apply-Agrees s e r.0 a)
        (apply_bound s e r.0 respects.0 a h)

  -- In every interleaving that starts from an empty queue, if each submission for the account and
  -- the workload passes a limit of at most `bound`, no more than `bound` of its jobs are active.
  pub active-le-bound :
      (n : ℕ) (es : List Event)
      → Runs (new_pool n) es
      → AllRespect es
      → active_count_locked (run (new_pool n) es).queue (some account) (some workload) ≤ bound
  unfolding active_count_locked
  active-le-bound n es r respects =
      run_bound (new_pool n) es r respects (new_pool-Agrees n) (omega arith)
