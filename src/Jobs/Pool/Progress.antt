-- ===== src/Jobs/Pool/Progress.antt =====
-- The workers get through what has been submitted: they are never stuck, and each of their steps
-- leaves less to do.
use mathlib.Core.Path.{subst}
use try_ops_try_on_mlops.Base.{
  ℕ, ◌+◌, ◌*◌, ◌≤◌, ◌<◌, String, string_eq, Bool, true, false, not, ◌≡◌, refl, Option, none, some,
  List, [], ◌∷◌, length, count_if, All, arith, leb, ltb, ltb→lt, Option-cases, inl, inr, ◌⊎◌,
  Bool-cases,
}
use try_ops_try_on_mlops.Base.Dict.{
  Dict, lookup, discard, values, Covers, IsUnique, insert-IsUnique, discard-IsUnique,
  lookup-count_if, count_if-Covers, count_if-insert_present, count_if-discard_le,
  count_if-discard_lt,
}
use try_ops_try_on_mlops.Jobs.Record.{
  is_active, SubmitRequest, raised, active_count_locked, submit_limited, enqueue, submit, reset,
}
use try_ops_try_on_mlops.Jobs.Pool.{
  Phase, waiting, working, is_working, Pool, Event, submitting, starting, finishing, resetting,
  after_submit, apply, Enabled, run, Runs, run_induction, new_pool,
}
use try_ops_try_on_mlops.Jobs.Pool.Agreement.{Fits, Agrees, apply-Agrees, new_pool-Agrees}

-- A worker's event, and not a caller's.
abbrev IsWork : Event → Type 0
IsWork (starting id now) = Unit
IsWork (finishing id now o) = Unit
IsWork _ = ⊥

abbrev is_waiting : Phase → Bool
is_waiting p = not (is_working p)

-- The events that the tasks still have ahead of them.
abbrev remaining_of : Dict String Phase → ℕ
remaining_of tasks = 2 * count_if is_waiting (values tasks) + count_if is_working (values tasks)

abbrev pub remaining : Pool → ℕ
remaining s = remaining_of s.tasks

abbrev pub active_jobs : Pool → ℕ
active_jobs s = count_if (λ r. is_active r.status) (values s.queue.records)

discard-remaining_of :
    (tasks : Dict String Phase) (id : String) (p : Phase)
    → lookup id tasks ≡ some p
    → remaining_of (discard id tasks) < remaining_of tasks
discard-remaining_of tasks id waiting there = omega (
  arith,
  count_if-discard_lt is_waiting id waiting tasks there refl,
  count_if-discard_le is_working id tasks,
)
discard-remaining_of tasks id working there = omega (
  arith,
  count_if-discard_lt is_working id working tasks there refl,
  count_if-discard_le is_waiting id tasks,
)

-- Each event of a worker leaves fewer of them.
apply-remaining :
    (s : Pool) (e : Event) → Enabled s e → IsWork e → remaining (apply s e) < remaining s
unfolding apply
apply-remaining s (starting id now) en w = elim (Option-cases (lookup id s.queue.records)) [
  | inl gone ↦ rw (gone, apply) (discard-remaining_of s.tasks id waiting en.0)
  | inr (rec, there) ↦
      rw (there, apply)
        (omega (
          arith,
          count_if-insert_present is_working id working s.tasks en.0,
          count_if-insert_present is_waiting id working s.tasks en.0,
        ))
]
apply-remaining s (finishing id now o) en w = elim (Option-cases (lookup id s.queue.records)) [
  | inl gone ↦ rw (gone, apply) (discard-remaining_of s.tasks id working en)
  | inr (rec, there) ↦ rw (there, apply) (discard-remaining_of s.tasks id working en)
]
apply-remaining s (submitting id now r) en w = absurd w
apply-remaining s resetting en w = absurd w

-- A pool of `n` workers whose tasks have distinct ids.
abbrev Ordered : ℕ → Pool → Type 0
Ordered n s = IsUnique s.tasks × (s.queue.max_workers ≡ n)

submit_limited-Ordered :
    (n : ℕ) (limit : Option ℕ) (s : Pool) (id : String) (now : ℕ) (r : SubmitRequest)
    → Ordered n s
    → Ordered n (after_submit s id (submit_limited limit s.queue id now r))
unfolding enqueue active_count_locked
submit_limited-Ordered n none s id now r h = (insert-IsUnique id waiting s.tasks h.0, h.1)
submit_limited-Ordered n (some limit) s id now r h =
    elim (Bool-cases (leb limit (active_count_locked s.queue r.account_id (some r.workload)))) [
      | inl full ↦ rw full h
      | inr room ↦ rw room (insert-IsUnique id waiting s.tasks h.0, h.1)
    ]

apply-Ordered : (n : ℕ) (s : Pool) (e : Event) → Ordered n s → Ordered n (apply s e)
unfolding apply
apply-Ordered n s (submitting id now r) h =
    unfold submit in submit_limited-Ordered n r.active_limit s id now r h
apply-Ordered n s (starting id now) h = elim (Option-cases (lookup id s.queue.records)) [
  | inl gone ↦ rw (gone, apply) (discard-IsUnique id s.tasks h.0, h.1)
  | inr (rec, there) ↦ rw (there, apply) (insert-IsUnique id working s.tasks h.0, h.1)
]
apply-Ordered n s (finishing id now o) h = elim (Option-cases (lookup id s.queue.records)) [
  | inl gone ↦ rw (gone, apply) (discard-IsUnique id s.tasks h.0, h.1)
  | inr (rec, there) ↦ rw (there, apply) (discard-IsUnique id s.tasks h.0, h.1)
]
apply-Ordered n s resetting h = unfold reset in h

abbrev Steady : ℕ → Pool → Type 0
Steady n s = Agrees s × Ordered n s

run-Steady : (n : ℕ) (s : Pool) (es : List Event) → Runs s es → Steady n s → Steady n (run s es)
run-Steady n s es valid h =
    run_induction (Steady n) (λ t e en k. (apply-Agrees t e en k.0, apply-Ordered n t e k.1)) s es
      valid h

abbrev pub Moves : Pool → Type 0
Moves s = (e : Event) × IsWork e × Enabled s e

working-Moves :
    (s : Pool) (id : String) (p : Phase)
    → lookup id s.tasks ≡ some p
    → is_working p ≡ true
    → Moves s
working-Moves s id working there t = (finishing id 0 (raised ""), tt, there)
working-Moves s id waiting there t = cc (t)

waiting-Moves :
    (s : Pool) (id : String) (p : Phase)
    → lookup id s.tasks ≡ some p
    → is_waiting p ≡ true
    → count_if is_working (values s.tasks) < s.queue.max_workers
    → Moves s
waiting-Moves s id waiting there t room = (starting id 0, tt, (there, room))
waiting-Moves s id working there t room = cc (t)

count_phases :
    (ps : List Phase) → count_if (λ p. true) ps ≡ count_if is_waiting ps + count_if is_working ps
count_phases [] = refl
count_phases (p ∷ ps) = ground (arith, count_phases ps)

-- An active job has a task.
active-Covers :
    (s : Pool) → Agrees s → Covers (λ r. is_active r.status) (λ p. true) s.tasks s.queue.records
active-Covers s a id r found act = elim (Option-cases (lookup id s.tasks)) [
  | inr (p, there) ↦ (p, there, refl)
  | inl gone ↦ absurd (
      let ended : is_active r.status ≡ false =
        subst (λ o. Fits o r.status) gone (a.fits id r found) in
      cc (act, ended))
]

-- With no task left every job has ended.
idle : (s : Pool) → Agrees s → remaining s ≡ 0 → active_jobs s ≡ 0
idle s a h =
    let covered =
      count_if-Covers (λ r. is_active r.status) (λ p. true) s.tasks s.queue.records a.unique
        (active-Covers s a) in
    omega (arith, covered, count_phases (values s.tasks), h)

-- From a pool in order, either a worker has an event ahead or every job has ended.
progress : (n : ℕ) (s : Pool) → 0 < n → Steady n s → Moves s ⊎ (active_jobs s ≡ 0)
progress n s some_worker (a, (unique, same)) =
    elim (Bool-cases (ltb 0 (count_if is_working (values s.tasks)))) [
      | inl some_working ↦
          let (id, p, there, t) =
            lookup-count_if is_working s.tasks unique (ltb→lt 0 _ some_working) in
          inl (working-Moves s id p there t)
      | inr none_working ↦ elim (Bool-cases (ltb 0 (count_if is_waiting (values s.tasks)))) [
        | inl some_waiting ↦
            let (id, p, there, t) =
              lookup-count_if is_waiting s.tasks unique (ltb→lt 0 _ some_waiting) in
            inl (waiting-Moves s id p there t (ground (arith, none_working, some_worker, same)))
        | inr none_waiting ↦ inr (idle s a (ground (arith, none_working, none_waiting)))
      ]
    ]

run-remaining :
    (s : Pool) (ws : List Event)
    → Runs s ws
    → All IsWork ws
    → length ws + remaining (run s ws) ≤ remaining s
unfolding run
run-remaining s [] valid work = omega arith
run-remaining s (e ∷ ws) valid work =
    omega (arith, apply-remaining s e valid.0 work.0, run-remaining (apply s e) ws valid.1 work.1)

new_pool-Steady : (n : ℕ) → Steady n (new_pool n)
new_pool-Steady n = (new_pool-Agrees n, (tt, refl))

-- After any run of a pool with a worker: the events of the workers that follow without a new call are
-- at most two for each task that waits and one for each that works, and after them one more is enabled
-- unless no job is active.
pub run-active_jobs :
    (n : ℕ) (es ws : List Event)
    → 0 < n
    → Runs (new_pool n) es
    → Runs (run (new_pool n) es) ws
    → All IsWork ws
    → (length ws ≤ remaining (run (new_pool n) es))
      × (Moves (run (run (new_pool n) es) ws) ⊎ (active_jobs (run (run (new_pool n) es) ws) ≡ 0))
run-active_jobs n es ws some_worker valid valid' work =
    let s = run (new_pool n) es in
    let h = run-Steady n (new_pool n) es valid (new_pool-Steady n) in
    (
      omega (arith, run-remaining s ws valid' work),
      progress n (run s ws) some_worker (run-Steady n s ws valid' h),
    )
