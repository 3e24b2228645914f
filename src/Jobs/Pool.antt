-- ===== src/Jobs/Pool.antt =====
-- src/tryops/jobs.py under threads: callers that submit and reset, and the worker threads of the
-- executor that run `_run`. An event is one block under the queue's lock, and a run is a sequence of
-- events in the order in which they take the lock. `tasks` is the executor's side: what it has been
-- given and has not ended. `ThreadPoolExecutor` is Python's; of it `Enabled` assumes what its
-- documentation says: a task is started once, and at most `max_workers` tasks run at a time.
pub mod Limits
pub mod Agreement
pub mod Lifecycle
pub mod Closing
pub mod Filling
pub mod Progress
use try_ops_try_on_mlops.Base.{
  ℕ, ◌<◌, String, string_eq, Bool, true, false, ◌≡◌, Option, none, some, List, [], ◌∷◌, count_if,
}
use try_ops_try_on_mlops.Base.Dict.{Dict, lookup, insert, discard, values}
use try_ops_try_on_mlops.Jobs.Record.{
  JobQueue, SubmitRequest, SubmitResult, accepted, limit_exceeded, Outcome, submit, start, finish,
  reset,
}

pub data Phase : Type 0 where
  waiting working : Phase

abbrev pub is_working : Phase → Bool
is_working waiting = false
is_working working = true

pub record Pool : Type 0 where
  pub queue : JobQueue
  pub tasks : Dict String Phase

-- The job id of a submission and the times are the values that `uuid4` and `_now` return there.
pub data Event : Type 0 where
  submitting : String → ℕ → SubmitRequest → Event
  starting : String → ℕ → Event
  finishing : String → ℕ → Outcome → Event
  resetting : Event

abbrev pub after_submit : Pool → String → SubmitResult → Pool
after_submit s id (accepted q rec task depth) = record {
  queue = q;
  tasks = insert id waiting s.tasks;
}
after_submit s id (limit_exceeded active limit) = s

-- A `KeyError` in `_run` ends the task and leaves the queue.
unfoldable pub apply : Pool → Event → Pool
unfolding submit start finish reset
apply s (submitting id now r) = after_submit s id (submit s.queue id now r)
apply s (starting id now) = elim (start s.queue id now) [
  | none ↦ record s { tasks = discard id s.tasks }
  | some (q, rec) ↦ record { queue = q; tasks = insert id working s.tasks }
]
apply s (finishing id now o) = elim (finish s.queue id now o) [
  | none ↦ record s { tasks = discard id s.tasks }
  | some (q, rec) ↦ record { queue = q; tasks = discard id s.tasks }
]
apply s resetting = record s { queue = reset s.queue }

-- A fresh id names no record and no task.
abbrev pub IsFresh : Pool → String → Type 0
IsFresh s id = (lookup id s.queue.records ≡ none) × (lookup id s.tasks ≡ none)

abbrev pub Enabled : Pool → Event → Type 0
Enabled s (submitting id now r) = IsFresh s id
Enabled s (starting id now) =
    (lookup id s.tasks ≡ some waiting)
    × (count_if is_working (values s.tasks) < s.queue.max_workers)
Enabled s (finishing id now o) = lookup id s.tasks ≡ some working
Enabled s resetting = Unit

unfoldable pub run : Pool → List Event → Pool
run s [] = s
run s (e ∷ es) = run (apply s e) es

-- Each event is enabled where it happens.
abbrev pub Runs : Pool → List Event → Type 0
Runs s [] = Unit
Runs s (e ∷ es) = Enabled s e × Runs (apply s e) es

-- `InMemoryJobQueue(max_workers=n)`
abbrev pub new_pool : ℕ → Pool
new_pool n = record { queue = record { max_workers = n; records = [] }; tasks = [] }

module _ (P : Pool → Type 0)
    (keeps : (s : Pool) (e : Event) → Enabled s e → P s → P (apply s e)) where
  pub run_induction : (s : Pool) (es : List Event) → Runs s es → P s → P (run s es)
  unfolding run
  run_induction s [] r h = h
  run_induction s (e ∷ es) r h = run_induction (apply s e) es r.1 (keeps s e r.0 h)
