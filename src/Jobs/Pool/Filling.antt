-- ===== src/Jobs/Pool/Filling.antt =====
-- What each status fills in of a record, and one job from its start to its end.
use try_ops_try_on_mlops.Base.{
  ℕ, String, ◌≡◌, ◌≢◌, refl, Option, none, some, List, arith, leb, string_eq, Option-cases, inl,
  inr, ◌⊎◌, ◌↔◌, Bool-cases, ◌==◌,
}
use text.Mathlib.TextEquality.{eq_iff}
use text.Mathlib.TextPositions.{eq_refl}
use mathlib.Core.Path.{subst, ◌∙◌, sym}
use try_ops_try_on_mlops.Base.Dict.{Dict, discard, insert, lookup, lookup-insert, lookup-discard}
use try_ops_try_on_mlops.Base.Json.{Fields, null, get}
use try_ops_try_on_mlops.Jobs.Record.{
  Status, queued, running, completed, failed, JobRecord, SubmitRequest, Outcome, returned, raised,
  active_count_locked, new_record, submit_limited, enqueue, finished,
}
use try_ops_try_on_mlops.Jobs.Pool.{
  Pool, Phase, Event, submitting, starting, finishing, resetting, after_submit, apply, Enabled, run,
  Runs, run_induction, new_pool, working,
}
use try_ops_try_on_mlops.Jobs.Pool.Agreement.{Fits, Agrees, apply-Agrees, new_pool-Agrees}
use try_ops_try_on_mlops.Jobs.Pool.Lifecycle.{begin, SameJob, finished-SameJob}
use try_ops_try_on_mlops.Jobs.Pool.Closing.{
  Status-final, finished-error, null_of_reported, finished-completed_at, IsSuccess,
  finished-completed, Closed, finished-Closed, finished-status, finished-started_at, SameJob-begin,
  Closed-begin,
}

-- The error of a failed job is missing only where the runner's result has an error that is null.
abbrev pub HasError : JobRecord → Type 0
HasError r =
    r.error ≡ none → (result : Fields) × (r.result ≡ some result) × (get "error" result ≡ some null)

-- The fields that each status fills in.
abbrev pub Filled : Status → JobRecord → Type 0
Filled queued r =
    (r.started_at ≡ none) × (r.completed_at ≡ none) × (r.result ≡ none) × (r.error ≡ none)
Filled running r =
    (r.started_at ≢ none) × (r.completed_at ≡ none) × (r.result ≡ none) × (r.error ≡ none)
Filled completed r =
    (r.started_at ≢ none) × (r.completed_at ≢ none) × (r.result ≢ none) × (r.error ≡ none)
Filled failed r = (r.started_at ≢ none) × (r.completed_at ≢ none) × HasError r

abbrev AllFilled : Dict String JobRecord → Type 0
AllFilled d = (j : String) (r : JobRecord) → lookup j d ≡ some r → Filled r.status r

AllFilled-insert :
    (d : Dict String JobRecord) (id : String) (w : JobRecord)
    → AllFilled d
    → Filled w.status w
    → AllFilled (insert id w d)
AllFilled-insert d id w h good j r found = elim (Bool-cases (id == j)) [
  | inl e ↦
      let eq : w ≡ r = ground (arith, lookup-insert id j w d) in
      subst (λ x. Filled x.status x) eq good
  | inr e ↦ h j r (ground (arith, lookup-insert id j w d))
]

submit_limited-Filled :
    (limit : Option ℕ) (s : Pool) (id : String) (now : ℕ) (req : SubmitRequest)
    → AllFilled s.queue.records
    → AllFilled (after_submit s id (submit_limited limit s.queue id now req)).queue.records
unfolding enqueue active_count_locked
submit_limited-Filled none s id now req h =
    AllFilled-insert s.queue.records id (new_record id now req) h (refl, refl, refl, refl)
submit_limited-Filled (some limit) s id now req h =
    elim (Bool-cases (leb limit (active_count_locked s.queue req.account_id (some req.workload)))) [
      | inl full ↦ rw full h
      | inr room ↦
          rw room
            (AllFilled-insert s.queue.records id (new_record id now req) h (refl, refl, refl, refl))
    ]

begin-Filled :
    (now : ℕ) (r : JobRecord) → r.status ≡ queued → Filled r.status r → Filled running (begin now r)
begin-Filled now r e h =
    let k : Filled queued r = subst (λ x. Filled x r) e h in ((λ p. cc), k.1, k.2, k.3)

finished-Filled :
    (o : Outcome) (now : ℕ) (r : JobRecord)
    → r.status ≡ running
    → Filled r.status r
    → Filled (finished o now r).status (finished o now r)
unfolding finished
finished-Filled (raised message) now r e h =
    let k : Filled running r = subst (λ x. Filled x r) e h in (k.0, (λ p. cc), (λ p. cc))
finished-Filled (returned result) now r e h =
    let k : Filled running r = subst (λ x. Filled x r) e h in
    elim (Status-final (get "status" result)) [
      | inl good ↦ rw good (k.0, (λ p. cc), (λ p. cc), k.3)
      | inr bad ↦
          let stored = finished-error result now r bad in
          let nulled : HasError (finished (returned result) now r) =
            λ gone. (result, refl, null_of_reported (get "error" result) (sym stored ∙ gone)) in
          rw bad (k.0, (λ p. cc), rw bad at nulled)
    ]

apply-Filled :
    (s : Pool) (e : Event)
    → Enabled s e
    → Agrees s
    → AllFilled s.queue.records
    → AllFilled (apply s e).queue.records
unfolding apply
apply-Filled s (submitting id now req) en a h =
    submit_limited-Filled req.active_limit s id now req h
apply-Filled s (starting id now) en a h = elim (Option-cases (lookup id s.queue.records)) [
  | inl gone ↦ rw (gone, apply) h
  | inr (rec, found) ↦
      rw (found, apply)
        (AllFilled-insert s.queue.records id (begin now rec) h (
          begin-Filled now rec (subst (λ p. Fits p rec.status) en.0 (a.fits id rec found))
            (h id rec found)))
]
apply-Filled s (finishing id now o) en a h = elim (Option-cases (lookup id s.queue.records)) [
  | inl gone ↦ rw (gone, apply) h
  | inr (rec, found) ↦
      rw (found, apply)
        (AllFilled-insert s.queue.records id (finished o now rec) h (
          finished-Filled o now rec (subst (λ p. Fits p rec.status) en (a.fits id rec found))
            (h id rec found)))
]
apply-Filled s resetting en a h = λ j r found. cc

abbrev Sound : Pool → Type 0
Sound s = Agrees s × AllFilled s.queue.records

-- In every interleaving each record has the fields that its status calls for: a start time exactly unless it
-- is queued, an end time exactly once it has ended, a result if completed and none before the end, an
-- error only if failed, and then one unless the runner's result has an error that is null.
pub run-Filled :
    (n : ℕ) (es : List Event) (j : String) (r : JobRecord)
    → Runs (new_pool n) es
    → lookup j (run (new_pool n) es).queue.records ≡ some r
    → Filled r.status r
run-Filled n es j r valid found =
    (run_induction Sound (λ s e en h. (apply-Agrees s e en h.0, apply-Filled s e en h.0 h.1))
        (new_pool n) es valid (new_pool-Agrees n, λ j r found. cc)).1
      j r found

write-others :
    (d : Dict String JobRecord) (id j : String) (w : JobRecord)
    → id ≢ j
    → lookup j (insert id w d) ≡ lookup j d
write-others d id j w ne = ground (arith, lookup-insert id j w d, eq_iff id j)

abbrev put : Pool → String → JobRecord → Dict String Phase → Pool
put s id r tasks = record {
  queue = record s.queue { records = insert id r s.queue.records };
  tasks = tasks;
}

apply-starting :
    (s : Pool) (id : String) (now : ℕ) (rec : JobRecord)
    → lookup id s.queue.records ≡ some rec
    → apply s (starting id now) ≡ put s id (begin now rec) (insert id working s.tasks)
unfolding apply
apply-starting s id now rec there = rw (there, apply)

apply-finishing :
    (s : Pool) (id : String) (now : ℕ) (o : Outcome) (rec : JobRecord)
    → lookup id s.queue.records ≡ some rec
    → apply s (finishing id now o) ≡ put s id (finished o now rec) (discard id s.tasks)
unfolding apply
apply-finishing s id now o rec there = rw (there, apply)

-- A job whose record is there, started and then ended with any outcome, has a record of the same job with
-- that start and that end time, completed exactly if the runner returned a result with status
-- "completed" and failed otherwise. It holds a returned result, and if failed the error of the result, the default
-- error if the result has none, or nothing if that is null; of an exception it holds the
-- message. The job's task is gone, and the records of the other jobs are as before.
pub start-finish :
    (s : Pool) (id : String) (rec : JobRecord) (began ended_at : ℕ) (o : Outcome)
    → lookup id s.queue.records ≡ some rec
    → let t = apply (apply s (starting id began)) (finishing id ended_at o) in
      (r : JobRecord) × (lookup id t.queue.records ≡ some r)
      × SameJob rec r
      × ((r.status ≡ completed) ⊎ (r.status ≡ failed))
      × (r.started_at ≡ some began)
      × Closed o rec r
      × ((r.status ≡ completed) ↔ IsSuccess o)
      × (r.completed_at ≡ some ended_at)
      × (lookup id t.tasks ≡ none)
      × ((j : String) → id ≢ j → lookup j t.queue.records ≡ lookup j s.queue.records)
start-finish s id rec began ended_at o there =
    let rec' = begin began rec in
    let s' = put s id rec' (insert id working s.tasks) in
    let found : lookup id s'.queue.records ≡ some rec' =
      ground (arith, lookup-insert id id rec' s.queue.records, eq_refl id) in
    let r = finished o ended_at rec' in
    rw (apply-starting s id began rec there) (
      rw (apply-finishing s' id ended_at o rec' found) (
        r,
        ground (arith, lookup-insert id id r s'.queue.records, eq_refl id),
        SameJob-begin began rec r (finished-SameJob o ended_at rec'),
        finished-status o ended_at rec',
        finished-started_at o ended_at rec',
        Closed-begin o began rec r (finished-Closed o ended_at rec'),
        finished-completed o ended_at rec',
        finished-completed_at o ended_at rec',
        ground (arith, lookup-discard id id s'.tasks, eq_refl id),
        (λ j ne.
            write-others s'.queue.records id j r ne ∙ write-others s.queue.records id j rec' ne),
      ))
