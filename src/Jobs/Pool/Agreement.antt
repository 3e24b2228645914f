-- ===== src/Jobs/Pool/Agreement.antt =====
-- The records agree with the executor's tasks, whatever the interleaving.
use text.Mathlib.TextEquality.{eq_iff}
use mathlib.Core.Path.{subst}
use try_ops_try_on_mlops.Base.{
  ℕ, ◌+◌, ◌≤◌, String, Bool, true, false, ◌≡◌, refl, Option, none, some, List, count_if, leb, arith,
  string_eq, if◌then◌else◌, Option-cases, inl, inr, ◌==◌, Bool-cases,
}
use try_ops_try_on_mlops.Base.Dict.{
  Dict, lookup, insert, discard, values, lookup-insert, lookup-discard, Covers, IsUnique,
  insert-IsUnique, count_if-Covers, count_if-insert_present, count_if-insert_new,
  count_if-discard_le,
}
use try_ops_try_on_mlops.Jobs.Record.{
  Status, queued, running, is_active, JobRecord, SubmitRequest, Outcome, finished, status_eq,
  active_count_locked, submit_limited, enqueue, new_record, submit,
}
use try_ops_try_on_mlops.Jobs.Pool.{
  Phase, waiting, working, is_working, Pool, Event, submitting, starting, finishing, resetting,
  after_submit, apply, Enabled, run, Runs, run_induction, new_pool,
}

-- what the status of a job's record is, by the phase of its task
abbrev pub Fits : Option Phase → Status → Type 0
Fits none s = is_active s ≡ false
Fits (some waiting) s = s ≡ queued
Fits (some working) s = s ≡ running

abbrev AllFit : Dict String JobRecord → Dict String Phase → Type 0
AllFit records tasks =
    (id : String) (r : JobRecord) → lookup id records ≡ some r → Fits (lookup id tasks) r.status

pub record Agrees (s : Pool) : Type 0 where
  pub fits :
      (id : String) (r : JobRecord)
      → lookup id s.queue.records ≡ some r
      → Fits (lookup id s.tasks) r.status
  pub unique : IsUnique s.queue.records
  pub working_le : count_if is_working (values s.tasks) ≤ s.queue.max_workers

-- One record and its task change together.
AllFit-insert :
    (records : Dict String JobRecord) (tasks tasks' : Dict String Phase) (id : String)
    (r : JobRecord) (phase : Option Phase)
    → AllFit records tasks
    → ((j : String) → lookup j tasks' ≡ (if id == j then phase else lookup j tasks))
    → Fits phase r.status
    → AllFit (insert id r records) tasks'
AllFit-insert records tasks tasks' id r phase h moved fit j r' found = elim (Bool-cases (id == j)) [
  | inl same ↦
      let eq : r ≡ r' = ground (arith, lookup-insert id j r records) in
      rw moved (rw same (subst (λ x. Fits phase x.status) eq fit))
  | inr other ↦
      let old : lookup j records ≡ some r' = ground (arith, lookup-insert id j r records) in
      rw moved (rw other (h j r' old))
]

-- A task ends whose record is gone.
AllFit-discard :
    (records : Dict String JobRecord) (tasks : Dict String Phase) (id : String)
    → lookup id records ≡ none
    → AllFit records tasks
    → AllFit records (discard id tasks)
AllFit-discard records tasks id gone h j r found = elim (Bool-cases (id == j)) [
  | inl same ↦ let eq : id ≡ j = (eq_iff id j).0 same in cc
  | inr other ↦ rw lookup-discard (rw other (h j r found))
]

working-insert :
    (tasks : Dict String Phase) (id : String) (phase : Phase)
    → count_if is_working (values (insert id phase tasks))
      ≤ count_if is_working (values tasks) + (if is_working phase then 1 else 0)
working-insert tasks id phase = elim (Option-cases (lookup id tasks)) [
  | inl absent ↦ omega (arith, count_if-insert_new is_working id phase tasks absent)
  | inr (old, there) ↦ omega (arith, count_if-insert_present is_working id phase tasks there)
]

enqueue-Agrees :
    (s : Pool) (id : String) (now : ℕ) (r : SubmitRequest)
    → Agrees s
    → Agrees (after_submit s id (enqueue s.queue id now r))
unfolding enqueue
enqueue-Agrees s id now r a = record {
  fits =
      AllFit-insert s.queue.records s.tasks (insert id waiting s.tasks) id (new_record id now r)
        (some waiting) a.fits (λ j. lookup-insert id j waiting s.tasks) refl;
  unique = insert-IsUnique id (new_record id now r) s.queue.records a.unique;
  working_le = omega (arith, a.working_le, working-insert s.tasks id waiting);
}

submit_limited-Agrees :
    (limit : Option ℕ) (s : Pool) (id : String) (now : ℕ) (r : SubmitRequest)
    → Agrees s
    → Agrees (after_submit s id (submit_limited limit s.queue id now r))
unfolding enqueue active_count_locked
submit_limited-Agrees none s id now r a = enqueue-Agrees s id now r a
submit_limited-Agrees (some limit) s id now r a =
    elim (Bool-cases (leb limit (active_count_locked s.queue r.account_id (some r.workload)))) [
      | inl full ↦ rw full a
      | inr room ↦ rw room (enqueue-Agrees s id now r a)
    ]

start-Agrees :
    (s : Pool) (id : String) (now : ℕ)
    → Enabled s (starting id now)
    → Agrees s
    → Agrees (apply s (starting id now))
unfolding apply
start-Agrees s id now en a = elim (Option-cases (lookup id s.queue.records)) [
  | inl gone ↦
      rw (gone, apply)
        (record {
          fits = AllFit-discard s.queue.records s.tasks id gone a.fits;
          unique = a.unique;
          working_le = omega (arith, a.working_le, count_if-discard_le is_working id s.tasks);
        })
  | inr (rec, there) ↦
      rw (there, apply)
        (record {
          fits =
              AllFit-insert s.queue.records s.tasks (insert id working s.tasks) id
                (record rec { status = running; started_at = some now }) (some working) a.fits
                (λ j. lookup-insert id j working s.tasks) refl;
          unique = insert-IsUnique id _ s.queue.records a.unique;
          working_le = omega (arith, en.1, working-insert s.tasks id working);
        })
]

pub finished-inactive :
    (o : Outcome) (now : ℕ) (rec : JobRecord) → is_active (finished o now rec).status ≡ false
unfolding finished
finished-inactive o now rec = ground arith

finish-Agrees :
    (s : Pool) (id : String) (now : ℕ) (o : Outcome)
    → Agrees s
    → Agrees (apply s (finishing id now o))
unfolding apply
finish-Agrees s id now o a = elim (Option-cases (lookup id s.queue.records)) [
  | inl gone ↦
      rw (gone, apply)
        (record {
          fits = AllFit-discard s.queue.records s.tasks id gone a.fits;
          unique = a.unique;
          working_le = omega (arith, a.working_le, count_if-discard_le is_working id s.tasks);
        })
  | inr (rec, there) ↦
      rw (there, apply)
        (record {
          fits =
              AllFit-insert s.queue.records s.tasks (discard id s.tasks) id (finished o now rec)
                none a.fits (λ j. lookup-discard id j s.tasks) (finished-inactive o now rec);
          unique = insert-IsUnique id _ s.queue.records a.unique;
          working_le = omega (arith, a.working_le, count_if-discard_le is_working id s.tasks);
        })
]

-- Every enabled event keeps the agreement.
pub apply-Agrees : (s : Pool) (e : Event) → Enabled s e → Agrees s → Agrees (apply s e)
apply-Agrees s (submitting id now r) en a =
    unfold apply submit in submit_limited-Agrees r.active_limit s id now r a
apply-Agrees s (starting id now) en a = start-Agrees s id now en a
apply-Agrees s (finishing id now o) en a = finish-Agrees s id now o a
apply-Agrees s resetting en a =
    unfold apply in record { fits = λ id r found. cc; unique = tt; working_le = a.working_le }

pub new_pool-Agrees : (n : ℕ) → Agrees (new_pool n)
new_pool-Agrees n = record { fits = λ id r found. cc; unique = tt; working_le = omega arith }

pub run-Agrees : (n : ℕ) (es : List Event) → Runs (new_pool n) es → Agrees (run (new_pool n) es)
run-Agrees n es r = run_induction Agrees apply-Agrees (new_pool n) es r (new_pool-Agrees n)

abbrev pub is_running : JobRecord → Bool
is_running r = r.status == running

Fits-running :
    (phase : Option Phase) (s : Status)
    → Fits phase s
    → (s == running) ≡ true
    → phase ≡ some working
Fits-running none s h b = ground arith
Fits-running (some waiting) s h b = ground arith
Fits-running (some working) s h b = refl

running_covered : (s : Pool) → Agrees s → Covers is_running is_working s.tasks s.queue.records
running_covered s a id r found busy =
    (working, Fits-running (lookup id s.tasks) r.status (a.fits id r found) busy, refl)

-- In every interleaving no more jobs are `running` than the executor has workers.
pub running-le-max_workers :
    (n : ℕ) (es : List Event)
    → Runs (new_pool n) es
    → count_if is_running (values (run (new_pool n) es).queue.records)
      ≤ (run (new_pool n) es).queue.max_workers
running-le-max_workers n es r =
    let a = run-Agrees n es r in
    let s = run (new_pool n) es in
    omega (
      arith,
      a.working_le,
      count_if-Covers is_running is_working s.tasks s.queue.records a.unique (running_covered s a),
    )
