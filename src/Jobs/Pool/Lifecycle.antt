-- ===== src/Jobs/Pool/Lifecycle.antt =====
-- What happens to one record: the order of its statuses, and what is filled in with each.
use try_ops_try_on_mlops.Base.{
  ℕ, String, false, ◌≡◌, ◌≢◌, refl, Option, none, some, arith, leb, string_eq, Option-cases, inl,
  inr, Bool-cases, ◌==◌,
}
use text.Mathlib.TextEquality.{eq_iff}
use mathlib.Core.Path.{subst}
use try_ops_try_on_mlops.Base.Dict.{Dict, insert, lookup, lookup-insert}
use try_ops_try_on_mlops.Jobs.Record.{
  Status, queued, running, is_active, JobRecord, SubmitRequest, Outcome, returned, raised,
  active_count_locked, new_record, submit_limited, enqueue, finished,
}
use try_ops_try_on_mlops.Jobs.Pool.{
  Pool, Event, submitting, starting, finishing, resetting, after_submit, apply, Enabled, IsFresh,
}
use try_ops_try_on_mlops.Jobs.Pool.Agreement.{Fits, Agrees, finished-inactive}

-- one step of a job's status, or none
pub data Follows (a b : Status) : Type 0 where
  same : b ≡ a → Follows a b
  begun : a ≡ queued → b ≡ running → Follows a b
  ended : a ≡ running → is_active b ≡ false → Follows a b

-- what no operation changes
pub record SameJob (r r' : JobRecord) : Type 0 where
  pub job_id : r'.job_id ≡ r.job_id
  pub workload : r'.workload ≡ r.workload
  pub request_id : r'.request_id ≡ r.request_id
  pub created_at : r'.created_at ≡ r.created_at
  pub account_id : r'.account_id ≡ r.account_id
  pub principal_subject : r'.principal_subject ≡ r.principal_subject
  pub payload_metadata : r'.payload_metadata ≡ r.payload_metadata

abbrev pub Continues : JobRecord → Option JobRecord → Type 0
Continues r o = (r' : JobRecord) × (o ≡ some r') × SameJob r r' × Follows r.status r'.status

SameJob-refl : (r : JobRecord) → SameJob r r
SameJob-refl r = record {
  job_id = refl;
  workload = refl;
  request_id = refl;
  created_at = refl;
  account_id = refl;
  principal_subject = refl;
  payload_metadata = refl;
}

-- a record that a write to another key leaves alone
Continues-write :
    (d : Dict String JobRecord) (id j : String) (r w : JobRecord)
    → lookup j d ≡ some r
    → (id ≡ j → SameJob r w × Follows r.status w.status)
    → Continues r (lookup j (insert id w d))
Continues-write d id j r w there h = elim (Bool-cases (id == j)) [
  | inl e ↦
      let eq : id ≡ j = (eq_iff id j).0 e in
      (w, ground (arith, lookup-insert id j w d), (h eq).0, (h eq).1)
  | inr e ↦ (r, ground (arith, lookup-insert id j w d), SameJob-refl r, same refl)
]

submit_limited-Continues :
    (limit : Option ℕ) (s : Pool) (id j : String) (now : ℕ) (req : SubmitRequest) (r : JobRecord)
    → IsFresh s id
    → lookup j s.queue.records ≡ some r
    → Continues r
        (lookup j (after_submit s id (submit_limited limit s.queue id now req)).queue.records)
unfolding enqueue active_count_locked
submit_limited-Continues none s id j now req r fresh there =
    Continues-write s.queue.records id j r (new_record id now req) there
      (λ e. absurd (let gone = fresh.0 in cc (e, gone, there)))
submit_limited-Continues (some limit) s id j now req r fresh there =
    elim (Bool-cases (leb limit (active_count_locked s.queue req.account_id (some req.workload)))) [
      | inl full ↦ rw full (r, there, SameJob-refl r, same refl)
      | inr room ↦ rw room (
          Continues-write s.queue.records id j r (new_record id now req) there
            (λ e. absurd (let gone = fresh.0 in cc (e, gone, there))))
    ]

pub finished-SameJob : (o : Outcome) (now : ℕ) (r : JobRecord) → SameJob r (finished o now r)
unfolding finished
finished-SameJob (returned result) now r = ground arith
finished-SameJob (raised message) now r = ground arith

abbrev pub begin : ℕ → JobRecord → JobRecord
begin now r = record r { status = running; started_at = some now }

begin-SameJob : (now : ℕ) (r : JobRecord) → SameJob r (begin now r)
begin-SameJob now r = ground arith

-- Whatever an enabled event does, short of a reset, a record that is there stays there, is of the
-- same job, and its status stays or takes one step of queued, running, completed or failed. So a
-- completed or failed job keeps its status.
pub apply-Continues :
    (s : Pool) (e : Event) (j : String) (r : JobRecord)
    → Enabled s e
    → e ≢ resetting
    → Agrees s
    → lookup j s.queue.records ≡ some r
    → Continues r (lookup j (apply s e).queue.records)
unfolding apply
apply-Continues s (submitting id now req) j r en ne a there =
    submit_limited-Continues req.active_limit s id j now req r en there
apply-Continues s (starting id now) j r en ne a there =
    elim (Option-cases (lookup id s.queue.records)) [
      | inl gone ↦ rw (gone, apply) (r, there, SameJob-refl r, same refl)
      | inr (rec, found) ↦
          rw (found, apply)
            (Continues-write s.queue.records id j r (begin now rec) there (λ e.
              let eq : rec ≡ r = cc (e, found, there) in
              let fit : rec.status ≡ queued =
                subst (λ p. Fits p rec.status) en.0 (a.fits id rec found) in
              subst (λ x. SameJob x (begin now rec) × Follows x.status running) eq
                (begin-SameJob now rec, begun fit refl)))
    ]
apply-Continues s (finishing id now o) j r en ne a there =
    elim (Option-cases (lookup id s.queue.records)) [
      | inl gone ↦ rw (gone, apply) (r, there, SameJob-refl r, same refl)
      | inr (rec, found) ↦
          rw (found, apply)
            (Continues-write s.queue.records id j r (finished o now rec) there (λ e.
              let eq : rec ≡ r = cc (e, found, there) in
              let fit : rec.status ≡ running =
                subst (λ p. Fits p rec.status) en (a.fits id rec found) in
              subst
                (λ x. SameJob x (finished o now rec) × Follows x.status (finished o now rec).status)
                eq (finished-SameJob o now rec, ended fit (finished-inactive o now rec))))
    ]
apply-Continues s resetting j r en ne a there = absurd (ne refl)
