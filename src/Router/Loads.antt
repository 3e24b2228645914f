-- ===== src/Router/Loads.antt =====
-- The load of each worker is exactly the number of requests that it serves.
use try_ops_try_on_mlops.Base.{
  ℕ, zero, suc, ◌+◌, ◌≡◌, refl, false, Option, none, some, List, [], ◌∷◌, get_elem?, on,
  get_elem?-set, nat_eq, ◌==◌, if◌then◌else◌, arith, Bool-cases, Option-cases, inl, inr, String, ap,
  sym, ◌∙◌, ◌-◌,
}
use try_ops_try_on_mlops.Base.Json.{obj}
use try_ops_try_on_mlops.Base.Result.{Result, ok}
use try_ops_try_on_mlops.Router.Body.{request_attrs_from_body}
use try_ops_try_on_mlops.Router.State.{
  WorkerState, FashnVtonRouter, ProbeReply, raised, answered, probe_worker, record_worker_request,
  record_router_request, sanitize_message,
}
use try_ops_try_on_mlops.Router.Schedule.{
  refresh, with_worker, add_inflight, pick_least, pick, claim_worker, minimum,
}
use try_ops_try_on_mlops.Router.Requests.{
  responded, failed, release, fail_worker, record_both, begun, attended, route_begin, route_end,
  final_status,
}
use try_ops_try_on_mlops.Router.Fairness.{pick_least-some}
use mathlib.Core.Path.{subst}
use try_ops_try_on_mlops.Router.Traffic.{
  Traffic, Event, arriving, leaving, probing, exiting, arrived, times, without_one, exit, apply,
  run,
}

-- The load of a worker is the number of requests that it serves.
abbrev pub LoadsAgree : List WorkerState → List ℕ → Type 0
LoadsAgree ws serving =
    (i : ℕ) (w : WorkerState) → get_elem? ws i ≡ some w → w.inflight ≡ times i serving

-- Each worker of the second list has the load that it has in the first.
abbrev SameLoads : List WorkerState → List WorkerState → Type 0
SameLoads ws ws' =
    (i : ℕ) (w' : WorkerState)
    → get_elem? ws' i ≡ some w'
    → (w : WorkerState) × (get_elem? ws i ≡ some w) × (w'.inflight ≡ w.inflight)

LoadsAgree-same :
    (ws ws' : List WorkerState) (serving : List ℕ)
    → SameLoads ws ws'
    → LoadsAgree ws serving
    → LoadsAgree ws' serving
LoadsAgree-same ws ws' serving same h i w' e =
    let (w, there, eq) = same i w' e in let k = h i w there in omega arith

workers-with_worker :
    (f : WorkerState → WorkerState) (i j : ℕ) (r : FashnVtonRouter)
    → get_elem? (with_worker f i r).workers j
      ≡ (if i == j then on f (get_elem? r.workers j) else get_elem? r.workers j)
workers-with_worker f i j r = elim (Option-cases (get_elem? r.workers i)) [
  | inl gone ↦ ground (arith, gone)
  | inr (w, there) ↦ ground (arith, there, get_elem?-set r.workers i j (f w))
]

probe-inflight :
    (root : String) (reply : ProbeReply) (w : WorkerState)
    → (probe_worker root reply w).inflight ≡ w.inflight
unfolding probe_worker
probe-inflight root (raised message) w = ground arith
probe-inflight root (answered status (obj d)) w = ground arith
probe-inflight root (answered status _) w = ground arith

refresh-SameLoads :
    (root : String) (replies : ℕ → ProbeReply) (k : ℕ) (ws : List WorkerState)
    → SameLoads ws (refresh root replies k ws)
unfolding refresh
refresh-SameLoads root replies k [] i w' e = cc
refresh-SameLoads root replies k (w ∷ ws) zero w' e =
    (w, refl, ground (arith, probe-inflight root (replies k) w))
refresh-SameLoads root replies k (w ∷ ws) (suc i) w' e =
    refresh-SameLoads root replies (k + 1) ws i w' e

-- A change of one worker that leaves its load alone.
with_worker-SameLoads :
    (f : WorkerState → WorkerState) (i : ℕ) (r : FashnVtonRouter)
    → ((w : WorkerState) → (f w).inflight ≡ w.inflight)
    → SameLoads r.workers (with_worker f i r).workers
with_worker-SameLoads f i r keeps j w' e = elim (Bool-cases (i == j)) [
  | inr other ↦ (w', ground (arith, workers-with_worker f i j r, other, e), refl)
  | inl same ↦ elim (Option-cases (get_elem? r.workers j)) [
    | inl gone ↦ ground (arith, workers-with_worker f i j r, same, gone, e)
    | inr (w, there) ↦
        let eq : f w ≡ w' = ground (arith, workers-with_worker f i j r, same, there, e) in
        (w, there, ap (λ (x : WorkerState). x.inflight) (sym eq) ∙ keeps w)
  ]
]

-- A change of one worker's load and of its requests.
with_worker-LoadsAgree :
    (f : WorkerState → WorkerState) (i : ℕ) (r : FashnVtonRouter) (serving serving' : List ℕ)
    → LoadsAgree r.workers serving
    → ((w : WorkerState) → w.inflight ≡ times i serving → (f w).inflight ≡ times i serving')
    → ((j : ℕ) → (i == j) ≡ false → times j serving ≡ times j serving')
    → LoadsAgree (with_worker f i r).workers serving'
with_worker-LoadsAgree f i r serving serving' h moves others j w' e = elim (Bool-cases (i == j)) [
  | inr other ↦
      let there : get_elem? r.workers j ≡ some w' =
        ground (arith, workers-with_worker f i j r, other, e) in
      h j w' there ∙ others j other
  | inl same ↦
      let at : i ≡ j = ground (arith, same) in
      elim (Option-cases (get_elem? r.workers j)) [
        | inl gone ↦ ground (arith, workers-with_worker f i j r, same, gone, e)
        | inr (w, there) ↦
            let eq : f w ≡ w' = ground (arith, workers-with_worker f i j r, same, there, e) in
            let load : (f w).inflight ≡ times i serving' = moves w (rw at (h j w there)) in
            rw (← eq) (rw (← at) load)
      ]
]

times-cons_ne : (i j : ℕ) (is : List ℕ) → (i == j) ≡ false → times j is ≡ times j (i ∷ is)
times-cons_ne i j is h = ground (arith, h)

times-without_ne :
    (i j : ℕ) (is : List ℕ) → (i == j) ≡ false → times j is ≡ times j (without_one i is)
times-without_ne i j [] h = refl
times-without_ne i j (k ∷ ks) h = ground (arith, times-without_ne i j ks h)

times-without_one : (i : ℕ) (is : List ℕ) → times i (without_one i is) ≡ times i is - 1
times-without_one i [] = omega arith
times-without_one i (k ∷ ks) = elim (Bool-cases (k == i)) [
  | inl same ↦ rw same (omega arith)
  | inr other ↦ rw other (rw other (omega (arith, times-without_one i ks)))
]

abbrev now_serving : List ℕ → Option ℕ → List ℕ
now_serving serving none = serving
now_serving serving (some i) = i ∷ serving

claim_worker-LoadsAgree :
    (root : String) (replies : ℕ → ProbeReply) (read : List ℕ) (r : FashnVtonRouter)
    (serving : List ℕ)
    → LoadsAgree r.workers serving
    → let (r', chosen) = claim_worker root replies read r in
      LoadsAgree r'.workers (now_serving serving chosen)
unfolding claim_worker pick
claim_worker-LoadsAgree root replies read r serving h =
    let r' : FashnVtonRouter = record r { workers = refresh root replies 0 r.workers } in
    let agree : LoadsAgree r'.workers serving =
      LoadsAgree-same r.workers r'.workers serving (refresh-SameLoads root replies 0 r.workers) h in
    elim (Option-cases (pick_least (minimum read) r')) [
      | inl nobody ↦ rw (nobody, claim_worker) agree
      | inr ((i, r''), chosen) ↦
          let (least, m, found, eq) = pick_least-some (minimum read) r' r'' i chosen in
          rw (chosen, claim_worker)
            (subst (λ (x : FashnVtonRouter). LoadsAgree x.workers (i ∷ serving)) (sym eq)
              (with_worker-LoadsAgree add_inflight i r' serving (i ∷ serving) agree
                (λ w load. ground (arith, load)) (λ j other. times-cons_ne i j serving other)))
    ]

record_router-workers :
    (status : String) (latency_ms : ℕ) (r : FashnVtonRouter)
    → (record_router_request status latency_ms r).workers ≡ r.workers
unfolding record_router_request
record_router-workers status latency_ms r = refl

record_worker-inflight :
    (status : String) (latency_ms : ℕ) (w : WorkerState)
    → (record_worker_request status latency_ms w).inflight ≡ w.inflight
unfolding record_worker_request
record_worker-inflight status latency_ms w = refl

-- The end of a request releases its worker, whatever has been recorded before.
release-LoadsAgree :
    (status : String) (latency_ms i : ℕ) (r : FashnVtonRouter) (serving : List ℕ)
    → LoadsAgree r.workers serving
    → LoadsAgree
        (with_worker release i (record_both status latency_ms i r)).workers
        (without_one i serving)
release-LoadsAgree status latency_ms i r serving h =
    with_worker-LoadsAgree release i (record_both status latency_ms i r) serving
      (without_one i serving)
      (rw record_router-workers (
        LoadsAgree-same r.workers _ serving
          (with_worker-SameLoads (record_worker_request status latency_ms) i r
            (record_worker-inflight status latency_ms))
          h))
      (λ w load. omega (arith, times-without_one i serving))
      (λ j other. times-without_ne i j serving other)

arrived-LoadsAgree :
    {A : Type 0} (serving : List ℕ) (latency_ms : ℕ) (o : Result A) (r : FashnVtonRouter)
    (p : FashnVtonRouter × Option ℕ)
    → LoadsAgree r.workers serving
    → LoadsAgree p.0.workers (now_serving serving p.1)
    → let s = arrived serving (attended o r (begun latency_ms p)) in
      LoadsAgree s.router.workers s.serving
arrived-LoadsAgree serving latency_ms (Result.raised text) r p before h = before
arrived-LoadsAgree serving latency_ms (ok attrs) r (r', none) before h = rw record_router-workers h
arrived-LoadsAgree serving latency_ms (ok attrs) r (r', some i) before h = h

apply-LoadsAgree :
    (root : String) (s : Traffic) (e : Event)
    → LoadsAgree s.router.workers s.serving
    → LoadsAgree (apply root s e).router.workers (apply root s e).serving
unfolding apply
apply-LoadsAgree root s (arriving body replies read latency_ms) h =
    unfold route_begin in
    arrived-LoadsAgree s.serving latency_ms (request_attrs_from_body body) s.router
      (claim_worker root replies read s.router) h
      (claim_worker-LoadsAgree root replies read s.router s.serving h)
apply-LoadsAgree root s (leaving i (responded status body) latency_ms) h =
    unfold route_end in release-LoadsAgree (final_status status) latency_ms i s.router s.serving h
apply-LoadsAgree root s (leaving i (failed name message) latency_ms) h =
    let text = sanitize_message root message in
    unfold route_end in
    release-LoadsAgree "failed" latency_ms i (with_worker (fail_worker text) i s.router) s.serving (
      LoadsAgree-same s.router.workers _ s.serving
        (with_worker-SameLoads (fail_worker text) i s.router (λ w. refl)) h)
apply-LoadsAgree root s (probing i reply) h =
    LoadsAgree-same s.router.workers _ s.serving
      (with_worker-SameLoads (probe_worker root reply) i s.router (probe-inflight root reply)) h
apply-LoadsAgree root s (exiting i) h =
    LoadsAgree-same s.router.workers _ s.serving (with_worker-SameLoads exit i s.router (λ w. refl))
      h

-- Before any request no worker has a load.
abbrev pub IsIdle : List WorkerState → Type 0
IsIdle ws = (i : ℕ) (w : WorkerState) → get_elem? ws i ≡ some w → w.inflight ≡ 0

run_from-LoadsAgree :
    (root : String) (s : Traffic) (es : List Event)
    → LoadsAgree s.router.workers s.serving
    → LoadsAgree (run root s es).router.workers (run root s es).serving
unfolding run
run_from-LoadsAgree root s [] h = h
run_from-LoadsAgree root s (e ∷ es) h =
    run_from-LoadsAgree root (apply root s e) es (apply-LoadsAgree root s e h)

-- Whatever the threads do from an idle router on (arrivals, with any readings of the loads, answers and
-- exceptions of the workers, probes, deaths of workers), each worker's load is the number of requests
-- that it is serving.
pub run-LoadsAgree :
    (root : String) (s : Traffic) (es : List Event)
    → IsIdle s.router.workers
    → s.serving ≡ []
    → LoadsAgree (run root s es).router.workers (run root s es).serving
run-LoadsAgree root s es idle empty = run_from-LoadsAgree root s es (λ i w e. rw empty (idle i w e))
