-- ===== src/Router/Counters.antt =====
-- The request counters: every request that arrives with an acceptable body is being served or is counted, once.
use mathlib.Core.Path.{subst}
use try_ops_try_on_mlops.Base.{
  ℕ, suc, ◌+◌, ◌<◌, ◌≡◌, Option, none, some, List, [], ◌∷◌, get_elem?, nat_eq, ◌==◌, arith,
  Bool-cases, Option-cases, inl, inr, String, string_eq, length, ap, if◌then◌else◌, sym, ◌∙◌,
}
use try_ops_try_on_mlops.Base.Dict.{Dict, get_or, insert, values}
use try_ops_try_on_mlops.Base.Result.{Result, ok}
use try_ops_try_on_mlops.Router.Body.{
  is_acceptable, succeeds, request_attrs_from_body, succeeds-request_attrs_from_body,
}
use try_ops_try_on_mlops.Router.State.{
  WorkerState, FashnVtonRouter, ProbeReply, record_worker_request, record_router_request,
  sanitize_message, probe_worker,
}
use try_ops_try_on_mlops.Router.Schedule.{
  refresh, with_worker, add_inflight, pick_least, pick, claim_worker, minimum,
}
use try_ops_try_on_mlops.Router.Requests.{
  responded, failed, release, fail_worker, record_both, begun, attended, route_begin, route_end,
  final_status,
}
use try_ops_try_on_mlops.Router.Fairness.{pick_least-some}
use try_ops_try_on_mlops.Router.Traffic.{
  Traffic, Event, arriving, leaving, probing, exiting, times, without_one, exit, arrived, apply,
  Enabled, run, Runs,
}

abbrev pub total : List ℕ → ℕ
total [] = 0
total (n ∷ ns) = n + total ns

-- Counting one more under a key adds one to the sum.
total-bump :
    (k : String) (d : Dict String ℕ)
    → total (values (insert k (get_or k 0 d + 1) d)) ≡ total (values d) + 1
total-bump k [] = omega arith
total-bump k ((j, n) ∷ d) = elim (Bool-cases (j == k)) [
  | inl same ↦ ground (arith, same)
  | inr other ↦ let rest = total-bump k d in ground (arith, other)
]

-- The requests that have arrived with an acceptable body.
abbrev pub arrivals : List Event → ℕ
arrivals [] = 0
arrivals (arriving body replies read latency_ms ∷ es) =
    let rest : ℕ = arrivals es in if is_acceptable body then suc rest else rest
arrivals (_ ∷ es) = arrivals es

arrivals-cons :
    (n : ℕ) (e : Event) (es : List Event)
    → n + arrivals (e ∷ []) + arrivals es ≡ n + arrivals (e ∷ es)
arrivals-cons n (arriving body replies read latency_ms) es = ground arith
arrivals-cons n (leaving i reply latency_ms) es = omega arith
arrivals-cons n (probing i reply) es = omega arith
arrivals-cons n (exiting i) es = omega arith

-- What the router has counted, by its latency counter and by the sum of its status counters.
abbrev pub Counted : FashnVtonRouter → ℕ → Type 0
Counted r n = (r.router_latency_ms_count ≡ n) × (total (values r.router_requests_total) ≡ n)

record_router-Counted :
    (status : String) (latency_ms n : ℕ) (r : FashnVtonRouter)
    → Counted r n
    → Counted (record_router_request status latency_ms r) (n + 1)
unfolding record_router_request
record_router-Counted status latency_ms n r h =
    (omega arith, total-bump status r.router_requests_total ∙ ap (λ (k : ℕ). k + 1) h.1)

with_worker-Counted :
    (f : WorkerState → WorkerState) (i n : ℕ) (r : FashnVtonRouter)
    → Counted r n
    → Counted (with_worker f i r) n
with_worker-Counted f i n r h = elim (Option-cases (get_elem? r.workers i)) [
  | inl gone ↦ rw (gone, with_worker) h
  | inr (w, there) ↦ rw (there, with_worker) h
]

claim_worker-Counted :
    (root : String) (replies : ℕ → ProbeReply) (read : List ℕ) (n : ℕ) (r : FashnVtonRouter)
    → Counted r n
    → Counted (claim_worker root replies read r).0 n
unfolding claim_worker pick
claim_worker-Counted root replies read n r h =
    let r' : FashnVtonRouter = record r { workers = refresh root replies 0 r.workers } in
    elim (Option-cases (pick_least (minimum read) r')) [
      | inl nobody ↦ rw (nobody, claim_worker) h
      | inr ((i, r''), chosen) ↦
          let (least, m, found, eq) = pick_least-some (minimum read) r' r'' i chosen in
          rw (chosen, claim_worker)
            (subst (λ (x : FashnVtonRouter). Counted x n) (sym eq)
              (with_worker-Counted add_inflight i n r' h))
    ]

length-without_one :
    (i : ℕ) (is : List ℕ) → 0 < times i is → length (without_one i is) + 1 ≡ length is
length-without_one i [] h = absurd (omega arith)
length-without_one i (j ∷ js) h = ground (arith, length-without_one i js)

-- The number of requests so far, served or counted.
abbrev pub Balanced : Traffic → ℕ → Type 0
Balanced s n = (m : ℕ) × Counted s.router m × (m + length s.serving ≡ n)

arrived-Balanced :
    {A : Type 0} (serving : List ℕ) (latency_ms m n : ℕ) (o : Result A) (r : FashnVtonRouter)
    (p : FashnVtonRouter × Option ℕ)
    → Counted r m
    → Counted p.0 m
    → m + length serving ≡ n
    → Balanced
        (arrived serving (attended o r (begun latency_ms p)))
        (n + (if succeeds o then 1 else 0))
arrived-Balanced serving latency_ms m n (Result.raised text) r p before h e =
    (m, before, omega arith)
arrived-Balanced serving latency_ms m n (ok attrs) r (r', none) before h e =
    (m + 1, record_router-Counted "rejected" latency_ms m r' h, omega arith)
arrived-Balanced serving latency_ms m n (ok attrs) r (r', some i) before h e = (m, h, omega arith)

end-Counted :
    (status : String) (latency_ms i m : ℕ) (r : FashnVtonRouter)
    → Counted r m
    → Counted (with_worker release i (record_both status latency_ms i r)) (m + 1)
end-Counted status latency_ms i m r h =
    with_worker-Counted release i (m + 1) (record_both status latency_ms i r) (
      record_router-Counted status latency_ms m _
        (with_worker-Counted (record_worker_request status latency_ms) i m r h))

apply-Balanced :
    (root : String) (s : Traffic) (e : Event) (n : ℕ)
    → Enabled root s e
    → Balanced s n
    → Balanced (apply root s e) (n + arrivals (e ∷ []))
unfolding apply
apply-Balanced root s (arriving body replies read latency_ms) n en (m, h, e) =
    let made = request_attrs_from_body body in
    let counted =
      arrived-Balanced s.serving latency_ms m n made s.router
        (claim_worker root replies read s.router) h
        (claim_worker-Counted root replies read m s.router h) e in
    unfold route_begin in rw (← succeeds-request_attrs_from_body body) counted
apply-Balanced root s (leaving i (responded status body) latency_ms) n en (m, h, e) = (
  m + 1,
  unfold route_end in end-Counted (final_status status) latency_ms i m s.router h,
  omega (arith, length-without_one i s.serving en),
)
apply-Balanced root s (leaving i (failed name message) latency_ms) n en (m, h, e) =
    let text = sanitize_message root message in
    (
      m + 1,
      unfold route_end in
          end-Counted "failed" latency_ms i m (with_worker (fail_worker text) i s.router)
            (with_worker-Counted (fail_worker text) i m s.router h),
      omega (arith, length-without_one i s.serving en),
    )
apply-Balanced root s (probing i reply) n en (m, h, e) =
    (m, with_worker-Counted (probe_worker root reply) i m s.router h, omega arith)
apply-Balanced root s (exiting i) n en (m, h, e) =
    (m, with_worker-Counted exit i m s.router h, omega arith)

run_from-Balanced :
    (root : String) (s : Traffic) (es : List Event) (n : ℕ)
    → Runs root s es
    → Balanced s n
    → Balanced (run root s es) (n + arrivals es)
unfolding run
run_from-Balanced root s [] n h b = subst (Balanced s) (omega arith) b
run_from-Balanced root s (e ∷ es) n (en, h) b =
    subst (Balanced (run root (apply root s e) es)) (arrivals-cons n e es) (
      run_from-Balanced root (apply root s e) es (n + arrivals (e ∷ [])) h
        (apply-Balanced root s e n en b))

-- Whatever the threads do from a router on that serves nobody and has counted `n` requests, the requests
-- that have ended and the requests that are being served are together the `n` and those that have arrived with an
-- acceptable body: each of these is counted once by its status and once in the latencies, the rejected ones
-- included. A request from whose body an exception comes is neither served nor counted.
pub run-Balanced :
    (root : String) (s : Traffic) (es : List Event) (n : ℕ)
    → Runs root s es
    → s.serving ≡ []
    → Counted s.router n
    → Balanced (run root s es) (n + arrivals es)
run-Balanced root s es n h empty c = run_from-Balanced root s es n h (n, c, rw empty (omega arith))
