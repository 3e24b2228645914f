-- ===== src/Router/Requests.antt =====
-- scripts/serve_fashn_vton_router.py: `route_infer`. The forwarded request is outside: what it comes to is
-- an argument. The structured log is not modelled; `latency_ms` is what the clock says.
use try_ops_try_on_mlops.Base.{
  ℕ, ◌-◌, leb, ltb, String, false, ◌&&◌, Option, none, some, List, if◌then◌else◌,
}
use try_ops_try_on_mlops.Base.Result.{Result, ok}
use try_ops_try_on_mlops.Router.Body.{Body, request_attrs_from_body}
use try_ops_try_on_mlops.Router.State.{
  WorkerState, FashnVtonRouter, ProbeReply, sanitize_message, record_worker_request,
  record_router_request,
}
use try_ops_try_on_mlops.Router.Schedule.{with_worker, claim_worker}

-- what `_worker_request` comes to: a status and a body, or an exception by its name and its text
pub data InferReply : Type 0 where
  responded : ℕ → String → InferReply
  failed : String → String → InferReply

-- the status of the answer and what it carries
pub data Answer : Type 0 where
  forwarded : ℕ → String → Answer
  no_ready_worker : Answer
  bad_gateway : String → String → Answer

abbrev pub http_status : Answer → ℕ
http_status (forwarded status body) = status
http_status no_ready_worker = 503
http_status (bad_gateway name message) = 502

-- `"completed" if 200 <= status < 300 else "rejected"`
abbrev pub final_status : ℕ → String
final_status status = if leb 200 status && ltb status 300 then "completed" else "rejected"

-- `worker.inflight = max(0, worker.inflight - 1)` of the `finally` block
abbrev pub release : WorkerState → WorkerState
release w = record w { inflight = w.inflight - 1 }

-- the `except` block's write to the worker
abbrev pub fail_worker : String → WorkerState → WorkerState
fail_worker message w = record w { ready = false; last_error = some message }

-- With no worker the request is rejected at once.
abbrev pub begun : ℕ → FashnVtonRouter × Option ℕ → FashnVtonRouter × Option ℕ
begun latency_ms (r, none) = (record_router_request "rejected" latency_ms r, none)
begun latency_ms (r, some i) = (r, some i)

-- An exception of `_request_attrs_from_body` leaves `route_infer` before it claims a worker.
abbrev pub attended :
    {A : Type 0}
    → Result A
    → FashnVtonRouter
    → FashnVtonRouter × Option ℕ
    → FashnVtonRouter × Result (Option ℕ)
attended (Result.raised text) r p = (r, Result.raised text)
attended (ok attrs) r p = (p.0, ok p.1)

-- `route_infer` up to the request to the worker
unfoldable pub route_begin :
    String
    → Body
    → (ℕ → ProbeReply)
    → List ℕ
    → ℕ
    → FashnVtonRouter
    → FashnVtonRouter × Result (Option ℕ)
unfolding request_attrs_from_body
route_begin root body replies read latency_ms r =
    attended (request_attrs_from_body body) r (begun latency_ms (claim_worker root replies read r))

abbrev pub record_both : String → ℕ → ℕ → FashnVtonRouter → FashnVtonRouter
record_both status latency_ms i r =
    record_router_request status latency_ms
      (with_worker (record_worker_request status latency_ms) i r)

-- `route_infer` from the end of the request to worker `i` on, its `finally` block included
unfoldable pub route_end : String → ℕ → InferReply → ℕ → FashnVtonRouter → FashnVtonRouter × Answer
route_end root i (responded status body) latency_ms r = (
  with_worker release i (record_both (final_status status) latency_ms i r),
  forwarded status body,
)
route_end root i (failed name message) latency_ms r =
    let text = sanitize_message root message in
    (
      with_worker release i
          (record_both "failed" latency_ms i (with_worker (fail_worker text) i r)),
      bad_gateway name text,
    )
