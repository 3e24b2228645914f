-- ===== src/Router/State.antt =====
-- scripts/serve_fashn_vton_router.py: `WorkerState`, the state of `FashnVtonRouter`, and the probe of a
-- worker. The worker process is outside: `alive` is what its `poll` says, and a reply is an argument.
-- Latencies are counted in a unit in which they are whole numbers.
use try_ops_try_on_mlops.Base.{
  ℕ, ◌+◌, String, string_eq, nat_eq, Bool, false, ◌&&◌, Option, none, some, List, if◌then◌else◌,
  ◌==◌,
}
use try_ops_try_on_mlops.Base.Dict.{Dict, get_or, insert}
use try_ops_try_on_mlops.Base.Json
use try_ops_try_on_mlops.Base.Json.{
  Json, Fields, end, null, bool, num, str, arr, obj, truthy, as_dict,
}
use try_ops_try_on_mlops.Base.Text.{replace}

pub record WorkerState : Type 0 where
  pub worker_id : String
  pub alive : Bool
  pub ready : Bool
  pub last_probe_status : Option ℕ
  pub last_error : Option String
  pub last_ready_payload : Fields
  pub inflight : ℕ
  pub requests_total : Dict String ℕ
  pub latency_ms_count : ℕ
  pub latency_ms_sum : ℕ

pub record FashnVtonRouter : Type 0 where
  pub workers : List WorkerState
  pub next_worker_index : ℕ
  pub router_requests_total : Dict String ℕ
  pub router_latency_ms_count : ℕ
  pub router_latency_ms_sum : ℕ

-- What the request of a probe comes to: an exception of the request or of the JSON parser, with its
-- text, or a status and a body.
pub data ProbeReply : Type 0 where
  raised : String → ProbeReply
  answered : ℕ → Json → ProbeReply

-- the text of the `AttributeError` of `payload.get` on what is no dict
abbrev pub no_get : Json → String
no_get null = "'NoneType' object has no attribute 'get'"
no_get (bool b) = "'bool' object has no attribute 'get'"
no_get (num n) = "'int' object has no attribute 'get'"
no_get (str s) = "'str' object has no attribute 'get'"
no_get (arr xs) = "'list' object has no attribute 'get'"
no_get (obj d) = ""

-- `_sanitize_message`, with the text of `ROOT`
unfoldable pub sanitize_message : String → String → String
unfolding replace
sanitize_message root message = replace message root "$TRYOPS_ROOT"

-- the `except` block of `probe_worker`
abbrev pub probe_failed : String → WorkerState → WorkerState
probe_failed message w = record w {
  ready = false;
  last_probe_status = none;
  last_error = some message;
}

-- the block under the worker's lock after an answer
abbrev pub probe_answered : ℕ → Bool → Json → WorkerState → WorkerState
probe_answered status ready payload w = record w {
  ready = ready;
  last_probe_status = some status;
  last_error = none;
  last_ready_payload = as_dict payload;
}

-- `payload.get` is called only if the status is 200; it raises on what is no dict.
abbrev pub probe_reply : String → ℕ → Json → WorkerState → WorkerState
probe_reply root status (obj d) w =
    probe_answered status (status == 200 && truthy (Json.get_or "ready" null d)) (obj d) w
probe_reply root status payload w =
    if status == 200
    then probe_failed (sanitize_message root (no_get payload)) w
    else probe_answered status false payload w

-- the `try` statement of `probe_worker`
abbrev pub probe_alive : String → ProbeReply → WorkerState → WorkerState
probe_alive root (raised message) w = probe_failed (sanitize_message root message) w
probe_alive root (answered status payload) w = probe_reply root status payload w

unfoldable pub probe_worker : String → ProbeReply → WorkerState → WorkerState
probe_worker root reply w = if w.alive then probe_alive root reply w else record w {
  ready = false;
  last_probe_status = none;
  last_error = some "worker_process_exited";
}

-- `_record_worker_request`
unfoldable pub record_worker_request : String → ℕ → WorkerState → WorkerState
record_worker_request status latency_ms w = record w {
  requests_total = insert status (get_or status 0 w.requests_total + 1) w.requests_total;
  latency_ms_count = w.latency_ms_count + 1;
  latency_ms_sum = w.latency_ms_sum + latency_ms;
}

-- `_record_router_request`
unfoldable pub record_router_request : String → ℕ → FashnVtonRouter → FashnVtonRouter
record_router_request status latency_ms r = record r {
  router_requests_total =
      insert status (get_or status 0 r.router_requests_total + 1) r.router_requests_total;
  router_latency_ms_count = r.router_latency_ms_count + 1;
  router_latency_ms_sum = r.router_latency_ms_sum + latency_ms;
}
