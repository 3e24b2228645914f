-- ===== src/Router/Traffic.antt =====
-- The router under concurrent requests. An event is one of the blocks of the router's
-- threads; `serving` holds, for each request that is being forwarded, the index of its worker.
use try_ops_try_on_mlops.Base.{
  ℕ, ◌<◌, false, Option, none, some, List, [], ◌∷◌, count_if, nat_eq, ◌==◌, if◌then◌else◌, String,
}
use try_ops_try_on_mlops.Base.Result.{Result, raised, ok}
use try_ops_try_on_mlops.Router.Body.{Body}
use try_ops_try_on_mlops.Router.State.{WorkerState, FashnVtonRouter, ProbeReply, probe_worker}
use try_ops_try_on_mlops.Router.Schedule.{with_worker}
use try_ops_try_on_mlops.Router.Requests.{InferReply, route_begin, route_end}

pub record Traffic : Type 0 where
  pub router : FashnVtonRouter
  pub serving : List ℕ

-- A request arrives (with its body, the probes' replies, the loads that `min` reads and a time), a request ends at a
-- worker, a worker is probed, a worker's process ends.
pub data Event : Type 0 where
  arriving : Body → (ℕ → ProbeReply) → List ℕ → ℕ → Event
  leaving : ℕ → InferReply → ℕ → Event
  probing : ℕ → ProbeReply → Event
  exiting : ℕ → Event

-- How often an index stands in a list, and the list without one of them.
abbrev pub times : ℕ → List ℕ → ℕ
times i is = count_if (λ j. j == i) is

abbrev pub without_one : ℕ → List ℕ → List ℕ
without_one i [] = []
without_one i (j ∷ js) = let rest = without_one i js in if j == i then js else j ∷ rest

abbrev pub exit : WorkerState → WorkerState
exit w = record w { alive = false }

abbrev pub arrived : List ℕ → FashnVtonRouter × Result (Option ℕ) → Traffic
arrived serving (r, raised text) = record { router = r; serving = serving }
arrived serving (r, ok none) = record { router = r; serving = serving }
arrived serving (r, ok (some i)) = record { router = r; serving = i ∷ serving }

module _ (root : String) where
  unfoldable pub apply : Traffic → Event → Traffic
  apply s (arriving body replies read latency_ms) =
      arrived s.serving (route_begin root body replies read latency_ms s.router)
  apply s (leaving i reply latency_ms) = record {
    router = (route_end root i reply latency_ms s.router).0;
    serving = without_one i s.serving;
  }
  apply s (probing i reply) = record s { router = with_worker (probe_worker root reply) i s.router }
  apply s (exiting i) = record s { router = with_worker exit i s.router }

  -- A request ends at a worker that serves one.
  abbrev pub Enabled : Traffic → Event → Type 0
  Enabled s (leaving i reply latency_ms) = 0 < times i s.serving
  Enabled s _ = Unit

  unfoldable pub run : Traffic → List Event → Traffic
  run s [] = s
  run s (e ∷ es) = run (apply s e) es

  abbrev pub Runs : Traffic → List Event → Type 0
  Runs s [] = Unit
  Runs s (e ∷ es) = Enabled s e × Runs (apply s e) es
