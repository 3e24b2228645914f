-- ===== src/Router/Tests.antt =====
-- The router at concrete inputs.
use try_ops_try_on_mlops.Base.{
  ℕ, zero, suc, ◌+◌, ◌≡◌, ◌≢◌, ◌↔◌, refl, true, none, some, List, [], ◌∷◌, get_elem?, String,
  string_eq, nat_eq, arith,
}
use try_ops_try_on_mlops.Base.Json.{end}
use try_ops_try_on_mlops.Router.State.{WorkerState, FashnVtonRouter, ProbeReply, raised}
use try_ops_try_on_mlops.Router.Schedule.{
  loads, is_candidate, scan, claim, pick_least, pick, claim_worker, refresh,
}
use try_ops_try_on_mlops.Base.Python.{overflow}
use try_ops_try_on_mlops.Router.Body.{
  Value, unreadable, other_value, fields, request_attrs_from_body,
}
use try_ops_try_on_mlops.Router.Requests.{responded, route_begin, route_end}
use try_ops_try_on_mlops.Router.Scan.{Unready}
use try_ops_try_on_mlops.Router.Fairness.{Chosen, pick-Chosen, pick-none, stale_minimum_rejects}
use try_ops_try_on_mlops.Router.Traffic.{
  Traffic, Event, arriving, leaving, exiting, apply, run, Runs,
}
use try_ops_try_on_mlops.Router.Loads.{IsIdle, LoadsAgree, run-LoadsAgree}
use try_ops_try_on_mlops.Router.Counters.{arrivals, Balanced, run-Balanced}

abbrev worker : String → ℕ → WorkerState
worker id load = record {
  worker_id = id;
  alive = true;
  ready = true;
  last_probe_status = some 200;
  last_error = none;
  last_ready_payload = end;
  inflight = load;
  requests_total = [];
  latency_ms_count = 0;
  latency_ms_sum = 0;
}

abbrev router : ℕ → ℕ → FashnVtonRouter
router m n = record {
  workers = worker "gpu0" m ∷ worker "gpu1" n ∷ [];
  next_worker_index = 0;
  router_requests_total = [];
  router_latency_ms_count = 0;
  router_latency_ms_sum = 0;
}

chosen_one : pick (loads (router 2 1).workers) (router 2 1) ≡ some (1, claim 1 (router 2 1))
unfolding pick pick_least scan
chosen_one = refl

pick-Chosen_example : Chosen (router 2 1) (claim 1 (router 2 1)) 1
pick-Chosen_example = pick-Chosen (router 2 1) (claim 1 (router 2 1)) 1 chosen_one

pick-none_example :
    (pick (loads (router 2 1).workers) (router 2 1) ≡ none) ↔ Unready (router 2 1).workers
pick-none_example = pick-none (router 2 1)

-- `min` has read 1 and 1, and then the first request has ended at each worker.
others_idle :
    (i : ℕ) (w : WorkerState)
    → get_elem? (router 0 0).workers i ≡ some w
    → is_candidate w ≡ true
    → w.inflight ≢ 1
others_idle zero w e c = λ h. ground (arith, e, h)
others_idle (suc zero) w e c = λ h. ground (arith, e, h)
others_idle (suc (suc i)) w e c = absurd (cc (e))

stale_minimum_rejects_example : pick (1 ∷ 1 ∷ []) (router 0 0) ≡ none
stale_minimum_rejects_example = stale_minimum_rejects (1 ∷ 1 ∷ []) (router 0 0) 1 refl others_idle

abbrev fresh : Traffic
fresh = record { router = router 0 0; serving = [] }

abbrev silent : ℕ → ProbeReply
silent i = raised "timed out"

-- `Infinity`, as `json.loads` reads it
abbrev infinity : Value
infinity = record { text = none; int = overflow }

abbrev events : List Event
events =
    arriving unreadable silent (0 ∷ 0 ∷ []) 4
    ∷ arriving (fields (("num_timesteps", infinity) ∷ [])) silent (1 ∷ 0 ∷ []) 4
    ∷ arriving other_value silent (1 ∷ 0 ∷ []) 4
    ∷ leaving 0 (responded 200 "{}") 9
    ∷ exiting 1
    ∷ []

fresh-IsIdle : IsIdle fresh.router.workers
fresh-IsIdle zero w e = ground (arith, e)
fresh-IsIdle (suc zero) w e = ground (arith, e)
fresh-IsIdle (suc (suc i)) w e = absurd (cc (e))

run-LoadsAgree_example :
    LoadsAgree (run "/srv" fresh events).router.workers (run "/srv" fresh events).serving
run-LoadsAgree_example = run-LoadsAgree "/srv" fresh events fresh-IsIdle refl

events-Runs : Runs "/srv" fresh events
unfolding apply route_begin request_attrs_from_body route_end claim_worker refresh pick pick_least
    scan
events-Runs = (tt, (tt, (tt, (omega arith, (tt, tt)))))

run-Balanced_example : Balanced (run "/srv" fresh events) (0 + arrivals events)
run-Balanced_example = run-Balanced "/srv" fresh events 0 events-Runs refl (refl, refl)
