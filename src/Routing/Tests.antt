-- ===== src/Routing/Tests.antt =====
-- Routing at concrete inputs. A float is a number, and the bucket of every request is 7.
use try_ops_try_on_mlops.Base.{
  ℕ, string_eq, true, false, ◌≡◌, ◌≢◌, String, some, refl, inl, inr, [], ltb, arith,
}
use try_ops_try_on_mlops.Base.Result.{ok}
use try_ops_try_on_mlops.Routing.Alias.{resolve_model_alias}
use try_ops_try_on_mlops.Routing.Canary.{
  Percents, RoutingRequest, RoutingDecision, first_decision, build_routing_decision,
}
use try_ops_try_on_mlops.Routing.Shares.{challenger_stays}
use try_ops_try_on_mlops.Routing.Expected.{Routable, expected, build_routing_decision-expected}

abbrev percents : Percents
percents = record { Float = ℕ; lt = ltb; zero = 0; hundred = 100; stable_percent_bucket = λ s. 7 }

abbrev request : ℕ → RoutingRequest ℕ
request share = record {
  workload = "vton";
  request_id = "request-1";
  requested_alias = "candidate";
  routing_mode = "canary";
  canary_percent = share;
  shadow = false;
  fallback_enabled = false;
  fallback_alias = "baseline";
  route_health = [];
}

abbrev decision : ℕ → RoutingDecision ℕ
decision share =
    first_decision percents (request share) ("challenger", "canary_challenger") "fashn-vton-http"

ten : build_routing_decision percents (request 10) ≡ ok (decision 10)
unfolding build_routing_decision resolve_model_alias
ten = refl

twenty : build_routing_decision percents (request 20) ≡ ok (decision 20)
unfolding build_routing_decision resolve_model_alias
twenty = refl

wider : (b : ℕ) → ltb b 10 ≡ true → ltb b 20 ≡ true
wider b h = ground arith

challenger_stays_example : (decision 20).primary_alias ≡ "challenger"
challenger_stays_example =
    challenger_stays percents (request 10) (request 20) (decision 10) (decision 20) refl refl refl
      wider ten twenty refl

build_routing_decision-expected_example :
    (Routable percents (request 10)
      → build_routing_decision percents (request 10) ≡ ok (expected percents (request 10)))
    × ((d : RoutingDecision ℕ)
        → build_routing_decision percents (request 10) ≡ ok d
        → Routable percents (request 10)
          × (d ≡ expected percents (request 10))
          × ((alias adapter : String) → d.shadow ≡ some (alias, adapter) → alias ≢ d.primary_alias))
build_routing_decision-expected_example = build_routing_decision-expected percents (request 10)

-- The request is one that is given a decision.
request-Routable : Routable percents (request 10)
request-Routable = record {
  workload = inr refl;
  mode = inl refl;
  percent = refl;
  fallback = λ off llm. refl;
}
