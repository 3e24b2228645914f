-- ===== src/Routing/Canary.antt =====
-- src/tryops/routing.py: `build_routing_decision` and `apply_fallback_route`. Python's floats are a
-- parameter, and so is the bucket of a request id, which is computed from its SHA-256 in floats.
use try_ops_try_on_mlops.Base.{
  String, string_eq, Bool, not, ◌||◌, Option, none, some, if◌then◌else◌, ◌==◌,
}
use try_ops_try_on_mlops.Base.Dict.{Dict, get_or}
use try_ops_try_on_mlops.Base.Result.{Result, raised, ok, ◌>>=◌}
use try_ops_try_on_mlops.Routing.Alias.{resolve_model_alias}

-- `stable_percent_bucket` is the bucket of a request id.
pub record Percents : Type 1 where
  pub Float : Type 0
  pub lt : Float → Float → Bool
  pub zero : Float
  pub hundred : Float
  pub stable_percent_bucket : String → Float

pub record RoutingRequest (Float : Type 0) : Type 0 where
  pub workload : String
  pub request_id : String
  pub requested_alias : String
  pub routing_mode : String
  pub canary_percent : Float
  pub shadow : Bool
  pub fallback_enabled : Bool
  pub fallback_alias : String
  pub route_health : Dict String String

-- the `fallback` entry of a decision: that of another workload, or that with the route it would take
pub data Fallback : Type 0 where
  not_applicable : Fallback
  disabled : (alias : String) → (adapter : String) → (primary_health_status : String) → Fallback

pub record RoutingDecision (Float : Type 0) : Type 0 where
  pub mode : String
  pub requested_alias : String
  pub primary_alias : String
  pub primary_adapter : String
  pub reason : String
  pub canary_percent : Float
  pub bucket : Float
  pub shadow : Option (String × String)
  pub fallback : Option Fallback

abbrev pub shadow_of : String → String
shadow_of primary = if not (primary == "challenger") then "challenger" else "champion"

module _ (ps : Percents) where
  abbrev pub Request : Type 0
  Request = RoutingRequest ps.Float

  abbrev pub Decision : Type 0
  Decision = RoutingDecision ps.Float

  -- the alias and the reason
  abbrev pub choose : Request → String × String
  choose r =
      if r.routing_mode == "canary"
      then if ps.lt (ps.stable_percent_bucket r.request_id) r.canary_percent
        then ("challenger", "canary_challenger")
        else ("champion", "canary_champion")
      else (r.requested_alias, "requested_alias")

  unfoldable pub apply_fallback_route :
      Decision → String → String → Dict String String → Result Decision
  unfolding resolve_model_alias
  apply_fallback_route d workload fallback_alias route_health =
      if not (workload == "llm")
      then ok (record d { fallback = some not_applicable })
      else if not (fallback_alias == "baseline")
      then raised "fallback_alias must be 'baseline' for disabled fallback metadata"
      else ◌>>=◌ (resolve_model_alias workload fallback_alias) (λ adapter. ok (record d {
        fallback =
            some (disabled fallback_alias adapter (get_or d.primary_alias "unknown" route_health));
      }))

  abbrev pub first_decision : Request → String × String → String → Decision
  first_decision r (alias, reason) adapter = record {
    mode = r.routing_mode;
    requested_alias = r.requested_alias;
    primary_alias = alias;
    primary_adapter = adapter;
    reason = reason;
    canary_percent = r.canary_percent;
    bucket = ps.stable_percent_bucket r.request_id;
    shadow = none;
    fallback = none;
  }

  abbrev pub add_shadow : Request → Decision → Result Decision
  add_shadow r d =
      if r.shadow
      then ◌>>=◌ (resolve_model_alias r.workload (shadow_of d.primary_alias))
          (λ adapter. ok (record d { shadow = some (shadow_of d.primary_alias, adapter) }))
      else ok d

  abbrev pub add_fallback : Request → Decision → Result Decision
  add_fallback r d =
      if r.fallback_enabled
      then apply_fallback_route d r.workload r.fallback_alias r.route_health
      else ok d

  -- from the choice of the alias on
  abbrev pub route : Request → Result Decision
  route r = ◌>>=◌ (resolve_model_alias r.workload (choose r).0) (λ adapter.
      ◌>>=◌ (add_shadow r (first_decision r (choose r) adapter)) (λ d. add_fallback r d))

  unfoldable pub build_routing_decision : Request → Result Decision
  unfolding resolve_model_alias apply_fallback_route
  build_routing_decision r =
      if not (r.routing_mode == "direct" || r.routing_mode == "canary")
      then raised "routing_mode must be 'direct' or 'canary'"
      else if ps.lt r.canary_percent ps.zero || ps.lt ps.hundred r.canary_percent
      then raised "canary_percent must be between 0 and 100"
      else route r
