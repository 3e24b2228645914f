-- ===== src/Routing/Expected.antt =====
-- What `build_routing_decision` accepts, and the decision that it comes to, without the order of its tests.
use text.Mathlib.TextEquality.{eq_iff}
use try_ops_try_on_mlops.Base.{
  String, string_eq, true, false, ◌||◌, ◌≡◌, ◌≢◌, ◌⊎◌, refl, Option, none, some, if◌then◌else◌,
  ◌==◌, Bool-cases, inl, inr, ◌∙◌, sym, arith, not,
}
use try_ops_try_on_mlops.Base.Dict.{get_or}
use try_ops_try_on_mlops.Base.Result.{raised, ok, ◌>>=◌, >>=-eq-ok}
use try_ops_try_on_mlops.Routing.Alias.{resolve_model_alias}
use try_ops_try_on_mlops.Routing.Canary.{
  Percents, Request, Decision, Fallback, choose, shadow_of, apply_fallback_route, first_decision,
  add_shadow, add_fallback, not_applicable, disabled, route, build_routing_decision,
}
use try_ops_try_on_mlops.Routing.Models.{
  IsServed, IsSupported, adapter_of, other_alias, resolve-adapter_of, resolve-IsSupported,
  other_alias-IsSupported, other_alias-ne,
}

module _ (ps : Percents) where
  -- The requests that are given a decision.
  pub record Routable (r : Request ps) : Type 0 where
    pub workload : IsServed r.workload
    pub mode :
        (r.routing_mode ≡ "canary") ⊎ (r.routing_mode ≡ "direct") × IsSupported r.requested_alias
    pub percent : (ps.lt r.canary_percent ps.zero || ps.lt ps.hundred r.canary_percent) ≡ false
    pub fallback : r.fallback_enabled ≡ true → r.workload ≡ "llm" → r.fallback_alias ≡ "baseline"

  -- the alias that serves, with the reason
  abbrev pub served_by : Request ps → String × String
  served_by r =
      if r.routing_mode == "direct"
      then (r.requested_alias, "requested_alias")
      else if ps.lt (ps.stable_percent_bucket r.request_id) r.canary_percent
      then ("challenger", "canary_challenger")
      else ("champion", "canary_champion")

  abbrev pub fallback_entry : Request ps → Option Fallback
  fallback_entry r =
      if not r.fallback_enabled
      then none
      else if r.workload == "llm"
      then some (
          disabled "baseline" "openai-compatible-vllm"
            (get_or (served_by r).0 "unknown" r.route_health))
      else some not_applicable

  abbrev pub expected : Request ps → Decision ps
  expected r =
      let alias : String = (served_by r).0 in
      record {
        mode = r.routing_mode;
        requested_alias = r.requested_alias;
        primary_alias = alias;
        primary_adapter = adapter_of r.workload alias;
        reason = (served_by r).1;
        canary_percent = r.canary_percent;
        bucket = ps.stable_percent_bucket r.request_id;
        shadow =
            if r.shadow
            then some (other_alias alias, adapter_of r.workload (other_alias alias))
            else none;
        fallback = fallback_entry r;
      }

  choose-served_by :
      (r : Request ps)
      → (r.routing_mode ≡ "canary") ⊎ (r.routing_mode ≡ "direct")
      → choose ps r ≡ served_by r
  choose-served_by r (inl m) = rw m refl
  choose-served_by r (inr m) = rw m refl

  served_by-IsSupported : (r : Request ps) → Routable r → IsSupported (served_by r).0
  served_by-IsSupported r s = elim s.mode [
    | inl m ↦ elim (Bool-cases (ps.lt (ps.stable_percent_bucket r.request_id) r.canary_percent)) [
      | inl below ↦ rw (m, below) (inr (inr (inl refl)))
      | inr above ↦ rw (m, above) (inr (inl refl))
    ]
    | inr (m, known) ↦ rw m known
  ]

  shadow_of-other_alias : (primary : String) → shadow_of primary ≡ other_alias primary
  shadow_of-other_alias primary = ground arith

  add_shadow-expected :
      (r : Request ps) (d : Decision ps)
      → IsServed r.workload
      → d.shadow ≡ none
      → add_shadow ps r d
        ≡ ok (record d {
          shadow =
              if r.shadow
              then some
                  (other_alias d.primary_alias, adapter_of r.workload (other_alias d.primary_alias))
              else none;
        })
  add_shadow-expected r d served empty = elim (Bool-cases r.shadow) [
    | inr off ↦ rw (off, ← empty) refl
    | inl on ↦
        let found =
          resolve-adapter_of r.workload (other_alias d.primary_alias) served
            (other_alias-IsSupported d.primary_alias) in
        rw (on, shadow_of-other_alias d.primary_alias) (rw found refl)
  ]

  add_fallback-expected :
      (r : Request ps) (d : Decision ps)
      → Routable r
      → d.fallback ≡ none
      → d.primary_alias ≡ (served_by r).0
      → add_fallback ps r d ≡ ok (record d { fallback = fallback_entry r })
  unfolding apply_fallback_route
  add_fallback-expected r d s empty alias = elim (Bool-cases r.fallback_enabled) [
    | inr off ↦ rw (off, ← empty) refl
    | inl on ↦ elim (Bool-cases (r.workload == "llm")) [
      | inr vton ↦ rw (on, vton) refl
      | inl llm ↦
          let base = s.fallback on ((eq_iff r.workload "llm").0 llm) in
          rw (on, llm, base, ← alias) refl
    ]
  ]

  mode_of :
      (r : Request ps) → Routable r → (r.routing_mode ≡ "canary") ⊎ (r.routing_mode ≡ "direct")
  mode_of r s = elim s.mode [ inl m ↦ inl m | inr (m, known) ↦ inr m ]

  route-expected : (r : Request ps) → Routable r → route ps r ≡ ok (expected r)
  route-expected r s =
      let alias : String = (served_by r).0 in
      let found = resolve-adapter_of r.workload alias s.workload (served_by-IsSupported r s) in
      let d = first_decision ps r (served_by r) (adapter_of r.workload alias) in
      let shadowed = add_shadow-expected r d s.workload refl in
      let d' : Decision ps = record d {
        shadow =
            if r.shadow
            then some (other_alias alias, adapter_of r.workload (other_alias alias))
            else none;
      } in
      rw (choose-served_by r (mode_of r s))
        (rw found (rw shadowed (add_fallback-expected r d' s refl refl)))

  build-expected : (r : Request ps) → Routable r → build_routing_decision ps r ≡ ok (expected r)
  unfolding build_routing_decision
  build-expected r s =
      let known : (r.routing_mode == "direct" || r.routing_mode == "canary") ≡ true = elim s.mode [
        | inl m ↦ rw m refl
        | inr (m, k) ↦ rw m refl
      ] in
      rw (known, s.percent) (route-expected r s)

  add_fallback-baseline :
      (r : Request ps) (d d' : Decision ps)
      → add_fallback ps r d ≡ ok d'
      → r.fallback_enabled ≡ true
      → r.workload ≡ "llm"
      → r.fallback_alias ≡ "baseline"
  unfolding apply_fallback_route
  add_fallback-baseline r d d' h on llm = elim (Bool-cases (r.fallback_alias == "baseline")) [
    | inl base ↦ (eq_iff r.fallback_alias "baseline").0 base
    | inr other ↦ absurd (let e : raised _ ≡ ok d' = rw (on, llm, other) at h in cc (e))
  ]

  route-Routable :
      (r : Request ps) (d : Decision ps)
      → (r.routing_mode ≡ "canary") ⊎ (r.routing_mode ≡ "direct")
      → (ps.lt r.canary_percent ps.zero || ps.lt ps.hundred r.canary_percent) ≡ false
      → route ps r ≡ ok d
      → Routable r
  route-Routable r d m fine h =
      let (adapter, found, h1) =
        >>=-eq-ok (resolve_model_alias r.workload (choose ps r).0)
          (λ adapter.
            ◌>>=◌ (add_shadow ps r (first_decision ps r (choose ps r) adapter))
              (λ d. add_fallback ps r d))
          d h in
      let (d1, e1, h2) =
        >>=-eq-ok (add_shadow ps r (first_decision ps r (choose ps r) adapter))
          (λ d. add_fallback ps r d) d h1 in
      let (served, known) = resolve-IsSupported r.workload (choose ps r).0 adapter found in
      record {
        workload = served;
        mode = elim m [ inl canary ↦ inl canary | inr direct ↦ inr (direct, rw direct at known) ];
        percent = fine;
        fallback = add_fallback-baseline r d1 d h2;
      }

  build-Routable :
      (r : Request ps) (d : Decision ps) → build_routing_decision ps r ≡ ok d → Routable r
  unfolding build_routing_decision
  build-Routable r d h =
      elim (Bool-cases (r.routing_mode == "direct" || r.routing_mode == "canary")) [
        | inr bad ↦ absurd (let e = (rw bad at h) in cc (e))
        | inl good ↦
            elim (Bool-cases
              (ps.lt r.canary_percent ps.zero || ps.lt ps.hundred r.canary_percent)) [
                | inl bad ↦ absurd (let e = (rw (good, bad) at h) in cc (e))
                | inr fine ↦ route-Routable r d (mode_cases r good) fine (rw (good, fine) at h)
              ]
      ]
    where
      mode_cases :
          (r : Request ps)
          → (r.routing_mode == "direct" || r.routing_mode == "canary") ≡ true
          → (r.routing_mode ≡ "canary") ⊎ (r.routing_mode ≡ "direct")
      mode_cases r h =
          ground (arith, eq_iff r.routing_mode "direct", eq_iff r.routing_mode "canary")

  -- A request is given a decision exactly if its workload is served, its mode is canary, or direct with a
  -- supported alias, its percentage is not outside 0 to 100, and its fallback alias is "baseline" where a language
  -- model's fallback is asked for. The decision is the expected one: in the canary mode the
  -- challenger serves if the request's bucket is below the percentage and else the champion, whatever
  -- alias the request names; a shadow that is asked for never is the alias that serves.
  pub build_routing_decision-expected :
      (r : Request ps)
      → (Routable r → build_routing_decision ps r ≡ ok (expected r))
        × ((d : Decision ps)
            → build_routing_decision ps r ≡ ok d
            → Routable r
              × (d ≡ expected r)
              × ((alias adapter : String)
                  → d.shadow ≡ some (alias, adapter)
                  → alias ≢ d.primary_alias))
  build_routing_decision-expected r = (
    build-expected r,
    λ d h.
        let s = build-Routable r d h in
        let both : ok d ≡ ok (expected r) = sym h ∙ build-expected r s in
        let same : d ≡ expected r = cc (both) in (s, same, rw same (apart r)),
  )
    where
      apart :
          (r : Request ps) (alias adapter : String)
          → (expected r).shadow ≡ some (alias, adapter)
          → alias ≢ (expected r).primary_alias
      apart r alias adapter h = elim (Bool-cases r.shadow) [
        | inr off ↦ absurd (let e = (rw off at h) in cc (e))
        | inl on ↦
            let e : other_alias (served_by r).0 ≡ alias = let k = (rw on at h) in cc (k) in
            rw (← e) (other_alias-ne (served_by r).0)
      ]
