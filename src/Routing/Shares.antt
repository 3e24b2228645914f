-- ===== src/Routing/Shares.antt =====
-- How the share of the challenger grows.
use try_ops_try_on_mlops.Base.{
  string_eq, true, ◌||◌, ◌≡◌, refl, some, ◌==◌, Bool-cases, inl, inr, ◌∙◌, sym, ap,
}
use try_ops_try_on_mlops.Base.Dict.{get_or}
use try_ops_try_on_mlops.Base.Result.{raised, ok, ◌>>=◌, >>=-eq-ok}
use try_ops_try_on_mlops.Routing.Alias.{llm_adapter, resolve_model_alias}
use try_ops_try_on_mlops.Routing.Canary.{
  Percents, Request, Decision, choose, shadow_of, apply_fallback_route, first_decision, add_shadow,
  add_fallback, not_applicable, disabled, route, build_routing_decision,
}

module _ (ps : Percents) where
  -- What the steps behind the first leave alone.
  abbrev Extends : Decision ps → Decision ps → Type 0
  Extends d d' = (d'.primary_alias ≡ d.primary_alias) × (d'.primary_adapter ≡ d.primary_adapter)

  Extends-eq : (d d' : Decision ps) → ok d ≡ ok d' → Extends d d'
  Extends-eq d d' h =
      let e : d ≡ d' = cc (h) in
      (ap (λ x. x.primary_alias) (sym e), ap (λ x. x.primary_adapter) (sym e))

  shadow-Extends : (r : Request ps) (d d' : Decision ps) → add_shadow ps r d ≡ ok d' → Extends d d'
  shadow-Extends r d d' h = elim (Bool-cases r.shadow) [
    | inr off ↦ Extends-eq d d' (rw off at h)
    | inl shown ↦
        let (adapter, _, e) =
          >>=-eq-ok (resolve_model_alias r.workload (shadow_of d.primary_alias))
            (λ adapter. ok (record d { shadow = some (shadow_of d.primary_alias, adapter) })) d'
            (rw shown at h) in
        Extends-eq (record d { shadow = some (shadow_of d.primary_alias, adapter) }) d' e
  ]

  fallback-Extends :
      (r : Request ps) (d d' : Decision ps) → add_fallback ps r d ≡ ok d' → Extends d d'
  unfolding apply_fallback_route
  fallback-Extends r d d' h = elim (Bool-cases r.fallback_enabled) [
    | inr off ↦ Extends-eq d d' (rw off at h)
    | inl on ↦ elim (Bool-cases (r.workload == "llm")) [
      | inr vton ↦ Extends-eq (record d { fallback = some not_applicable }) d' (rw (on, vton) at h)
      | inl llm ↦ elim (Bool-cases (r.fallback_alias == "baseline")) [
        | inr other ↦ absurd (let e : raised _ ≡ ok d' = rw (on, llm, other) at h in cc (e))
        | inl base ↦
            Extends-eq
              (record d {
                fallback = some (
                    disabled r.fallback_alias llm_adapter
                      (get_or d.primary_alias "unknown" r.route_health));
              })
              d' (rw (on, llm, base) at h)
      ]
    ]
  ]

  -- A decision has the alias that `choose` says, with that alias's adapter.
  abbrev pub Routed : Request ps → Decision ps → Type 0
  Routed r d =
      (d.primary_alias ≡ (choose ps r).0)
      × (resolve_model_alias r.workload d.primary_alias ≡ ok d.primary_adapter)

  route-Routed : (r : Request ps) (d : Decision ps) → route ps r ≡ ok d → Routed r d
  route-Routed r d h =
      let (adapter, found, h1) =
        >>=-eq-ok (resolve_model_alias r.workload (choose ps r).0)
          (λ adapter.
            ◌>>=◌ (add_shadow ps r (first_decision ps r (choose ps r) adapter))
              (λ d. add_fallback ps r d))
          d h in
      let (d1, e1, h2) =
        >>=-eq-ok (add_shadow ps r (first_decision ps r (choose ps r) adapter))
          (λ d. add_fallback ps r d) d h1 in
      let (a1, b1) = shadow-Extends r (first_decision ps r (choose ps r) adapter) d1 e1 in
      let (a2, b2) = fallback-Extends r d1 d h2 in (a2 ∙ a1, rw (a2 ∙ a1, b2 ∙ b1) found)

  build-Routed :
      (r : Request ps) (d : Decision ps) → build_routing_decision ps r ≡ ok d → Routed r d
  unfolding build_routing_decision
  build-Routed r d h =
      elim (Bool-cases (r.routing_mode == "direct" || r.routing_mode == "canary")) [
        | inr bad ↦ absurd (let e = (rw bad at h) in cc (e))
        | inl good ↦
            elim (Bool-cases
              (ps.lt r.canary_percent ps.zero || ps.lt ps.hundred r.canary_percent)) [
                | inl bad ↦ absurd (let e = (rw (good, bad) at h) in cc (e))
                | inr fine ↦ route-Routed r d (rw (good, fine) at h)
              ]
      ]

  -- When the canary share grows, a request that the challenger serves stays with the challenger: if whatever
  -- is below the share of a first decision is below that of a second one on the same request, and both are made in
  -- the canary mode, the challenger in the first is the challenger in the second.
  pub challenger_stays :
      (r r' : Request ps) (d d' : Decision ps)
      → r.routing_mode ≡ "canary"
      → r'.routing_mode ≡ "canary"
      → r'.request_id ≡ r.request_id
      → ((b : ps.Float) → ps.lt b r.canary_percent ≡ true → ps.lt b r'.canary_percent ≡ true)
      → build_routing_decision ps r ≡ ok d
      → build_routing_decision ps r' ≡ ok d'
      → d.primary_alias ≡ "challenger"
      → d'.primary_alias ≡ "challenger"
  challenger_stays r r' d d' m m' same grows h h' served =
      let (e, _) = build-Routed r d h in
      let (e', _) = build-Routed r' d' h' in
      let chosen : (choose ps r).0 ≡ "challenger" = sym e ∙ served in
      elim (Bool-cases (ps.lt (ps.stable_percent_bucket r.request_id) r.canary_percent)) [
        | inl below ↦
            let below' = grows (ps.stable_percent_bucket r.request_id) below in
            e' ∙ rw (m', same, below') refl
        | inr above ↦ absurd (let bad = (rw (m, above) at chosen) in cc (bad))
      ]
