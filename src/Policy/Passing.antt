-- ===== src/Policy/Passing.antt =====
-- The other gates, on the guardrails, the scan of the artifacts and the metrics: each passes exactly if its part of
-- what a promotion requires holds.
use try_ops_try_on_mlops.Base.{
  String, string_eq, true, false, ◌≡◌, ◌↔◌, refl, some, [], ◌∷◌, is_empty, contains, All, arith,
  Bool-cases, Option-cases, inl, inr,
}
use try_ops_try_on_mlops.Base.Dict.{Dict, lookup}
use try_ops_try_on_mlops.Base.Python.{Python}
use try_ops_try_on_mlops.Policy.Model.{Bounds, Policy, GateResult}
use try_ops_try_on_mlops.Policy.Gates.{
  failing, gate_of, pass, Candidate, check_guardrails, guardrail_tests, blocked_value,
}
use try_ops_try_on_mlops.Policy.Promotion.{
  check_model_artifacts, artifact_tests, is_below, is_above, metric_failures, all_metric_failures,
  metric_gates_of, check_metric_gates,
}
use try_ops_try_on_mlops.Policy.Conditions.{
  IfRequired, SafeGuardrails, SafeArtifacts, WithinBounds, Readable,
}
use try_ops_try_on_mlops.Policy.Tested.{failing-passes, is_empty-append, gate_of-passes}

module _ (py : Python) where
  pub guardrails-passes :
      (c : Candidate py) (p : Policy py.Float) (r : Readable py c)
      → (g : GateResult) × (check_guardrails py c p ≡ some g)
        × ((g.passed ≡ true)
            ↔ IfRequired py c p.guardrails.required_for_workloads
                (SafeGuardrails py c p r.failed_cases))
  unfolding check_guardrails
  guardrails-passes c p r =
      elim (Bool-cases (contains c.workload p.guardrails.required_for_workloads)) [
        | inr free ↦ (
          pass "guardrails not required for workload",
          rw (free, check_guardrails) refl,
          (λ h e. absurd (cc (e, free)), λ h. refl),
        )
        | inl required ↦
            let ts = guardrail_tests py c p r.failed_cases (blocked_value py c) r.blocked_text in
            let (to, from) = failing-passes ts "guardrail gate passed" in
            (
              gate_of (failing ts) "guardrail gate passed",
              rw (required, check_guardrails) (rw (r.failed_cases_eq, r.blocked_eq) refl),
              (
                λ h e.
                    let (a, (b, (n, (k, _)))) = to h in
                    record {
                      report = ground (arith, a);
                      verdict = ground (arith, b);
                      few_failures = ground (arith, n);
                      no_blocked_risk = k;
                    },
                λ h.
                    let s = h required in
                    from (
                      ground (arith, s.report),
                      (
                        ground (arith, s.verdict),
                        (ground (arith, s.few_failures), (s.no_blocked_risk, tt)),
                      ),
                    ),
              ),
            )
      ]

  pub artifacts-passes :
      (c : Candidate py) (p : Policy py.Float) (r : Readable py c)
      → (g : GateResult) × (check_model_artifacts py c p ≡ some g)
        × ((g.passed ≡ true)
            ↔ IfRequired py c p.model_artifacts.required_for_workloads
                (SafeArtifacts py c p r.unsafe_files r.safetensors))
  unfolding check_model_artifacts
  artifacts-passes c p r =
      elim (Bool-cases (contains c.workload p.model_artifacts.required_for_workloads)) [
        | inr free ↦ (
          pass "model artifact scan not required for workload",
          rw (free, check_model_artifacts) refl,
          (λ h e. absurd (cc (e, free)), λ h. refl),
        )
        | inl required ↦
            let ts = artifact_tests py c p r.unsafe_files r.safetensors r.rejected_text in
            let (to, from) = failing-passes ts "model artifact scan passed" in
            (
              gate_of (failing ts) "model artifact scan passed",
              rw (required, check_model_artifacts)
                  (rw (r.unsafe_files_eq, r.safetensors_eq, r.rejected_eq) refl),
              (
                λ h e.
                    let (a, (b, (d, (m, (n, (k, _)))))) = to h in
                    record {
                      scan = ground (arith, a);
                      serialization = ground (arith, b);
                      passed = ground (arith, d);
                      few_unsafe = ground (arith, m);
                      enough = ground (arith, n);
                      none_rejected = k;
                    },
                λ h.
                    let s = h required in
                    from (
                      ground (arith, s.scan),
                      (
                        ground (arith, s.serialization),
                        (
                          ground (arith, s.passed),
                          (
                            ground (arith, s.few_unsafe),
                            (ground (arith, s.enough), (s.none_rejected, tt)),
                          ),
                        ),
                      ),
                    ),
              ),
            )
      ]

  metric-passes :
      (c : Candidate py) (name : String) (b : Bounds py.Float)
      → (is_empty (metric_failures py c name b) ≡ true) ↔ WithinBounds py c (name, b)
  metric-passes c name b = elim (Option-cases (lookup name c.metrics)) [
    | inl gone ↦ rw gone (λ h. absurd (cc (h)), λ (v, e, _, _). absurd (cc (e)))
    | inr (v, there) ↦ rw there (
      λ h. (v, refl, ground (arith, h), ground (arith, h)),
      λ (w, e, low, high).
          let same : v ≡ w = cc (e) in
          let low' : is_below py v b.minimum ≡ false = rw same low in
          let high' : is_above py v b.maximum ≡ false = rw same high in
          ground (arith, there, low', high'),
    )
  ]

  metric_dict-passes :
      (c : Candidate py) (gates : Dict String (Bounds py.Float))
      → (is_empty (all_metric_failures py c gates) ≡ true) ↔ All (WithinBounds py c) gates
  metric_dict-passes c [] = (λ h. tt, λ h. refl)
  metric_dict-passes c ((name, b) ∷ gates) =
      let (here, back) = metric-passes c name b in
      let (rest, back') = metric_dict-passes c gates in
      let both = is_empty-append (metric_failures py c name b) (all_metric_failures py c gates) in
      (
        λ h. (here (ground (arith, both, h)), rest (ground (arith, both, h))),
        λ h. let e = back h.0 in let e' = back' h.1 in ground (arith, both, e, e'),
      )

  pub metrics-passes :
      (c : Candidate py) (p : Policy py.Float)
      → ((check_metric_gates py c p).passed ≡ true)
        ↔ All (WithinBounds py c) (metric_gates_of py c p)
  unfolding check_metric_gates
  metrics-passes c p =
      let fs = all_metric_failures py c (metric_gates_of py c p) in
      let (to, from) = gate_of-passes fs "metric gates passed" in
      let (dict, back) = metric_dict-passes c (metric_gates_of py c p) in
      (λ h. dict (to h), λ h. from (back h))
