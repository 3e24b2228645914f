-- ===== src/Policy/Decision.antt =====
-- `evaluate_promotion` decides what a promotion requires.
use try_ops_try_on_mlops.Base.{
  String, string_eq, Bool, true, false, not, ◌≡◌, ◌↔◌, refl, some, List, [], ◌∷◌, is_empty,
  contains, All, arith, Bool-cases, inl, inr,
}
use try_ops_try_on_mlops.Base.Dict.{has_key}
use try_ops_try_on_mlops.Base.Python.{Python}
use try_ops_try_on_mlops.Policy.Model.{Policy, GateResult, PromotionDecision}
use try_ops_try_on_mlops.Policy.Gates.{
  Candidate, has_artifact, single, check_known_workload, check_required_artifacts, check_approvals,
  check_risk_status, check_security, check_signature, check_model_provenance,
}
use try_ops_try_on_mlops.Policy.Promotion.{check_metric_gates, failures, decide, evaluate_promotion}
use try_ops_try_on_mlops.Policy.Conditions.{Readable, Promotable}
use try_ops_try_on_mlops.Policy.Tested.{
  none_missing-passes, approvals-passes, security-passes, statement-passes,
}
use try_ops_try_on_mlops.Policy.Passing.{guardrails-passes, artifacts-passes, metrics-passes}

single-passes :
    (failed : Bool) (text ok : String) → ((single failed text ok).passed ≡ true) ↔ (failed ≡ false)
single-passes true text ok = (λ h. absurd (cc (h)), λ h. absurd (cc (h)))
single-passes false text ok = (λ h. refl, λ h. refl)

no_failures :
    (gates : List GateResult)
    → (is_empty (failures gates) ≡ true) ↔ All (λ g. g.passed ≡ true) gates
no_failures [] = (λ h. tt, λ h. refl)
no_failures (g ∷ gates) = elim (Bool-cases g.passed) [
  | inl t ↦ rw t (λ h. (refl, (no_failures gates).0 h), λ h. (no_failures gates).1 h.1)
  | inr f ↦ rw f (λ h. absurd (cc (h)), λ h. absurd (let e = h.0 in cc (e)))
]

module _ (py : Python) where
  known-passes :
      (c : Candidate py) (p : Policy py.Float)
      → ((check_known_workload py c p).passed ≡ true) ↔ (has_key c.workload p.metric_gates ≡ true)
  unfolding check_known_workload
  known-passes c p =
      let (to, from) = single-passes (not (has_key c.workload p.metric_gates)) _ "known workload" in
      (λ h. let f = to h in ground (arith, f), λ h. from (ground (arith, h)))

  risk-passes :
      (c : Candidate py) (p : Policy py.Float)
      → ((check_risk_status py c p).passed ≡ true)
        ↔ (contains c.risk_status p.accepted_risk_statuses ≡ true)
  unfolding check_risk_status
  risk-passes c p =
      let (to, from) =
        single-passes (not (contains c.risk_status p.accepted_risk_statuses)) _ "risk accepted" in
      (λ h. let f = to h in ground (arith, f), λ h. from (ground (arith, h)))

  signature-passes : (c : Candidate py) → ((check_signature py c).passed ≡ true) ↔ (c.signed ≡ true)
  unfolding check_signature
  signature-passes c =
      let (to, from) = single-passes (not c.signed) _ "candidate artifact signed" in
      (λ h. let f = to h in ground (arith, f), λ h. from (ground (arith, h)))

  artifacts_present-passes :
      (c : Candidate py) (p : Policy py.Float)
      → ((check_required_artifacts py c p).passed ≡ true)
        ↔ All (λ n. has_artifact py c n ≡ true) p.required_artifacts
  unfolding check_required_artifacts
  artifacts_present-passes c p =
      none_missing-passes (has_artifact py c) p.required_artifacts "missing required artifacts: "
        "required artifacts present"

  -- A candidate whose numbers can be read gets a decision. It is approved exactly if it has everything that
  -- a promotion requires.
  pub evaluate_promotion-Promotable :
      (c : Candidate py) (stage : String) (p : Policy py.Float) (r : Readable py c)
      → (d : PromotionDecision) × (evaluate_promotion py c stage p ≡ some d)
        × ((d.approved ≡ true) ↔ Promotable py c stage p r)
  unfolding evaluate_promotion decide
  evaluate_promotion-Promotable c stage p r =
      let (g, g_eq, g_iff) = guardrails-passes py c p r in
      let (a, a_eq, a_iff) = artifacts-passes py c p r in
      let gates =
        check_known_workload py c p
        ∷ check_required_artifacts py c p
        ∷ check_approvals py c stage p
        ∷ check_risk_status py c p
        ∷ check_security py c p
        ∷ check_signature py c
        ∷ check_model_provenance py c p
        ∷ g
        ∷ a
        ∷ check_metric_gates py c p
        ∷ [] in
      let (to, from) = no_failures gates in
      (
        decide py c stage gates,
        rw (g_eq, a_eq) refl,
        (
          λ h.
              let (k1, (k2, (k3, (k4, (k5, (k6, (k7, (k8, (k9, (k10, _)))))))))) = to h in
              let s = (security-passes py c p).0 k5 in
              record {
                known = (known-passes c p).0 k1;
                evidence = (artifacts_present-passes c p).0 k2;
                approvals = (approvals-passes py c stage p).0 k3;
                risk = (risk-passes c p).0 k4;
                critical = s.0;
                high = s.1;
                signed = (signature-passes c).0 k6;
                provenance = (statement-passes py c p).0 k7;
                guardrails = g_iff.0 k8;
                artifacts = a_iff.0 k9;
                metrics = (metrics-passes py c p).0 k10;
              },
          λ q. from (
            (known-passes c p).1 q.known,
            (
              (artifacts_present-passes c p).1 q.evidence,
              (
                (approvals-passes py c stage p).1 q.approvals,
                (
                  (risk-passes c p).1 q.risk,
                  (
                    (security-passes py c p).1 (q.critical, q.high),
                    (
                      (signature-passes c).1 q.signed,
                      (
                        (statement-passes py c p).1 q.provenance,
                        (
                          g_iff.1 q.guardrails,
                          (a_iff.1 q.artifacts, ((metrics-passes py c p).1 q.metrics, tt)),
                        ),
                      ),
                    ),
                  ),
                ),
              ),
            ),
          ),
        ),
      )
