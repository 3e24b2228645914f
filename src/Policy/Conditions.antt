-- ===== src/Policy/Conditions.antt =====
-- What a promotion requires, said without the gates.
use try_ops_try_on_mlops.Base.{String, string_eq, true, false, ◌≡◌, some, List, contains, All, ◌==◌}
use try_ops_try_on_mlops.Base.Int.{ℤ, pos, ◌≤ℤ◌}
use try_ops_try_on_mlops.Base.Dict.{lookup, get_or, has_key}
use try_ops_try_on_mlops.Base.Json
use try_ops_try_on_mlops.Base.Json.{Json, bool, truthy}
use try_ops_try_on_mlops.Base.Text.{strip}
use try_ops_try_on_mlops.Base.Python.{Python}
use try_ops_try_on_mlops.Policy.Model.{Bounds, Policy}
use try_ops_try_on_mlops.Policy.Gates.{
  Candidate, has_artifact, section, setting, int_or_zero, listing, failed_cases_value,
  blocked_value, metadata_bool, provenance_text, provenance_status,
}
use try_ops_try_on_mlops.Policy.Promotion.{
  unsafe_value, safetensors_value, rejected_value, observed_policy, scan_status, is_below, is_above,
  metric_gates_of,
}

module _ (py : Python) where
  -- A gate that applies to some workloads only.
  abbrev pub IfRequired : Candidate py → List String → Type 0 → Type 0
  IfRequired c workloads P = contains c.workload workloads ≡ true → P

  pub record SafeGuardrails (c : Candidate py) (p : Policy py.Float) (failed_cases : ℤ)
      : Type 0 where
    pub report : has_artifact py c p.guardrails.required_artifact ≡ true
    pub verdict :
        contains
          (py.json_text
            (setting py c "guardrails" "status" "guardrail_verdict" (Json.str "missing")))
          p.guardrails.accepted_verdicts
        ≡ true
    pub few_failures : failed_cases ≤ℤ p.guardrails.max_failed_cases
    pub no_blocked_risk : truthy (blocked_value py c) ≡ false

  pub record Provenance (c : Candidate py) (p : Policy py.Float) : Type 0 where
    pub statement : has_artifact py c p.model_provenance.required_artifact ≡ true
    pub status : contains (provenance_status py c) p.model_provenance.accepted_statuses ≡ true
    pub statement_type :
        (provenance_text py c "statement_type" "missing" == p.model_provenance.statement_type)
        ≡ true
    pub predicate_type :
        (provenance_text py c "predicate_type" "missing" == p.model_provenance.predicate_type)
        ≡ true
    pub mode :
        contains
          (provenance_text py c "signature_mode" "missing")
          p.model_provenance.accepted_signature_modes
        ≡ true
    pub signer : (strip (provenance_text py c "signer_identity" "") == "") ≡ false
    pub verified :
        metadata_bool py (Json.get_or "verified" (bool false) (section py c "model_provenance"))
        ≡ true

  pub record SafeArtifacts (c : Candidate py) (p : Policy py.Float) (unsafe_files safetensors : ℤ)
      : Type 0 where
    pub scan : has_artifact py c p.model_artifacts.required_artifact ≡ true
    pub serialization : (observed_policy py c == p.model_artifacts.serialization_policy) ≡ true
    pub passed : (scan_status py c == "passed") ≡ true
    pub few_unsafe : unsafe_files ≤ℤ p.model_artifacts.max_unsafe_files
    pub enough : p.model_artifacts.min_safetensors_files ≤ℤ safetensors
    pub none_rejected : truthy (rejected_value py c) ≡ false

  -- The candidate has the metric, and it lies within the bounds.
  abbrev pub WithinBounds : Candidate py → String × Bounds py.Float → Type 0
  WithinBounds c (name, b) =
      (v : py.Float) × (lookup name c.metrics ≡ some v)
      × (is_below py v b.minimum ≡ false)
      × (is_above py v b.maximum ≡ false)

  -- The numbers that the gates parse, and that the lists which they go through are iterable.
  pub record Readable (c : Candidate py) : Type 0 where
    pub failed_cases : ℤ
    pub unsafe_files : ℤ
    pub safetensors : ℤ
    pub blocked_text : String
    pub rejected_text : String
    pub failed_cases_eq : int_or_zero py (failed_cases_value py c) ≡ some failed_cases
    pub unsafe_files_eq : int_or_zero py (unsafe_value py c) ≡ some unsafe_files
    pub safetensors_eq : int_or_zero py (safetensors_value py c) ≡ some safetensors
    pub blocked_eq : listing py "guardrail blocked risks: " (blocked_value py c) ≡ some blocked_text
    pub rejected_eq :
        listing py "rejected model artifact extensions: " (rejected_value py c) ≡ some rejected_text

  pub record Promotable (c : Candidate py) (stage : String) (p : Policy py.Float) (r : Readable c)
      : Type 0 where
    pub known : has_key c.workload p.metric_gates ≡ true
    pub evidence : All (λ n. has_artifact py c n ≡ true) p.required_artifacts
    pub approvals :
        (required : List String) × (lookup stage p.required_approvals ≡ some required)
        × All (λ a. contains a c.approvals ≡ true) required
    pub risk : contains c.risk_status p.accepted_risk_statuses ≡ true
    pub critical :
        get_or "critical" (pos 0) c.vulnerabilities ≤ℤ p.security.max_critical_vulnerabilities
    pub high : get_or "high" (pos 0) c.vulnerabilities ≤ℤ p.security.max_high_vulnerabilities
    pub signed : c.signed ≡ true
    pub provenance : IfRequired c p.model_provenance.required_for_workloads (Provenance c p)
    pub guardrails :
        IfRequired c p.guardrails.required_for_workloads (SafeGuardrails c p r.failed_cases)
    pub artifacts :
        IfRequired c p.model_artifacts.required_for_workloads
          (SafeArtifacts c p r.unsafe_files r.safetensors)
    pub metrics : All (WithinBounds c) (metric_gates_of py c p)
