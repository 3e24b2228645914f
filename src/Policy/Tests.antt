-- ===== src/Policy/Tests.antt =====
-- The gates at a concrete candidate. A float is a number of thousandths.
use try_ops_try_on_mlops.Base.{
  ℕ, String, string_eq, true, ◌≡◌, ◌↔◌, refl, Option, none, some, [], ◌∷◌, ltb,
}
use try_ops_try_on_mlops.Base.Int.{ℤ, pos}
use try_ops_try_on_mlops.Base.Json.{Json, str, num, obj, end, field}
use try_ops_try_on_mlops.Base.Python.{Python}
use try_ops_try_on_mlops.Policy.Model.{ModelCandidate, Bounds, Policy, PromotionDecision}
use try_ops_try_on_mlops.Policy.Promotion.{evaluate_promotion}
use try_ops_try_on_mlops.Policy.Conditions.{Readable, Promotable}
use try_ops_try_on_mlops.Policy.Decision.{evaluate_promotion-Promotable}

abbrev text_of : Json → String
text_of (str s) = s
text_of _ = "?"

abbrev int_of : Json → Option ℤ
int_of (num n) = some n
int_of _ = none

abbrev python : Python
python = record {
  Float = ℕ;
  float_lt = ltb;
  float_text = λ n. "?";
  json_text = text_of;
  json_int = int_of;
  lower = λ s. s;
}

abbrev at_least : ℕ → Bounds ℕ
at_least n = record { minimum = some (n, "?"); maximum = none }

abbrev policy : Policy ℕ
policy = record {
  required_artifacts = "model_card" ∷ "sbom" ∷ [];
  required_approvals = ("champion", "mlops_owner" ∷ "risk_owner" ∷ []) ∷ [];
  accepted_risk_statuses = "low" ∷ "medium_approved" ∷ [];
  security = record { max_critical_vulnerabilities = pos 0; max_high_vulnerabilities = pos 0 };
  guardrails = record {
    required_for_workloads = "llm" ∷ [];
    required_artifact = "guardrail_report";
    accepted_verdicts = "passed" ∷ [];
    max_failed_cases = pos 0;
  };
  model_artifacts = record {
    required_for_workloads = "vton" ∷ "llm" ∷ [];
    required_artifact = "model_artifact_scan";
    serialization_policy = "safetensors_only";
    max_unsafe_files = pos 0;
    min_safetensors_files = pos 1;
  };
  model_provenance = record {
    required_for_workloads = "vton" ∷ "llm" ∷ [];
    required_artifact = "model_provenance";
    accepted_statuses = "passed" ∷ [];
    statement_type = "https://in-toto.io/Statement/v1";
    predicate_type = "https://slsa.dev/provenance/v1";
    accepted_signature_modes = "local-dsse-digest" ∷ [];
  };
  metric_gates = ("vton", ("garment_fidelity", at_least 720) ∷ []) ∷ [];
}

abbrev candidate : ModelCandidate ℕ
candidate = record {
  candidate_id = "vton-1";
  workload = "vton";
  model_name = "fashn";
  model_version = "1";
  metrics = ("garment_fidelity", 800) ∷ [];
  artifacts =
      ("model_card", "a.md")
      ∷ ("sbom", "s.json")
      ∷ ("model_artifact_scan", "m.json")
      ∷ ("model_provenance", "p.json")
      ∷ [];
  approvals = "mlops_owner" ∷ "risk_owner" ∷ [];
  risk_status = "low";
  vulnerabilities = [];
  signed = true;
  metadata =
      field "model_artifacts"
        (obj (field "scan_status" (str "passed") (field "safetensors_files" (num (pos 2)) end)))
        end;
}

abbrev candidate_readable : Readable python candidate
candidate_readable = record {
  failed_cases = pos 0;
  unsafe_files = pos 0;
  safetensors = pos 2;
  blocked_text = "";
  rejected_text = "";
  failed_cases_eq = refl;
  unsafe_files_eq = refl;
  safetensors_eq = refl;
  blocked_eq = refl;
  rejected_eq = refl;
}

evaluate_promotion-Promotable_example :
    (d : PromotionDecision) × (evaluate_promotion python candidate "champion" policy ≡ some d)
    × ((d.approved ≡ true) ↔ Promotable python candidate "champion" policy candidate_readable)
evaluate_promotion-Promotable_example =
    evaluate_promotion-Promotable python candidate "champion" policy candidate_readable
