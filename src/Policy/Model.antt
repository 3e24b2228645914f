-- ===== src/Policy/Model.antt =====
-- src/tryops/contracts.py and src/tryops/policy.py: a candidate, a policy with the sections of
-- `DEFAULT_POLICY`, and a decision. The type of Python's floats is a parameter.
use try_ops_try_on_mlops.Base.{String, Bool, Option, List}
use try_ops_try_on_mlops.Base.Int.{ℤ}
use try_ops_try_on_mlops.Base.Dict.{Dict}
use try_ops_try_on_mlops.Base.Json.{Fields}

pub record ModelCandidate (Float : Type 0) : Type 0 where
  pub candidate_id : String
  pub workload : String
  pub model_name : String
  pub model_version : String
  pub metrics : Dict String Float
  pub artifacts : Dict String String
  pub approvals : List String
  pub risk_status : String
  pub vulnerabilities : Dict String ℤ
  pub signed : Bool
  pub metadata : Fields

-- A bound of a metric is its value as a float and its text in the policy.
pub record Bounds (Float : Type 0) : Type 0 where
  pub minimum : Option (Float × String)
  pub maximum : Option (Float × String)

pub record SecurityPolicy : Type 0 where
  pub max_critical_vulnerabilities : ℤ
  pub max_high_vulnerabilities : ℤ

pub record GuardrailPolicy : Type 0 where
  pub required_for_workloads : List String
  pub required_artifact : String
  pub accepted_verdicts : List String
  pub max_failed_cases : ℤ

pub record ArtifactPolicy : Type 0 where
  pub required_for_workloads : List String
  pub required_artifact : String
  pub serialization_policy : String
  pub max_unsafe_files : ℤ
  pub min_safetensors_files : ℤ

pub record ProvenancePolicy : Type 0 where
  pub required_for_workloads : List String
  pub required_artifact : String
  pub accepted_statuses : List String
  pub statement_type : String
  pub predicate_type : String
  pub accepted_signature_modes : List String

pub record Policy (Float : Type 0) : Type 0 where
  pub required_artifacts : List String
  pub required_approvals : Dict String (List String)
  pub accepted_risk_statuses : List String
  pub security : SecurityPolicy
  pub guardrails : GuardrailPolicy
  pub model_artifacts : ArtifactPolicy
  pub model_provenance : ProvenancePolicy
  pub metric_gates : Dict String (Dict String (Bounds Float))

pub record GateResult : Type 0 where
  pub passed : Bool
  pub message : String

pub record PromotionDecision : Type 0 where
  pub approved : Bool
  pub target_stage : String
  pub reasons : List String
  pub warnings : List String
