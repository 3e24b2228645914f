-- ===== src/Policy/Promotion.antt =====
-- src/tryops/policy.py: the gates on the scan of the artifacts and on the metrics, the warnings, and
-- `evaluate_promotion`.
use try_ops_try_on_mlops.Base.{
  String, string_eq, Bool, false, not, Option, none, some, List, [], ◌∷◌, ◌++◌, map, keep, is_empty,
  contains, if◌then◌else◌, ◌==◌, on,
}
use try_ops_try_on_mlops.Base.Int.{ℤ, pos, ltb_ℤ}
use try_ops_try_on_mlops.Base.Dict.{Dict, lookup}
use try_ops_try_on_mlops.Base.Json
use try_ops_try_on_mlops.Base.Json.{Json, null, num, str, arr, nil, truthy}
use try_ops_try_on_mlops.Base.Text.{concat}
use try_ops_try_on_mlops.Base.Python.{Python}
use try_ops_try_on_mlops.Policy.Model.{Bounds, Policy, GateResult, PromotionDecision}
use try_ops_try_on_mlops.Policy.Gates.{
  failing, gate_of, pass, Candidate, has_artifact, setting, int_or_zero, listing, compared,
  check_known_workload, check_required_artifacts, check_approvals, check_risk_status,
  check_security, check_signature, check_guardrails, check_model_provenance,
}

-- The values of a list display whose parts can raise.
abbrev pub sequence {ℓ} : {A : Type ℓ} → List (Option A) → Option (List A)
sequence [] = some []
sequence (none ∷ os) = none
sequence (some a ∷ os) = on (λ as'. a ∷ as') (sequence os)

abbrev pub failures : List GateResult → List String
failures gates = map (λ g. g.message) (keep (λ g. not g.passed) gates)

module _ (py : Python) where
  abbrev pub unsafe_value : Candidate py → Json
  unsafe_value c =
      setting py c "model_artifacts" "unsafe_file_count" "model_artifact_unsafe_file_count"
        (num (pos 0))

  abbrev pub safetensors_value : Candidate py → Json
  safetensors_value c =
      setting py c "model_artifacts" "safetensors_files" "model_artifact_safetensors_files"
        (num (pos 0))

  abbrev pub rejected_value : Candidate py → Json
  rejected_value c =
      setting py c "model_artifacts" "rejected_extensions" "model_artifact_rejected_extensions"
        (arr nil)

  abbrev pub observed_policy : Candidate py → String
  observed_policy c = py.json_text (
      setting py c "model_artifacts" "serialization_policy" "model_artifact_policy" (str "missing"))

  abbrev pub scan_status : Candidate py → String
  scan_status c =
      py.json_text
        (setting py c "model_artifacts" "scan_status" "model_artifact_scan_status" (str "missing"))

  abbrev pub artifact_tests : Candidate py → Policy py.Float → ℤ → ℤ → String → List (Bool × String)
  artifact_tests c p unsafe_files safetensors text =
      let q = p.model_artifacts in
      (
        not (has_artifact py c q.required_artifact),
        concat ("missing required model artifact scan: " ∷ q.required_artifact ∷ []),
      )
      ∷ (
        not (observed_policy c == q.serialization_policy),
        concat (
            "model artifact policy '"
            ∷ observed_policy c
            ∷ "' != '"
            ∷ q.serialization_policy
            ∷ "'"
            ∷ []),
      )
      ∷ (
        not (scan_status c == "passed"),
        concat ("model artifact scan status '" ∷ scan_status c ∷ "' is not passed" ∷ []),
      )
      ∷ (
        ltb_ℤ q.max_unsafe_files unsafe_files,
        compared py "unsafe model artifact files" unsafe_files " > " q.max_unsafe_files,
      )
      ∷ (
        ltb_ℤ safetensors q.min_safetensors_files,
        compared py "safetensors files" safetensors " < " q.min_safetensors_files,
      )
      ∷ (truthy (rejected_value c), text)
      ∷ []

  abbrev pub with_three {ℓ} :
      {A : Type ℓ} → Option ℤ → Option ℤ → Option String → (ℤ → ℤ → String → A) → Option A
  with_three (some m) (some n) (some s) f = some (f m n s)
  with_three _ _ _ f = none

  unfoldable pub check_model_artifacts : Candidate py → Policy py.Float → Option GateResult
  check_model_artifacts c p =
      if contains c.workload p.model_artifacts.required_for_workloads
      then with_three (int_or_zero py (unsafe_value c)) (int_or_zero py (safetensors_value c))
          (listing py "rejected model artifact extensions: " (rejected_value c))
          (λ m n text. gate_of (failing (artifact_tests c p m n text)) "model artifact scan passed")
      else some (pass "model artifact scan not required for workload")

  abbrev pub is_below : py.Float → Option (py.Float × String) → Bool
  is_below v none = false
  is_below v (some b) = py.float_lt v b.0

  abbrev pub is_above : py.Float → Option (py.Float × String) → Bool
  is_above v none = false
  is_above v (some b) = py.float_lt b.0 v

  abbrev bound_text : Option (py.Float × String) → String
  bound_text none = ""
  bound_text (some b) = b.1

  -- one round of the loop over the gates
  abbrev pub metric_failures : Candidate py → String → Bounds py.Float → List String
  metric_failures c name b = elim (lookup name c.metrics) [
    | none ↦ concat ("missing metric '" ∷ name ∷ "'" ∷ []) ∷ []
    | some v ↦ failing (
        (
          is_below v b.minimum,
          concat (name ∷ " " ∷ py.float_text v ∷ " < " ∷ bound_text b.minimum ∷ []),
        )
        ∷ (
          is_above v b.maximum,
          concat (name ∷ " " ∷ py.float_text v ∷ " > " ∷ bound_text b.maximum ∷ []),
        )
        ∷ [])
  ]

  abbrev pub all_metric_failures : Candidate py → Dict String (Bounds py.Float) → List String
  all_metric_failures c [] = []
  all_metric_failures c ((name, b) ∷ gates) =
      metric_failures c name b ++ all_metric_failures c gates

  -- `policy["metric_gates"].get(workload, {})`
  abbrev pub metric_gates_of : Candidate py → Policy py.Float → Dict String (Bounds py.Float)
  metric_gates_of c p = elim (lookup c.workload p.metric_gates) [ none ↦ [] | some g ↦ g ]

  unfoldable pub check_metric_gates : Candidate py → Policy py.Float → GateResult
  check_metric_gates c p =
      gate_of (all_metric_failures c (metric_gates_of c p)) "metric gates passed"

  abbrev pub lacks : Candidate py → String → Bool
  lacks c key = not (truthy (Json.get_or key null c.metadata))

  unfoldable pub collect_warnings : Candidate py → List String
  collect_warnings c = failing (
      (lacks c "code_version", "code_version metadata is missing")
      ∷ (lacks c "dataset_version", "dataset_version metadata is missing")
      ∷ (lacks c "pipeline_run_id", "pipeline_run_id metadata is missing")
      ∷ [])

  abbrev pub gate_results : Candidate py → String → Policy py.Float → Option (List GateResult)
  gate_results c stage p = sequence (
      some (check_known_workload py c p)
      ∷ some (check_required_artifacts py c p)
      ∷ some (check_approvals py c stage p)
      ∷ some (check_risk_status py c p)
      ∷ some (check_security py c p)
      ∷ some (check_signature py c)
      ∷ some (check_model_provenance py c p)
      ∷ check_guardrails py c p
      ∷ check_model_artifacts c p
      ∷ some (check_metric_gates c p)
      ∷ [])

  unfoldable pub decide : Candidate py → String → List GateResult → PromotionDecision
  decide c stage gates =
      let found : List String = failures gates in
      record {
        approved = is_empty found;
        target_stage = stage;
        reasons = if is_empty found then "all promotion gates passed" ∷ [] else found;
        warnings = collect_warnings c;
      }

  -- `none` stands for the exception of a gate.
  unfoldable pub evaluate_promotion :
      Candidate py → String → Policy py.Float → Option PromotionDecision
  evaluate_promotion c stage p = on (decide c stage) (gate_results c stage p)
