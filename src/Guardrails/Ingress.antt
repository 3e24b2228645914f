-- ===== src/Guardrails/Ingress.antt =====
-- src/tryops/guardrails.py: `evaluate_ingress_guardrails` and `merge_guardrail_verdicts`. What the native guardrail
-- and the native content-safety engine answer are arguments.
use try_ops_try_on_mlops.Base.{
  ℕ, String, string_eq, Bool, Option, List, [], ◌∷◌, ◌++◌, if◌then◌else◌, ◌==◌,
}
use try_ops_try_on_mlops.Base.Int.{pos, ltb_ℤ}
use try_ops_try_on_mlops.Base.Json
use try_ops_try_on_mlops.Base.Json.{
  Json, Fields, end, null, bool, num, str, arr, nil, obj, truthy, iterate, as_dict, setdefault,
}
use try_ops_try_on_mlops.Base.Python.{Python}
use try_ops_try_on_mlops.Base.Result.{Result, ok, ◌>>=◌, or_raise}
use try_ops_try_on_mlops.Base.Text.{concat}
use try_ops_try_on_mlops.Guardrails.Redaction.{RedactionResult, redact_pii, EntityType}
use try_ops_try_on_mlops.Guardrails.Findings.{
  Finding, Verdict, Control, dedupe_findings, pii_findings, public_summary, build_verdict,
}

-- what Python renders of a risk score (`{float(x or 0.0):.4f}`, `none` where `float` raises) and of a sorted dict
pub record Rendering : Type 0 where
  pub risk_text : Json → Option String
  pub dict_text : Fields → String

pub record Ingress : Type 0 where
  pub prompt_for_generation : String
  pub redaction : RedactionResult
  pub verdict : Verdict

-- `d[key] = v` of a JSON dict
abbrev pub set_field : String → Json → Fields → Fields
set_field k v end = Json.field k v end
set_field k v (Json.field j w d) =
    if j == k then Json.field j v d else Json.field j w (set_field k v d)

abbrev pub safety_finding : Bool → String × String → String → Finding
safety_finding blocks risk message = record {
  check_id = "native_content_safety";
  owasp_id = risk.0;
  risk = risk.1;
  stage = "ingress";
  action = if blocks then "block" else "review";
  severity = if blocks then "high" else "medium";
  message = message;
}

-- `_content_safety_summary`
abbrev pub content_safety_summary : Fields → Fields
content_safety_summary report = Json.field "schema_version" (str "tryops.native_safety.report.v1") (
    Json.field "available" (bool (Json.is_str "native" (Json.get_or "engine" null report))) (
      Json.field "source" (Json.get_or "engine" (str "unknown") report) (
        Json.field "verdict" (Json.get_or "verdict" (str "allow") report) (
          Json.field "risk_score" (Json.get_or "risk_score" (num (pos 0)) report) (
            Json.field "injection_hits" (Json.get_or "injection_hits" (num (pos 0)) report) (
              Json.field "exfiltration_hits" (Json.get_or "exfiltration_hits" (num (pos 0)) report)
                (Json.field "toxicity_hits" (Json.get_or "toxicity_hits" (num (pos 0)) report)
                  (Json.field "categories" (Json.get_or "categories" (obj end) report) end))))))))

module _ (py : Python) where
  abbrev pub text_at_or : String → String → Fields → String
  text_at_or key default d = py.json_text (Json.get_or key (str default) d)

  -- the body of the loop of `_native_findings`
  abbrev pub native_finding : String → Json → List Finding
  native_finding stage (obj item) =
      let item_stage = text_at_or "stage" stage item in
      if item_stage == stage
      then record {
        check_id = text_at_or "check_id" "native_guardrail" item;
        owasp_id = text_at_or "owasp_id" "unknown" item;
        risk = text_at_or "risk" "unknown" item;
        stage = item_stage;
        action = text_at_or "action" "review" item;
        severity = text_at_or "severity" "medium" item;
        message = text_at_or "message" "native guardrail finding" item;
      }
        ∷ []
      else []
  native_finding stage _ = []

  abbrev pub native_findings_of : String → List Json → List Finding
  native_findings_of stage [] = []
  native_findings_of stage (item ∷ items) =
      native_finding stage item ++ native_findings_of stage items

  -- `_native_findings`
  unfoldable pub native_findings : Fields → String → Result (List Finding)
  native_findings native stage = do
    items ← or_raise (iterate (Json.get_or "findings" (arr nil) native)) "object is not iterable"
    ok (native_findings_of stage items)

  -- `int(report.get(key, 0) or 0) > 0`
  abbrev pub has_hits : String → Fields → Result Bool
  has_hits key report =
      let v = Json.get_or key (num (pos 0)) report in
      or_raise (py.json_int (if truthy v then v else num (pos 0))) "invalid literal for int()"
      >>= λ n. ok (ltb_ℤ (pos 0) n)

  -- `owasp_id` and `risk` of a finding of the content-safety engine
  abbrev pub safety_risk : Fields → Result (String × String)
  safety_risk report = has_hits "exfiltration_hits" report >>= λ exfiltrates.
      if exfiltrates
      then ok ("LLM07:2025", "system_prompt_leakage")
      else has_hits "injection_hits" report >>= λ injects.
          ok (
            if injects
            then ("LLM01:2025", "prompt_injection")
            else ("LLM04:2025", "unsafe_content"))

  module _ (rendering : Rendering) where
    abbrev pub safety_message : Fields → Bool → Result String
    safety_message report blocks = do
      risk ←
          or_raise (rendering.risk_text (Json.get_or "risk_score" null report))
            "could not convert to float"
      ok (
          concat (
            "native content-safety gate "
            ∷ (if blocks then "blocked" else "flagged")
            ∷ " prompt with risk_score="
            ∷ risk
            ∷ " categories="
            ∷ rendering.dict_text (as_dict (Json.get_or "categories" (obj end) report))
            ∷ []))

    -- `_native_safety_findings` of a report that does not allow the prompt
    abbrev pub flagged : Fields → Bool → Result (List Finding)
    flagged report blocks = do
      risk ← safety_risk report
      message ← safety_message report blocks
      ok (safety_finding blocks risk message ∷ [])

    -- `_native_safety_findings`
    unfoldable pub native_safety_findings : Fields → Result (List Finding)
    native_safety_findings report =
        let verdict = text_at_or "verdict" "allow" report in
        if verdict == "allow" then ok [] else flagged report (verdict == "block")

    module _ (finditer : EntityType → String → List (ℕ × ℕ)) (dumps : Control → String) where
      -- `native` and `safety` are the answers of `run_native_guardrail` and `evaluate_with_native_safety`
      unfoldable pub evaluate_ingress_guardrails : String → Fields → Fields → Result Ingress
      unfolding redact_pii build_verdict dedupe_findings native_findings native_safety_findings
      evaluate_ingress_guardrails prompt native safety = do
        let redaction = redact_pii finditer py prompt
        let native_safe = set_field "content_safety" (obj (content_safety_summary safety)) native
        of_native ← native_findings native_safe "ingress"
        of_safety ← native_safety_findings safety
        ok (record {
          prompt_for_generation = redaction.redacted_text;
          redaction = redaction;
          verdict =
              build_verdict dumps "ingress"
                (dedupe_findings (pii_findings redaction ++ (of_native ++ of_safety))) native_safe
                (public_summary redaction);
        })
