-- ===== src/Guardrails/Findings.antt =====
-- src/tryops/guardrails.py: findings and the verdict on them. The text of a float, and of a dict, in a message
-- (`risk_text`, `dict_text`) and `json.dumps` of an entry of the control map are parameters.
use Prim.Native.String.{compare}
use text.Mathlib.Text.{is_lt}
use try_ops_try_on_mlops.Base.{
  ℕ, suc, String, string_eq, pair_eq, Bool, false, not, Option, List, [], ◌∷◌, map, keep, any,
  is_empty, length, if◌then◌else◌, ◌==◌,
}
use try_ops_try_on_mlops.Base.Dict
use try_ops_try_on_mlops.Base.Dict.{Dict, insert}
use try_ops_try_on_mlops.Base.Json
use try_ops_try_on_mlops.Base.Json.{
  Json, Fields, end, null, bool, num, str, arr, nil, obj, truthy, iterate, as_dict,
}
use try_ops_try_on_mlops.Base.Sets.{sorted_set}
use try_ops_try_on_mlops.Base.Sort.{sort_by}
use try_ops_try_on_mlops.Base.Unique.{first_by}
use try_ops_try_on_mlops.Guardrails.Redaction.{Replacement, RedactionResult, entity_text}

pub record Finding : Type 0 where
  pub check_id : String
  pub owasp_id : String
  pub risk : String
  pub stage : String
  pub action : String
  pub severity : String
  pub message : String

abbrev pub Key : Type 0
Key = String × (String × String)

abbrev pub finding_key : Finding → Key
finding_key f = (f.check_id, (f.owasp_id, f.stage))

unfoldable pub dedupe_findings : List Finding → List Finding
unfolding first_by
dedupe_findings findings = first_by finding_key [] findings

-- `Counter(...)` of texts
abbrev pub counter : List String → Dict String ℕ → Dict String ℕ
counter [] d = d
counter (s ∷ ss) d = counter ss (insert s (suc (Dict.get_or s 0 d)) d)

-- `dict(sorted(d.items()))`, whose keys differ
abbrev pub sorted_items : Dict String ℕ → Dict String ℕ
sorted_items d = sort_by (λ (a : String × ℕ) (b : String × ℕ). not (is_lt (compare b.0 a.0))) d

pub record PublicSummary : Type 0 where
  pub redacted : Bool
  pub entity_count : ℕ
  pub entity_counts : Dict String ℕ
  pub tokens : List Replacement

-- `RedactionResult.public_summary`
abbrev pub public_summary : RedactionResult → PublicSummary
public_summary result = record {
  redacted = not (is_empty result.replacements);
  entity_count = length result.replacements;
  entity_counts =
      sorted_items
        (counter (map (λ (r : Replacement). entity_text r.entity_type) result.replacements) []);
  tokens = result.replacements;
}

-- `_pii_findings`
abbrev pub pii_findings : RedactionResult → List Finding
pii_findings result =
    if is_empty result.replacements
    then []
    else record {
      check_id = "pii_ingress";
      owasp_id = "LLM02:2025";
      risk = "sensitive_information_disclosure";
      stage = "ingress";
      action = "redact";
      severity = "medium";
      message = "PII-like input detected and replaced with scoped placeholders";
    }
      ∷ []

pub record NativeEngine : Type 0 where
  pub schema_version : Json
  pub available : Bool
  pub source : Json
  pub engine : Option Json
  pub content_safety : Json

pub record Control : Type 0 where
  pub owasp_id : String
  pub risk : String
  pub control : String

pub record Verdict : Type 0 where
  pub stage : String
  pub blocked : Bool
  pub risk_ids : List String
  pub action_counts : Dict String ℕ
  pub findings : List Finding
  pub pii : PublicSummary
  pub native_engine : NativeEngine
  pub control_map : List Control

abbrev pub is_block : Finding → Bool
is_block f = f.action == "block"

abbrev pub controls : Dict (String × String) String
controls =
    (("LLM01:2025", "prompt_injection"), "input classifier blocks instruction-override attempts")
    ∷ (
      ("LLM02:2025", "sensitive_information_disclosure"),
      "PII redaction and secret-disclosure blocks",
    )
    ∷ (("LLM05:2025", "improper_output_handling"), "structured output schema validator")
    ∷ (("LLM06:2025", "excessive_agency"), "no external-tool agency boundary")
    ∷ (("LLM07:2025", "system_prompt_leakage"), "system/developer prompt leakage block")
    ∷ (("LLM10:2025", "unbounded_consumption"), "unbounded-output and max-token guard")
    ∷ (
      ("LLM04:2025", "unsafe_content"),
      "native content-safety gate flags abusive or toxic prompts",
    )
    ∷ []

abbrev pub control_of : Finding → Control
control_of f = record {
  owasp_id = f.owasp_id;
  risk = f.risk;
  control = Dict.get_or (f.owasp_id, f.risk) "deterministic runtime guardrail" controls;
}

-- the `native_engine` of a verdict; `engine` is `none` where the default stands
abbrev pub native_engine_of : Fields → NativeEngine
native_engine_of native = record {
  schema_version = Json.get_or "schema_version" (str "tryops.native_guardrail.v1") native;
  available = truthy (Json.get_or "available" (bool false) native);
  source = Json.get_or "source" (str "unknown") native;
  engine = Json.get "engine" native;
  content_safety = Json.get_or "content_safety" (obj end) native;
}

module _ (dumps : Control → String) where
  abbrev pub add_control : Control → List Control → List Control
  add_control c [] = c ∷ []
  add_control c (d ∷ ds) =
      let further = d ∷ add_control c ds in
      if dumps c == dumps d
      then d ∷ ds
      else if is_lt (compare (dumps c) (dumps d))
      then c ∷ d ∷ ds
      else further

  -- `_control_map`
  abbrev pub control_map_of : List Finding → List Control
  control_map_of [] = []
  control_map_of (f ∷ fs) = add_control (control_of f) (control_map_of fs)

  -- `_build_verdict`
  unfoldable pub build_verdict : String → List Finding → Fields → PublicSummary → Verdict
  unfolding sorted_set
  build_verdict stage findings native pii = record {
    stage = stage;
    blocked = any is_block findings;
    risk_ids = sorted_set (
        map (λ (f : Finding). f.owasp_id)
          (keep (λ (f : Finding). not (f.owasp_id == "unknown")) findings));
    action_counts = sorted_items (counter (map (λ (f : Finding). f.action) findings) []);
    findings = findings;
    pii = pii;
    native_engine = native_engine_of native;
    control_map = control_map_of findings;
  }
