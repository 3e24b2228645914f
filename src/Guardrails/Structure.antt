-- ===== src/Guardrails/Structure.antt =====
-- src/tryops/guardrails.py: `validate_structured_output` on the fields of a generation.
use try_ops_try_on_mlops.Base.{
  String, string_eq, Bool, true, false, not, Option, none, some, List, [], ◌∷◌, ◌++◌, keep, all,
  is_empty, if◌then◌else◌, ◌==◌,
}
use try_ops_try_on_mlops.Base.Json
use try_ops_try_on_mlops.Base.Json.{
  Json, Items, Fields, end, null, bool, num, str, arr, obj, nil, cons, elements,
}
use try_ops_try_on_mlops.Base.Sets.{sorted_set}
use try_ops_try_on_mlops.Base.Text.{strip, concat, join}
use try_ops_try_on_mlops.Guardrails.Findings.{Finding}

-- `isinstance(v, str) and v.strip()`
abbrev pub is_filled : Json → Bool
is_filled (str s) = not (strip s == "")
is_filled _ = false

-- the test of `intent`
abbrev pub intent_passes : Fields → Bool
intent_passes answer = is_filled (Json.get_or "intent" null answer)

-- the test of `points`, where there are any
abbrev pub points_pass : Option Json → Bool
points_pass none = true
points_pass (some (arr items)) = all is_filled (elements items)
points_pass (some _) = false

abbrev pub unsafe_names : List String
unsafe_names = "system_prompt" ∷ "developer_message" ∷ "api_key" ∷ "password" ∷ "secret" ∷ []

-- `key in answer`
abbrev pub has_field : String → Fields → Bool
has_field key answer = elim (Json.get key answer) [ none ↦ false | some v ↦ true ]

abbrev pub unsafe_keys : Fields → List String
unsafe_keys answer = sorted_set (keep (λ key. has_field key answer) unsafe_names)

abbrev pub answer_failures : Fields → List String
answer_failures answer =
    (if intent_passes answer then [] else "intent must be a non-empty string" ∷ [])
    ++ ((if points_pass (Json.get "points" answer)
          then []
          else "points must be a list of non-empty strings" ∷ [])
        ++ (if is_empty (unsafe_keys answer)
            then []
            else concat ("unsafe structured keys present: " ∷ join ", " (unsafe_keys answer) ∷ [])
              ∷ []))

abbrev pub structure_finding : String → String → String → Finding
structure_finding action severity message = record {
  check_id = "structured_output_schema";
  owasp_id = "LLM05:2025";
  risk = "improper_output_handling";
  stage = "egress";
  action = action;
  severity = severity;
  message = message;
}

abbrev pub judge : List String → List Finding
judge failures =
    if is_empty failures
    then structure_finding "allow" "info" "structured output schema passed" ∷ []
    else structure_finding "block" "high" (join "; " failures) ∷ []

abbrev pub validate_answer : Option Json → List Finding
validate_answer (some (obj answer)) = judge (answer_failures answer)
validate_answer _ =
    structure_finding "block" "high" "structured output is missing or not an object" ∷ []

unfoldable pub validate_structured_output : Fields → Bool → List Finding
validate_structured_output generation structured =
    if structured then validate_answer (Json.get "structured_answer" generation) else []
