-- ===== src/Guardrails/Tests.antt =====
-- The guardrails at a short prompt. An email address stands at the fourth character of a text that is long enough,
-- and a pattern for numbers finds a part of it.
use Prim.Native.String.{count}
use text.Mathlib.TextEquality.{eq_iff}
use try_ops_try_on_mlops.Base.{
  ◌==◌, false, ◌||◌, ℕ, ◌<◌, leb, ltb, nat_eq, String, string_eq, true, false, ◌≡◌, ◌↔◌, refl, inl,
  inr, Option, none, some, List, [], ◌∷◌, All, if◌then◌else◌, Bool-cases, arith, any, ◌++◌,
}
use try_ops_try_on_mlops.Base.Int.{ℤ}
use try_ops_try_on_mlops.Base.Json
use try_ops_try_on_mlops.Base.Json.{Json, Fields, end, field, str, num, arr, obj, cons, nil}
use try_ops_try_on_mlops.Base.Python.{Python}
use try_ops_try_on_mlops.Base.Sets.{sorted_set}
use try_ops_try_on_mlops.Base.Slices.{slice}
use try_ops_try_on_mlops.Base.Sort.{sort_by}
use try_ops_try_on_mlops.Base.Text.{strip, replace}
use try_ops_try_on_mlops.Base.Result.{ok}
use try_ops_try_on_mlops.Guardrails.Redaction.{
  mask, pii_patterns, EntityType, email, ssn, redact_pii, restore_pii_placeholders,
}
use try_ops_try_on_mlops.Guardrails.Order.{FindsSpans, IsSpan}
use try_ops_try_on_mlops.Guardrails.Greedy.{greedy, candidates, redact_pii-greedy}
use try_ops_try_on_mlops.Guardrails.Masked.{Masked, redact_pii-Masked}
use try_ops_try_on_mlops.Guardrails.Findings.{
  dedupe_findings, PublicSummary, Finding, Control, is_block, pii_findings, public_summary,
  build_verdict,
}
use try_ops_try_on_mlops.Guardrails.Ingress.{
  safety_finding, set_field, content_safety_summary, Ingress, Rendering,
  evaluate_ingress_guardrails,
}
use try_ops_try_on_mlops.Guardrails.First.{Reported, evaluate_ingress_guardrails-Reported}
use try_ops_try_on_mlops.Guardrails.Merge.{merge_guardrail_verdicts}
use try_ops_try_on_mlops.Guardrails.Stages.{evaluate_ingress_guardrails-merge}
use try_ops_try_on_mlops.Guardrails.Structure.{validate_structured_output}
use try_ops_try_on_mlops.Guardrails.Passing.{WellFormed, validate_structured_output-WellFormed}

abbrev text_of : Json → String
text_of (str s) = s
text_of (num n) = "1"
text_of _ = "?"

abbrev int_of : Json → Option ℤ
int_of (num n) = some n
int_of _ = none

abbrev python : Python
python = record {
  Float = ℕ;
  float_lt = ltb;
  float_text = λ n. "?";
  json_text = text_of;
  json_int = int_of;
  lower = λ s. s;
}

abbrev found : String → ℕ → ℕ → List (ℕ × ℕ)
found source a b = if leb b (count source) then (a, b) ∷ [] else []

abbrev finditer : EntityType → String → List (ℕ × ℕ)
finditer email source = found source 3 8
finditer ssn source = found source 5 8
finditer _ source = []

found_IsSpan : (source : String) (a b : ℕ) → a < b → All (IsSpan source) (found source a b)
found_IsSpan source a b h = elim (Bool-cases (leb b (count source))) [
  | inl long ↦ rw long ((h, ground arith), tt)
  | inr short ↦ rw short tt
]

finds : FindsSpans finditer
finds email source = found_IsSpan source 3 8 (omega arith)
finds ssn source = found_IsSpan source 5 8 (omega arith)
finds _ source = tt

redacted_prompt :
    (redact_pii finditer python "to a@b.c now").redacted_text ≡ "to {{TRYOPS_PII_EMAIL_1}} now"
unfolding redact_pii sort_by slice
redacted_prompt = refl

restored_prompt :
    restore_pii_placeholders "{{TRYOPS_PII_EMAIL_1}}!" (redact_pii finditer python "to a@b.c now")
    ≡ "a@b.c!"
unfolding redact_pii restore_pii_placeholders sort_by slice replace
restored_prompt = refl

redact_pii-Masked_example : Masked "to a@b.c now" (redact_pii finditer python "to a@b.c now")
redact_pii-Masked_example = redact_pii-Masked finditer finds python "to a@b.c now"

abbrev rendering : Rendering
rendering = record { risk_text = λ v. some "0.9000"; dict_text = λ d. "{}" }

abbrev dumps : Control → String
dumps c = c.control

abbrev safety : Fields
safety = field "verdict" (str "block") (field "injection_hits" (num (ℤ.pos 2)) end)

abbrev findings : List Finding
findings =
    pii_findings (redact_pii finditer python "to a@b.c now")
    ++ safety_finding true ("LLM01:2025", "prompt_injection")
        "native content-safety gate blocked prompt with risk_score=0.9000 categories={}"
      ∷ []

abbrev result : Ingress
result = record {
  prompt_for_generation = (redact_pii finditer python "to a@b.c now").redacted_text;
  redaction = redact_pii finditer python "to a@b.c now";
  verdict =
      build_verdict dumps "ingress" findings
        (set_field "content_safety" (obj (content_safety_summary safety)) end)
        (public_summary (redact_pii finditer python "to a@b.c now"));
}

is_result :
    evaluate_ingress_guardrails python rendering finditer dumps "to a@b.c now" end safety
    ≡ ok result
unfolding evaluate_ingress_guardrails sort_by slice
is_result = refl

is_blocked : result.verdict.blocked ≡ true
unfolding build_verdict redact_pii sort_by slice
is_blocked = refl

evaluate_ingress_guardrails-Reported_example :
    Reported python rendering finditer "to a@b.c now" end safety result
evaluate_ingress_guardrails-Reported_example =
    evaluate_ingress_guardrails-Reported python rendering finditer dumps "to a@b.c now" end safety
      result is_result

abbrev generation : Fields
generation =
    field "structured_answer"
      (obj (field "intent" (str "help") (field "points" (arr (cons (str "one") nil)) end))) end

validate_structured_output-WellFormed_example :
    (any is_block (validate_structured_output generation true) ≡ false) ↔ (
      (answer : Fields) × (Json.get "structured_answer" generation ≡ some (obj answer))
      × WellFormed answer)
validate_structured_output-WellFormed_example = validate_structured_output-WellFormed generation

nothing_blocked : any is_block (validate_structured_output generation true) ≡ false
unfolding validate_structured_output strip sorted_set
nothing_blocked = refl

abbrev before : String
before = "ingress"

abbrev after : String
after = "egress"

stages_differ : ¬ (after ≡ before)
stages_differ h =
    let differ : (after == before) ≡ false = refl in
    let equal = (eq_iff after before).1 h in cc (differ, equal)

abbrev blocking : Finding
blocking = safety_finding true ("LLM01:2025", "prompt_injection") "blocked"

abbrev allowing : Finding
allowing = record blocking { stage = "egress"; action = "allow" }

abbrev no_pii_summary : PublicSummary
no_pii_summary = record { redacted = false; entity_count = 0; entity_counts = []; tokens = [] }

evaluate_ingress_guardrails-merge_example :
    let w = build_verdict dumps after (dedupe_findings (allowing ∷ [])) end no_pii_summary in
    (merge_guardrail_verdicts dumps (result.verdict ∷ w ∷ [])).blocked
    ≡ (result.verdict.blocked || w.blocked)
evaluate_ingress_guardrails-merge_example =
    evaluate_ingress_guardrails-merge python rendering finditer dumps "to a@b.c now" end safety
      result after (allowing ∷ []) end no_pii_summary is_result stages_differ (refl, tt)

redact_pii-greedy_example :
    redact_pii finditer python "to a@b.c now"
    ≡ mask python "to a@b.c now" (greedy [] (candidates finditer "to a@b.c now" pii_patterns))
redact_pii-greedy_example = redact_pii-greedy finditer python "to a@b.c now"
