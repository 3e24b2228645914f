-- ===== src/Guardrails/Stages.antt =====
-- The stage of the findings on a prompt, and what becomes of their blocks when the verdict on the answer joins.
use text.Mathlib.TextEquality.{eq_iff}
use mathlib.Core.Path.{subst}
use try_ops_try_on_mlops.Base.{
  ℕ, String, string_eq, Bool, ◌||◌, ◌≡◌, refl, sym, ap, ◌∙◌, List, [], ◌∷◌, ◌++◌, All-append,
  append-nil, any, is_empty, inl, inr, Bool-cases, ◌==◌,
}
use try_ops_try_on_mlops.Base.Json.{Json, Fields, null, bool, num, str, arr, obj, iterate}
use try_ops_try_on_mlops.Base.Json
use try_ops_try_on_mlops.Base.Python.{Python}
use try_ops_try_on_mlops.Base.Result.{Result, ok, ◌>>=◌, or_raise, >>=-eq-ok}
use try_ops_try_on_mlops.Guardrails.Redaction.{RedactionResult, EntityType}
use try_ops_try_on_mlops.Guardrails.Findings.{
  Finding, Control, PublicSummary, pii_findings, dedupe_findings, build_verdict, is_block,
}
use try_ops_try_on_mlops.Guardrails.Ingress.{
  Ingress, Rendering, text_at_or, native_finding, native_findings_of, native_findings, safety_risk,
  safety_message, safety_finding, flagged, native_safety_findings, evaluate_ingress_guardrails,
}
use try_ops_try_on_mlops.Guardrails.First.{evaluate_ingress_guardrails-Reported}
use try_ops_try_on_mlops.Guardrails.Merge.{merge_guardrail_verdicts}
use try_ops_try_on_mlops.Guardrails.Kept.{
  IsOfStage, dedupe_findings-IsDeduped, dedupe_findings-IsOfStage, blocks_either,
}

abbrev AtIngress : List Finding → Type 0
AtIngress fs = IsOfStage "ingress" fs

pii_findings-IsOfStage : (r : RedactionResult) → AtIngress (pii_findings r)
pii_findings-IsOfStage r = elim (Bool-cases (is_empty r.replacements)) [
  | inl none_masked ↦ rw none_masked tt
  | inr masked ↦ rw masked (refl, tt)
]

module _ (py : Python) where
  native_finding-IsOfStage :
      (stage : String) (item : Json) → IsOfStage stage (native_finding py stage item)
  native_finding-IsOfStage stage (obj item) =
      elim (Bool-cases (text_at_or py "stage" stage item == stage)) [
        | inl same ↦ rw same ((eq_iff (text_at_or py "stage" stage item) stage).0 same, tt)
        | inr other ↦ rw other tt
      ]
  native_finding-IsOfStage stage null = tt
  native_finding-IsOfStage stage (bool b) = tt
  native_finding-IsOfStage stage (num n) = tt
  native_finding-IsOfStage stage (str s) = tt
  native_finding-IsOfStage stage (arr xs) = tt

  native_findings_of-IsOfStage :
      (stage : String) (items : List Json) → IsOfStage stage (native_findings_of py stage items)
  native_findings_of-IsOfStage stage [] = tt
  native_findings_of-IsOfStage stage (item ∷ items) =
      All-append (λ (f : Finding). f.stage ≡ stage) (native_finding py stage item)
        (native_findings_of py stage items) (native_finding-IsOfStage stage item)
        (native_findings_of-IsOfStage stage items)

  native_findings-IsOfStage :
      (native : Fields) (stage : String) (fs : List Finding)
      → native_findings py native stage ≡ ok fs
      → IsOfStage stage fs
  unfolding native_findings
  native_findings-IsOfStage native stage fs h =
      let (items, _, made) =
        >>=-eq-ok
          (or_raise (iterate (Json.get_or "findings" (arr Json.nil) native))
            "object is not iterable")
          (λ items. ok (native_findings_of py stage items)) fs h in
      let same : native_findings_of py stage items ≡ fs = cc (made) in
      subst (IsOfStage stage) same (native_findings_of-IsOfStage stage items)

  module _ (rendering : Rendering) where
    flagged-IsOfStage :
        (report : Fields) (blocks : Bool) (fs : List Finding)
        → flagged py rendering report blocks ≡ ok fs
        → AtIngress fs
    flagged-IsOfStage report blocks fs h =
        let finish : String × String → String → Result (List Finding) =
          λ risk message. ok (safety_finding blocks risk message ∷ []) in
        let (risk, _, h1) =
          >>=-eq-ok (safety_risk py report)
            (λ risk. safety_message py rendering report blocks >>= finish risk) fs h in
        let (message, _, h2) =
          >>=-eq-ok (safety_message py rendering report blocks) (finish risk) fs h1 in
        let same : safety_finding blocks risk message ∷ [] ≡ fs = cc (h2) in
        subst AtIngress same (refl, tt)

    native_safety_findings-IsOfStage :
        (report : Fields) (fs : List Finding)
        → native_safety_findings py rendering report ≡ ok fs
        → AtIngress fs
    unfolding native_safety_findings
    native_safety_findings-IsOfStage report fs h =
        let verdict = text_at_or py "verdict" "allow" report in
        elim (Bool-cases (verdict == "allow")) [
          | inl allowed ↦ let same : [] ≡ fs = cc (rw allowed at h) in subst AtIngress same tt
          | inr not_allowed ↦ flagged-IsOfStage report (verdict == "block") fs (rw not_allowed at h)
        ]

    module _ (finditer : EntityType → String → List (ℕ × ℕ)) (dumps : Control → String) where
      -- The verdict on a prompt, merged with one on findings of another stage, blocks exactly if one of the two does:
      -- that a key is reported once loses no block.
      pub evaluate_ingress_guardrails-merge :
          (prompt : String) (native safety : Fields) (result : Ingress) (stage : String)
          (gs : List Finding) (native' : Fields) (pii' : PublicSummary)
          → evaluate_ingress_guardrails py rendering finditer dumps prompt native safety ≡ ok result
          → ¬ (stage ≡ "ingress")
          → IsOfStage stage gs
          → let w = build_verdict dumps stage (dedupe_findings gs) native' pii' in
            (merge_guardrail_verdicts dumps (result.verdict ∷ w ∷ [])).blocked
            ≡ (result.verdict.blocked || w.blocked)
      unfolding merge_guardrail_verdicts build_verdict
      evaluate_ingress_guardrails-merge prompt native safety result stage gs native' pii' h ne
            of_stage =
          let r =
            evaluate_ingress_guardrails-Reported py rendering finditer dumps prompt native safety
              result h in
          let sources = pii_findings result.redaction ++ (r.of_native ++ r.of_safety) in
          let at_ingress : AtIngress sources =
            All-append (λ (f : Finding). f.stage ≡ "ingress") (pii_findings result.redaction)
              (r.of_native ++ r.of_safety) (pii_findings-IsOfStage result.redaction)
              (All-append (λ (f : Finding). f.stage ≡ "ingress") r.of_native r.of_safety
                (native_findings-IsOfStage native "ingress" r.of_native r.of_native_eq)
                (native_safety_findings-IsOfStage safety r.of_safety r.of_safety_eq)) in
          let ys = dedupe_findings gs in
          ap (λ t. any is_block (dedupe_findings (result.verdict.findings ++ t))) (append-nil ys)
          ∙ ap (λ t. any is_block (dedupe_findings (t ++ ys))) r.reported
          ∙ blocks_either "ingress" stage ne (dedupe_findings sources) ys
              (dedupe_findings-IsDeduped sources) (dedupe_findings-IsDeduped gs)
              (dedupe_findings-IsOfStage "ingress" sources at_ingress)
              (dedupe_findings-IsOfStage stage gs of_stage)
          ∙ ap (λ t. any is_block t || any is_block ys) (sym r.reported)
          ∙ ap (λ t. t || any is_block ys) (sym r.blocks)
