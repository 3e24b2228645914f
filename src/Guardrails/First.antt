-- ===== src/Guardrails/First.antt =====
-- What `_dedupe_findings` keeps, and what the verdict on a prompt says of it.
use mathlib.Core.Path.{subst}
use text.Mathlib.TextEquality.{eq_iff}
use try_ops_try_on_mlops.Base.{
  Option, none, some, ℕ, String, string_eq, pair_eq, true, false, not, ◌≡◌, refl, ap, sym, ◌∙◌,
  List, [], ◌++◌, map, keep, contains, take, is_empty, any, if◌then◌else◌, ◌==◌, Bool-cases, inl,
  inr,
}
use try_ops_try_on_mlops.Base.Json
use try_ops_try_on_mlops.Base.Json.{Json, Fields, obj, arr, nil, iterate}
use try_ops_try_on_mlops.Base.Python.{Python}
use try_ops_try_on_mlops.Base.Result.{or_raise, Result, ok, ◌>>=◌, >>=-eq-ok}
use try_ops_try_on_mlops.Base.Sets.{contains-sorted_set}
use try_ops_try_on_mlops.Base.Unique.{first_by, first_by_lem}
use try_ops_try_on_mlops.Guardrails.Redaction.{RedactionResult, EntityType, redact_pii}
use try_ops_try_on_mlops.Guardrails.Findings.{
  PublicSummary, is_block, Finding, Key, Control, finding_key, dedupe_findings, public_summary,
  pii_findings, build_verdict,
}
use try_ops_try_on_mlops.Guardrails.Ingress.{
  native_findings_of, set_field, content_safety_summary, Ingress, Rendering,
  evaluate_ingress_guardrails, native_findings, native_safety_findings,
}

abbrev pub with_key : Key → List Finding → List Finding
with_key k fs = keep (λ f. finding_key f == k) fs

-- Of the findings with one key, the first is kept and no other.
pub dedupe_findings-first :
    (k : Key) (fs : List Finding) → with_key k (dedupe_findings fs) ≡ take 1 (with_key k fs)
unfolding dedupe_findings
dedupe_findings-first k fs = first_by_lem finding_key k [] fs

abbrev ids_with : List Finding → List String
ids_with fs =
    map (λ (f : Finding). f.owasp_id) (keep (λ (f : Finding). not (f.owasp_id == "unknown")) fs)

-- What the verdict on a prompt says: the generation sees the redacted text, and a masked span is reported as a risk;
-- of the findings of the three sources, each key is reported once, by its first finding, and the prompt is blocked
-- exactly if a reported finding blocks.
pub record Reported (py : Python) (rendering : Rendering)
    (finditer : EntityType → String → List (ℕ × ℕ)) (prompt : String) (native safety : Fields)
    (result : Ingress) : Type 0 where
  pub redaction : result.redaction ≡ redact_pii finditer py prompt
  pub sees_redacted : result.prompt_for_generation ≡ (redact_pii finditer py prompt).redacted_text
  pub reports_masked :
      is_empty result.redaction.replacements ≡ false
      → contains "LLM02:2025" result.verdict.risk_ids ≡ true
  pub of_native : List Finding
  pub of_native_eq : native_findings py native "ingress" ≡ ok of_native
  pub of_safety : List Finding
  pub of_safety_eq : native_safety_findings py rendering safety ≡ ok of_safety
  pub reported :
      result.verdict.findings
      ≡ dedupe_findings (pii_findings result.redaction ++ (of_native ++ of_safety))
  pub first :
      (k : Key)
      → with_key k result.verdict.findings
        ≡ take 1 (with_key k (pii_findings result.redaction ++ (of_native ++ of_safety)))
  pub blocks : result.verdict.blocked ≡ any is_block result.verdict.findings

module _ (py : Python) (rendering : Rendering) (finditer : EntityType → String → List (ℕ × ℕ))
    (dumps : Control → String) where
  masked_first :
      (r : RedactionResult) (others : List Finding) (native : Fields) (pii : PublicSummary)
      → is_empty r.replacements ≡ false
      → contains "LLM02:2025"
          (build_verdict dumps "ingress"
            (dedupe_findings (pii_findings r ++ others))
            native
            pii).risk_ids
        ≡ true
  unfolding dedupe_findings build_verdict first_by
  masked_first r others native pii filled = rw (filled, contains-sorted_set) refl

  get-set_field :
      (v : Json) (d : Fields)
      → Json.get "findings" (set_field "content_safety" v d) ≡ Json.get "findings" d
  get-set_field v Json.end = refl
  get-set_field v (Json.field j w d) = elim (Bool-cases (j == "content_safety")) [
    | inl same ↦
        let eq : j ≡ "content_safety" = (eq_iff j "content_safety").0 same in
        let not_it : (j == "findings") ≡ false =
          subst (λ k. (k == "findings") ≡ false) (sym eq) refl in
        rw (same, not_it) refl
    | inr other ↦ rw other (ap (λ t. if j == "findings" then some w else t) (get-set_field v d))
  ]

  native_findings_same :
      (v : Json) (native : Fields)
      → native_findings py (set_field "content_safety" v native) "ingress"
        ≡ native_findings py native "ingress"
  unfolding native_findings
  native_findings_same v native =
      ap
        (λ (o : Option Json).
          or_raise (iterate (elim o as (λ _. Json) [ none ↦ arr nil | some w ↦ w ]))
            "object is not iterable"
          >>= λ items. ok (native_findings_of py "ingress" items))
        (get-set_field v native)

  answer : String → Fields → Fields → List Finding → List Finding → Ingress
  answer prompt native safety xs ys =
      let redaction = redact_pii finditer py prompt in
      record {
        prompt_for_generation = redaction.redacted_text;
        redaction = redaction;
        verdict =
            build_verdict dumps "ingress" (dedupe_findings (pii_findings redaction ++ (xs ++ ys)))
              (set_field "content_safety" (obj (content_safety_summary safety)) native)
              (public_summary redaction);
      }

  answer-Reported :
      (prompt : String) (native safety : Fields) (xs ys : List Finding)
      → native_findings py native "ingress" ≡ ok xs
      → native_safety_findings py rendering safety ≡ ok ys
      → Reported py rendering finditer prompt native safety (answer prompt native safety xs ys)
  unfolding answer build_verdict
  answer-Reported prompt native safety xs ys xs_eq ys_eq = record {
    redaction = refl;
    sees_redacted = refl;
    reports_masked =
        masked_first (redact_pii finditer py prompt) (xs ++ ys)
          (set_field "content_safety" (obj (content_safety_summary safety)) native)
          (public_summary (redact_pii finditer py prompt));
    of_native = xs;
    of_native_eq = xs_eq;
    of_safety = ys;
    of_safety_eq = ys_eq;
    reported = refl;
    first =
        λ k. dedupe_findings-first k (pii_findings (redact_pii finditer py prompt) ++ (xs ++ ys));
    blocks = refl;
  }

  -- Whatever `evaluate_ingress_guardrails` returns hands on the redacted prompt, reports each key of its three sources
  -- of findings once, by the first finding, names a masked span as a risk, and blocks exactly by a reported finding.
  pub evaluate_ingress_guardrails-Reported :
      (prompt : String) (native safety : Fields) (result : Ingress)
      → evaluate_ingress_guardrails py rendering finditer dumps prompt native safety ≡ ok result
      → Reported py rendering finditer prompt native safety result
  unfolding evaluate_ingress_guardrails answer
  evaluate_ingress_guardrails-Reported prompt native safety result h =
      let native_safe = set_field "content_safety" (obj (content_safety_summary safety)) native in
      let made : List Finding → List Finding → Result Ingress =
        λ xs ys. ok (answer prompt native safety xs ys) in
      let (xs, xs_eq, h1) =
        >>=-eq-ok (native_findings py native_safe "ingress")
          (λ xs. native_safety_findings py rendering safety >>= made xs) result h in
      let (ys, ys_eq, h2) =
        >>=-eq-ok (native_safety_findings py rendering safety) (made xs) result h1 in
      let same : answer prompt native safety xs ys ≡ result = cc (h2) in
      let read = sym (native_findings_same (obj (content_safety_summary safety)) native) ∙ xs_eq in
      subst (λ r. Reported py rendering finditer prompt native safety r) same
        (answer-Reported prompt native safety xs ys read ys_eq)
