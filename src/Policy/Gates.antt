-- ===== src/Policy/Gates.antt =====
-- src/tryops/policy.py: the ten gates. A gate that can raise returns an Option.
use try_ops_try_on_mlops.Base.{
  String, string_eq, Bool, true, false, not, Option, none, some, List, [], ◌∷◌, map, keep, is_empty,
  contains, if◌then◌else◌, ◌==◌, on,
}
use try_ops_try_on_mlops.Base.Int.{ℤ, pos, ltb_ℤ}
use try_ops_try_on_mlops.Base.Dict.{lookup, get_or, has_key}
use try_ops_try_on_mlops.Base.Json
use try_ops_try_on_mlops.Base.Json.{
  Json, Fields, end, null, bool, num, str, arr, nil, obj, truthy, as_dict, iterate,
}
use try_ops_try_on_mlops.Base.Text.{strip, concat, join}
use try_ops_try_on_mlops.Base.Python.{Python}
use try_ops_try_on_mlops.Policy.Model.{ModelCandidate, Policy, GateResult}

-- The texts of the tests that fail, in their order: `if test: failures.append(text)`.
abbrev pub failing : List (Bool × String) → List String
failing [] = []
failing ((b, s) ∷ ts) = let rest = failing ts in if b then s ∷ rest else rest

-- `if failures: return GateResult(False, "; ".join(failures))`
abbrev pub gate_of : List String → String → GateResult
gate_of [] ok = record { passed = true; message = ok }
gate_of (f ∷ fs) ok = record { passed = false; message = join "; " (f ∷ fs) }

abbrev pub pass : String → GateResult
pass s = record { passed = true; message = s }

-- one test and its two texts
abbrev pub single : Bool → String → String → GateResult
single failed text ok = if failed then record { passed = false; message = text } else pass ok

abbrev pub none_missing : List String → String → String → GateResult
none_missing missing text ok =
    single (not (is_empty missing)) (concat (text ∷ join ", " missing ∷ [])) ok

module _ (py : Python) where
  abbrev pub Candidate : Type 0
  Candidate = ModelCandidate py.Float

  abbrev pub has_artifact : Candidate → String → Bool
  has_artifact c name = not (get_or name "" c.artifacts == "")

  unfoldable pub check_known_workload : Candidate → Policy py.Float → GateResult
  check_known_workload c p =
      single (not (has_key c.workload p.metric_gates))
        (concat ("unknown workload '" ∷ c.workload ∷ "'" ∷ [])) "known workload"

  unfoldable pub check_required_artifacts : Candidate → Policy py.Float → GateResult
  check_required_artifacts c p =
      none_missing (keep (λ n. not (has_artifact c n)) p.required_artifacts)
        "missing required artifacts: " "required artifacts present"

  unfoldable pub check_approvals : Candidate → String → Policy py.Float → GateResult
  check_approvals c stage p = elim (lookup stage p.required_approvals) [
    | none ↦ record {
      passed = false;
      message = concat ("unknown target stage '" ∷ stage ∷ "'" ∷ []);
    }
    | some required ↦
        none_missing (keep (λ a. not (contains a c.approvals)) required) "missing approvals: "
          "approvals present"
  ]

  unfoldable pub check_risk_status : Candidate → Policy py.Float → GateResult
  check_risk_status c p =
      single (not (contains c.risk_status p.accepted_risk_statuses))
        (concat ("unaccepted risk status '" ∷ c.risk_status ∷ "'" ∷ [])) "risk accepted"

  abbrev int_text : ℤ → String
  int_text n = py.json_text (num n)

  -- `f"{what} {n} {sign} {m}"`
  abbrev pub compared : String → ℤ → String → ℤ → String
  compared what n sign m = concat (what ∷ " " ∷ int_text n ∷ sign ∷ int_text m ∷ [])

  abbrev pub security_tests : Candidate → Policy py.Float → List (Bool × String)
  security_tests c p =
      let critical : ℤ = get_or "critical" (pos 0) c.vulnerabilities in
      let high : ℤ = get_or "high" (pos 0) c.vulnerabilities in
      let max_critical : ℤ = p.security.max_critical_vulnerabilities in
      let max_high : ℤ = p.security.max_high_vulnerabilities in
      (ltb_ℤ max_critical critical, compared "critical vulnerabilities" critical " > " max_critical)
      ∷ (ltb_ℤ max_high high, compared "high vulnerabilities" high " > " max_high)
      ∷ []

  unfoldable pub check_security : Candidate → Policy py.Float → GateResult
  check_security c p = gate_of (failing (security_tests c p)) "security scan within threshold"

  unfoldable pub check_signature : Candidate → GateResult
  check_signature c =
      single (not c.signed) "candidate artifact is not signed" "candidate artifact signed"

  -- `metadata.get(section, {})`, or `{}` if that is no dict
  abbrev pub section : Candidate → String → Fields
  section c name = as_dict (Json.get_or name (obj end) c.metadata)

  -- `section.get(key, metadata.get(other, default))`
  abbrev pub setting : Candidate → String → String → String → Json → Json
  setting c name key other default =
      Json.get_or key (Json.get_or other default c.metadata) (section c name)

  -- `int(v or 0)`
  abbrev pub int_or_zero : Json → Option ℤ
  int_or_zero v = py.json_int (if truthy v then v else num (pos 0))

  -- The text of `if v: failures.append(text + ", ".join(str(item) for item in v))`; `none` if that raises.
  abbrev pub listing : String → Json → Option String
  listing text v =
      if truthy v
      then on (λ vs. concat (text ∷ join ", " (map py.json_text vs) ∷ [])) (iterate v)
      else some ""

  abbrev pub guardrail_tests :
      Candidate → Policy py.Float → ℤ → Json → String → List (Bool × String)
  guardrail_tests c p failed_cases blocked text =
      let verdict : String =
        py.json_text (setting c "guardrails" "status" "guardrail_verdict" (str "missing")) in
      (
        not (has_artifact c p.guardrails.required_artifact),
        concat ("missing required guardrail artifact: " ∷ p.guardrails.required_artifact ∷ []),
      )
      ∷ (
        not (contains verdict p.guardrails.accepted_verdicts),
        concat ("unaccepted guardrail verdict '" ∷ verdict ∷ "'" ∷ []),
      )
      ∷ (
        ltb_ℤ p.guardrails.max_failed_cases failed_cases,
        compared "guardrail failed cases" failed_cases " > " p.guardrails.max_failed_cases,
      )
      ∷ (truthy blocked, text)
      ∷ []

  abbrev pub failed_cases_value : Candidate → Json
  failed_cases_value c =
      setting c "guardrails" "failed_cases" "guardrail_failed_cases" (num (pos 0))

  abbrev pub blocked_value : Candidate → Json
  blocked_value c = setting c "guardrails" "blocked_risk_ids" "guardrail_blocked_risk_ids" (arr nil)

  abbrev pub with_both {ℓ} : {A : Type ℓ} → Option ℤ → Option String → (ℤ → String → A) → Option A
  with_both (some n) (some s) f = some (f n s)
  with_both _ _ f = none

  unfoldable pub check_guardrails : Candidate → Policy py.Float → Option GateResult
  check_guardrails c p =
      if contains c.workload p.guardrails.required_for_workloads
      then with_both (int_or_zero (failed_cases_value c))
          (listing "guardrail blocked risks: " (blocked_value c))
          (λ n text.
            gate_of (failing (guardrail_tests c p n (blocked_value c) text))
              "guardrail gate passed")
      else some (pass "guardrails not required for workload")

  abbrev pub metadata_bool : Json → Bool
  metadata_bool (bool b) = b
  metadata_bool v =
      contains (py.lower (strip (py.json_text v))) ("true" ∷ "1" ∷ "yes" ∷ "passed" ∷ [])

  abbrev pub provenance_text : Candidate → String → String → String
  provenance_text c key default =
      py.json_text (Json.get_or key (str default) (section c "model_provenance"))

  abbrev pub provenance_status : Candidate → String
  provenance_status c =
      py.json_text (setting c "model_provenance" "status" "model_provenance_status" (str "missing"))

  abbrev differs : String → String → String → Bool × String
  differs what observed expected =
      (not (observed == expected), concat (what ∷ " '" ∷ observed ∷ "' != '" ∷ expected ∷ "'" ∷ []))

  abbrev not_accepted : String → String → List String → Bool × String
  not_accepted what observed accepted =
      (not (contains observed accepted), concat (what ∷ " '" ∷ observed ∷ "' is not accepted" ∷ []))

  abbrev pub provenance_tests : Candidate → Policy py.Float → List (Bool × String)
  provenance_tests c p =
      let q = p.model_provenance in
      (
        not (has_artifact c q.required_artifact),
        concat ("missing required model provenance: " ∷ q.required_artifact ∷ []),
      )
      ∷ not_accepted "model provenance status" (provenance_status c) q.accepted_statuses
      ∷ differs "model provenance statement type" (provenance_text c "statement_type" "missing")
          q.statement_type
      ∷ differs "model provenance predicate type" (provenance_text c "predicate_type" "missing")
          q.predicate_type
      ∷ not_accepted "model provenance signature mode"
          (provenance_text c "signature_mode" "missing") q.accepted_signature_modes
      ∷ (
        strip (provenance_text c "signer_identity" "") == "",
        "model provenance signer identity is missing",
      )
      ∷ (
        not (metadata_bool (Json.get_or "verified" (bool false) (section c "model_provenance"))),
        "model provenance verification did not pass",
      )
      ∷ []

  unfoldable pub check_model_provenance : Candidate → Policy py.Float → GateResult
  check_model_provenance c p =
      if contains c.workload p.model_provenance.required_for_workloads
      then gate_of (failing (provenance_tests c p)) "model provenance gate passed"
      else pass "model provenance not required for workload"
