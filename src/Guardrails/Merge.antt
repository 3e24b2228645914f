-- ===== src/Guardrails/Merge.antt =====
-- src/tryops/guardrails.py: `merge_guardrail_verdicts`, on verdicts that `_build_verdict` has made.
use try_ops_try_on_mlops.Base.{
  String, string_eq, pair_eq, false, List, [], ◌∷◌, ◌++◌, if◌then◌else◌,
}
use try_ops_try_on_mlops.Base.Json.{end}
use try_ops_try_on_mlops.Guardrails.Findings.{
  Finding, Verdict, Control, PublicSummary, NativeEngine, dedupe_findings, build_verdict,
  native_engine_of,
}

abbrev pub no_pii : PublicSummary
no_pii = record { redacted = false; entity_count = 0; entity_counts = []; tokens = [] }

abbrev pub all_findings : List Verdict → List Finding
all_findings [] = []
all_findings (v ∷ vs) = v.findings ++ all_findings vs

-- the first engine: the dict of an engine is never empty
abbrev pub first_engine : List Verdict → NativeEngine
first_engine [] = native_engine_of end
first_engine (v ∷ vs) = v.native_engine

abbrev pub first_redacted : List Verdict → PublicSummary
first_redacted [] = no_pii
first_redacted (v ∷ vs) = if v.pii.redacted then v.pii else first_redacted vs

unfoldable pub merge_guardrail_verdicts : (Control → String) → List Verdict → Verdict
unfolding dedupe_findings build_verdict
merge_guardrail_verdicts dumps verdicts =
    record (build_verdict dumps "runtime" (dedupe_findings (all_findings verdicts)) end
      (first_redacted verdicts)) { native_engine = first_engine verdicts }
