-- ===== src/Routing/Alias.antt =====
-- src/tryops/routing.py: `resolve_model_alias`.
use try_ops_try_on_mlops.Base.{
  String, string_eq, none, some, List, [], ◌∷◌, contains, if◌then◌else◌, ◌==◌,
}
use try_ops_try_on_mlops.Base.Dict.{Dict, lookup}
use try_ops_try_on_mlops.Base.Result.{Result, raised, ok}
use try_ops_try_on_mlops.Base.Text.{concat}

-- `SUPPORTED_MODEL_ALIASES` of src/tryops/pipelines/llm_baseline.py
abbrev pub supported_llm_aliases : List String
supported_llm_aliases = "baseline" ∷ "champion" ∷ "challenger" ∷ "candidate" ∷ []

abbrev pub supported_vton_aliases : Dict String String
supported_vton_aliases =
    ("baseline", "naive-overlay-vton")
    ∷ ("champion", "fashn-vton-http")
    ∷ ("challenger", "fashn-vton-http")
    ∷ ("candidate", "fashn-vton-http")
    ∷ []

abbrev pub quoted : String → String → String
quoted text s = concat (text ∷ " '" ∷ s ∷ "'" ∷ [])

abbrev pub llm_adapter : String
llm_adapter = "openai-compatible-vllm"

-- `resolve_model_alias`: the adapter of the dict that it returns, which holds its arguments too
unfoldable pub resolve_model_alias : String → String → Result String
resolve_model_alias workload model_alias =
    if workload == "llm"
    then if contains model_alias supported_llm_aliases
      then ok llm_adapter
      else raised (quoted "unsupported LLM alias" model_alias)
    else if workload == "vton"
    then elim (lookup model_alias supported_vton_aliases) [
      | none ↦ raised (quoted "unsupported VTON alias" model_alias)
      | some adapter ↦ ok adapter
    ]
    else raised (quoted "unsupported workload" workload)
