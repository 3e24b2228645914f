-- ===== src/Routing/Models.antt =====
-- Which aliases `resolve_model_alias` takes, and the adapters that they stand for.
use text.Mathlib.TextEquality.{eq_iff}
use try_ops_try_on_mlops.Base.{
  String, string_eq, false, ◌≡◌, ◌≢◌, ◌⊎◌, refl, if◌then◌else◌, ◌==◌, Bool-cases, inl, inr, sym,
  arith,
}
use try_ops_try_on_mlops.Base.Result.{ok}
use try_ops_try_on_mlops.Routing.Alias.{resolve_model_alias}

abbrev pub IsServed : String → Type 0
IsServed workload = (workload ≡ "llm") ⊎ (workload ≡ "vton")

abbrev pub IsSupported : String → Type 0
IsSupported alias =
    (alias ≡ "baseline") ⊎ (alias ≡ "champion") ⊎ (alias ≡ "challenger") ⊎ (alias ≡ "candidate")

-- The language model has one adapter, and only the baseline of the try-on has one of its own.
abbrev pub adapter_of : String → String → String
adapter_of workload alias =
    if workload == "llm"
    then "openai-compatible-vllm"
    else if alias == "baseline"
    then "naive-overlay-vton"
    else "fashn-vton-http"

-- the alias that is asked beside the one that serves
abbrev pub other_alias : String → String
other_alias primary = if primary == "challenger" then "champion" else "challenger"

pub resolve-adapter_of :
    (workload alias : String)
    → IsServed workload
    → IsSupported alias
    → resolve_model_alias workload alias ≡ ok (adapter_of workload alias)
unfolding resolve_model_alias
resolve-adapter_of workload alias (inl w) (inl a) = rw (w, a) refl
resolve-adapter_of workload alias (inl w) (inr (inl a)) = rw (w, a) refl
resolve-adapter_of workload alias (inl w) (inr (inr (inl a))) = rw (w, a) refl
resolve-adapter_of workload alias (inl w) (inr (inr (inr a))) = rw (w, a) refl
resolve-adapter_of workload alias (inr w) (inl a) = rw (w, a) refl
resolve-adapter_of workload alias (inr w) (inr (inl a)) = rw (w, a) refl
resolve-adapter_of workload alias (inr w) (inr (inr (inl a))) = rw (w, a) refl
resolve-adapter_of workload alias (inr w) (inr (inr (inr a))) = rw (w, a) refl

-- the four supported aliases, or a test for each that fails
supported_cases :
    (alias : String)
    → IsSupported alias
      ⊎ ((alias == "baseline") ≡ false)
        × ((alias == "champion") ≡ false)
        × ((alias == "challenger") ≡ false)
        × ((alias == "candidate") ≡ false)
supported_cases alias = ground (
  arith,
  eq_iff alias "baseline",
  eq_iff alias "champion",
  eq_iff alias "challenger",
  eq_iff alias "candidate",
)

eq_false_sym : (s t : String) → (s == t) ≡ false → (t == s) ≡ false
eq_false_sym s t h = elim (Bool-cases (t == s)) [
  | inl e ↦ absurd (let same = (eq_iff s t).1 (sym ((eq_iff t s).0 e)) in cc (same, h))
  | inr e ↦ e
]

pub resolve-IsSupported :
    (workload alias adapter : String)
    → resolve_model_alias workload alias ≡ ok adapter
    → IsServed workload × IsSupported alias
unfolding resolve_model_alias
resolve-IsSupported workload alias adapter h = elim (supported_cases alias) [
  | inl known ↦ elim (Bool-cases (workload == "llm")) [
    | inl llm ↦ (inl ((eq_iff workload "llm").0 llm), known)
    | inr other ↦ elim (Bool-cases (workload == "vton")) [
      | inl vton ↦ (inr ((eq_iff workload "vton").0 vton), known)
      | inr neither ↦ absurd (let e = (rw (other, neither) at h) in cc (e))
    ]
  ]
  | inr (n0, n1, n2, n3) ↦ elim (Bool-cases (workload == "llm")) [
    | inl llm ↦ absurd (let e = (rw (llm, n0, n1, n2, n3) at h) in cc (e))
    | inr other ↦ elim (Bool-cases (workload == "vton")) [
      | inl vton ↦
          let m0 = eq_false_sym alias "baseline" n0 in
          let m1 = eq_false_sym alias "champion" n1 in
          let m2 = eq_false_sym alias "challenger" n2 in
          let m3 = eq_false_sym alias "candidate" n3 in
          absurd (let e = (rw (other, vton, m0, m1, m2, m3) at h) in cc (e))
      | inr neither ↦ absurd (let e = (rw (other, neither) at h) in cc (e))
    ]
  ]
]

pub other_alias-IsSupported : (primary : String) → IsSupported (other_alias primary)
other_alias-IsSupported primary = elim (Bool-cases (primary == "challenger")) [
  | inl t ↦ rw t (inr (inl refl))
  | inr f ↦ rw f (inr (inr (inl refl)))
]

pub other_alias-ne : (primary : String) → other_alias primary ≢ primary
other_alias-ne primary = elim (Bool-cases (primary == "challenger")) [
  | inl t ↦ rw t (λ e. let bad = (rw (← e) at t) in cc (bad))
  | inr f ↦ rw f (λ e. let bad = (eq_iff primary "challenger").1 (sym e) in cc (bad, f))
]
