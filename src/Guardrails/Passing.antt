-- ===== src/Guardrails/Passing.antt =====
-- When `validate_structured_output` lets an answer pass.
use mathlib.Core.Path.{subst}
use try_ops_try_on_mlops.Base.{
  String, string_eq, Bool, true, false, ◌≡◌, ◌↔◌, inl, inr, refl, sym, ◌∙◌, Option, none, some,
  List, [], ◌∷◌, keep, all, any, All, is_empty, ◌==◌, arith, Bool-cases,
}
use try_ops_try_on_mlops.Base.Json
use try_ops_try_on_mlops.Base.Json.{
  Json, Items, Fields, end, null, bool, num, str, arr, obj, nil, cons, elements,
}
use try_ops_try_on_mlops.Base.Sets.{is_empty-sorted_set}
use try_ops_try_on_mlops.Base.Text.{strip}
use try_ops_try_on_mlops.Guardrails.Findings.{is_block}
use try_ops_try_on_mlops.Guardrails.Structure.{
  is_filled, intent_passes, points_pass, unsafe_names, has_field, unsafe_keys, answer_failures,
  judge, validate_answer, validate_structured_output,
}

abbrev pub IsFilled : Json → Type 0
IsFilled v = (s : String) × (v ≡ str s) × ((strip s == "") ≡ false)

-- An answer has an intent that is a text and not blank; its points, if there are any, are a list of such texts; and
-- it has none of the unsafe keys.
pub record WellFormed (answer : Fields) : Type 0 where
  pub intent : IsFilled (Json.get_or "intent" null answer)
  pub points :
      (v : Json)
      → Json.get "points" answer ≡ some v
      → (items : Items) × (v ≡ arr items) × All IsFilled (elements items)
  pub no_unsafe : All (λ key. Json.get key answer ≡ none) unsafe_names

is_filled_iff : (v : Json) → (is_filled v ≡ true) ↔ IsFilled v
is_filled_iff (str s) = (
  λ h. (s, refl, ground arith),
  λ h. let same : s ≡ h.0 = cc (h.1) in let blank = h.2 in ground arith,
)
is_filled_iff null = (λ h. absurd (cc (h)), λ h. let e = h.1 in absurd (cc (e)))
is_filled_iff (bool b) = (λ h. absurd (cc (h)), λ h. let e = h.1 in absurd (cc (e)))
is_filled_iff (num n) = (λ h. absurd (cc (h)), λ h. let e = h.1 in absurd (cc (e)))
is_filled_iff (arr xs) = (λ h. absurd (cc (h)), λ h. let e = h.1 in absurd (cc (e)))
is_filled_iff (obj d) = (λ h. absurd (cc (h)), λ h. let e = h.1 in absurd (cc (e)))

all-IsFilled_iff : (vs : List Json) → (all is_filled vs ≡ true) ↔ All IsFilled vs
all-IsFilled_iff [] = (λ h. tt, λ h. refl)
all-IsFilled_iff (v ∷ vs) =
    let (to, back) = is_filled_iff v in
    let (to_all, back_all) = all-IsFilled_iff vs in
    (
      λ h. (to (ground arith), to_all (ground arith)),
      λ h. let a = back h.0 in let b = back_all h.1 in ground arith,
    )

points_iff :
    (o : Option Json)
    → (points_pass o ≡ true) ↔ (
        (v : Json) → o ≡ some v → (items : Items) × (v ≡ arr items) × All IsFilled (elements items))
points_iff none = (λ h v e. absurd (cc (e)), λ h. refl)
points_iff (some (arr items)) =
    let (to, back) = all-IsFilled_iff (elements items) in
    (
      λ h v e. let same : arr items ≡ v = cc (e) in (items, sym same, to h),
      λ h.
          let (its, is, filled) = h (arr items) refl in
          let same : its ≡ items = cc (is) in
          back (subst (λ xs. All IsFilled (elements xs)) same filled),
    )
points_iff (some null) = (λ h. absurd (cc (h)), λ h. let (_, e, _) = h null refl in absurd (cc (e)))
points_iff (some (bool b)) =
    (λ h. absurd (cc (h)), λ h. let (_, e, _) = h (bool b) refl in absurd (cc (e)))
points_iff (some (num n)) =
    (λ h. absurd (cc (h)), λ h. let (_, e, _) = h (num n) refl in absurd (cc (e)))
points_iff (some (str s)) =
    (λ h. absurd (cc (h)), λ h. let (_, e, _) = h (str s) refl in absurd (cc (e)))
points_iff (some (obj d)) =
    (λ h. absurd (cc (h)), λ h. let (_, e, _) = h (obj d) refl in absurd (cc (e)))

absent_iff :
    (o : Option Json)
    → ((elim o as (λ _. Bool) [ none ↦ false | some v ↦ true ]) ≡ false) ↔ (o ≡ none)
absent_iff none = (λ h. refl, λ h. refl)
absent_iff (some v) = (λ h. absurd (cc (h)), λ h. absurd (cc (h)))

none_kept_iff :
    (answer : Fields) (names : List String)
    → (is_empty (keep (λ key. has_field key answer) names) ≡ true)
      ↔ All (λ key. Json.get key answer ≡ none) names
none_kept_iff answer [] = (λ h. tt, λ h. refl)
none_kept_iff answer (key ∷ names) =
    let (to, back) = absent_iff (Json.get key answer) in
    let (to_all, back_all) = none_kept_iff answer names in
    elim (Bool-cases (has_field key answer)) [
      | inl there ↦
          (λ h. absurd (cc (rw there at h)), λ h. let f = back h.0 in absurd (cc (there, f)))
      | inr gone ↦ (λ h. (to gone, to_all (rw gone at h)), λ h. rw gone (back_all h.1))
    ]

no_unsafe_iff :
    (answer : Fields)
    → (is_empty (unsafe_keys answer) ≡ true) ↔ All (λ key. Json.get key answer ≡ none) unsafe_names
no_unsafe_iff answer =
    let (to, back) = none_kept_iff answer unsafe_names in
    let same = is_empty-sorted_set (keep (λ key. has_field key answer) unsafe_names) in
    (λ h. to (sym same ∙ h), λ h. same ∙ back h)

failures_iff :
    (answer : Fields)
    → (is_empty (answer_failures answer) ≡ true) ↔ (
        (intent_passes answer ≡ true)
        × (points_pass (Json.get "points" answer) ≡ true)
        × (is_empty (unsafe_keys answer) ≡ true))
failures_iff answer = elim (Bool-cases (intent_passes answer)) [
  | inr f ↦ (λ h. absurd (cc (rw f at h)), λ h. absurd (let e = h.0 in cc (e, f)))
  | inl t ↦ elim (Bool-cases (points_pass (Json.get "points" answer))) [
    | inr f ↦ (λ h. absurd (cc (rw (t, f) at h)), λ h. absurd (let e = h.1 in cc (e, f)))
    | inl u ↦ elim (Bool-cases (is_empty (unsafe_keys answer))) [
      | inr f ↦ (λ h. absurd (cc (rw (t, u, f) at h)), λ h. absurd (let e = h.2 in cc (e, f)))
      | inl w ↦ (λ h. (t, u, w), λ h. rw (t, u, w) refl)
    ]
  ]
]

judge_iff :
    (failures : List String) → (any is_block (judge failures) ≡ false) ↔ (is_empty failures ≡ true)
judge_iff [] = (λ h. refl, λ h. refl)
judge_iff (f ∷ fs) = (λ h. absurd (cc (h)), λ h. absurd (cc (h)))

answer_iff :
    (answer : Fields) → (any is_block (judge (answer_failures answer)) ≡ false) ↔ WellFormed answer
answer_iff answer =
    let (to, back) = failures_iff answer in
    let judged : (any is_block (judge (answer_failures answer)) ≡ false)
        ↔ (is_empty (answer_failures answer) ≡ true) =
      judge_iff (answer_failures answer) in
    (
      λ h.
          let (i, p, u) = to (judged.0 h) in
          record {
            intent = (is_filled_iff (Json.get_or "intent" null answer)).0 i;
            points = (points_iff (Json.get "points" answer)).0 p;
            no_unsafe = (no_unsafe_iff answer).0 u;
          },
      λ h. judged.1 (
          back (
            (is_filled_iff (Json.get_or "intent" null answer)).1 h.intent,
            (points_iff (Json.get "points" answer)).1 h.points,
            (no_unsafe_iff answer).1 h.no_unsafe,
          )),
    )

validated_iff :
    (o : Option Json)
    → (any is_block (validate_answer o) ≡ false)
      ↔ ((answer : Fields) × (o ≡ some (obj answer)) × WellFormed answer)
validated_iff (some (obj answer)) =
    let (to, back) = answer_iff answer in
    (
      λ h. (answer, refl, to h),
      λ h.
          let (a, e, w) = h in
          let same : a ≡ answer = cc (e) in back (subst (λ d. WellFormed d) same w),
    )
validated_iff none = (λ h. absurd (cc (h)), λ h. let e = h.1 in absurd (cc (e)))
validated_iff (some null) = (λ h. absurd (cc (h)), λ h. let e = h.1 in absurd (cc (e)))
validated_iff (some (bool b)) = (λ h. absurd (cc (h)), λ h. let e = h.1 in absurd (cc (e)))
validated_iff (some (num n)) = (λ h. absurd (cc (h)), λ h. let e = h.1 in absurd (cc (e)))
validated_iff (some (str s)) = (λ h. absurd (cc (h)), λ h. let e = h.1 in absurd (cc (e)))
validated_iff (some (arr xs)) = (λ h. absurd (cc (h)), λ h. let e = h.1 in absurd (cc (e)))

-- A structured answer is let pass exactly if the generation has one and it is well formed.
pub validate_structured_output-WellFormed :
    (generation : Fields)
    → (any is_block (validate_structured_output generation true) ≡ false) ↔ (
        (answer : Fields) × (Json.get "structured_answer" generation ≡ some (obj answer))
        × WellFormed answer)
unfolding validate_structured_output
validate_structured_output-WellFormed generation =
    validated_iff (Json.get "structured_answer" generation)
