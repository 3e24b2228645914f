-- ===== src/Guardrails/Kept.antt =====
-- What `_dedupe_findings` keeps of two lists that report no key twice and are of two stages: every block.
use try_ops_try_on_mlops.Base.{
  String, string_eq, pair_eq, true, ◌||◌, ◌≡◌, refl, sym, ap, ◌∙◌, List, [], ◌∷◌, ◌++◌, take, any,
  All, ◌==◌, arith, Bool-cases, beq_refl, inl, inr,
}
use try_ops_try_on_mlops.Guardrails.Findings.{Finding, Key, finding_key, dedupe_findings, is_block}
use try_ops_try_on_mlops.Guardrails.First.{with_key, dedupe_findings-first}
use try_ops_try_on_mlops.Base.Unique.{first_by-All}

-- No key is reported twice.
abbrev pub IsDeduped : List Finding → Type 0
IsDeduped fs = (k : Key) → with_key k fs ≡ take 1 (with_key k fs)

-- All findings are of one stage.
abbrev pub IsOfStage : String → List Finding → Type 0
IsOfStage stage fs = All (λ (f : Finding). f.stage ≡ stage) fs

with_key-append :
    (k : Key) (xs ys : List Finding) → with_key k (xs ++ ys) ≡ with_key k xs ++ with_key k ys
with_key-append k [] ys = refl
with_key-append k (x ∷ xs) ys = elim (Bool-cases (finding_key x == k)) [
  | inl h ↦ rw h (ap (λ t. x ∷ t) (with_key-append k xs ys))
  | inr h ↦ rw h (with_key-append k xs ys)
]

blocks-append :
    (xs ys : List Finding) → any is_block (xs ++ ys) ≡ (any is_block xs || any is_block ys)
blocks-append [] ys = refl
blocks-append (x ∷ xs) ys = ground (arith, blocks-append xs ys)

-- If a finding blocks, one of some key does.
block-key :
    (fs : List Finding) → any is_block fs ≡ true → (k : Key) × (any is_block (with_key k fs) ≡ true)
block-key [] h = absurd (cc (h))
block-key (x ∷ xs) h = elim (Bool-cases (is_block x)) [
  | inl b ↦ (finding_key x, rw (beq_refl (finding_key x), b) refl)
  | inr b ↦
      let (k, more) = block-key xs (rw b at h) in
      (k, elim (Bool-cases (finding_key x == k)) [ inl e ↦ rw (e, b) more | inr e ↦ rw e more ])
]

key-block :
    (k : Key) (fs : List Finding) → any is_block (with_key k fs) ≡ true → any is_block fs ≡ true
key-block k [] h = absurd (cc (h))
key-block k (x ∷ xs) h = elim (Bool-cases (is_block x)) [
  | inl b ↦ rw b refl
  | inr b ↦ elim (Bool-cases (finding_key x == k)) [
    | inl e ↦ rw b (key-block k xs (rw (e, b) at h))
    | inr e ↦ rw b (key-block k xs (rw e at h))
  ]
]

first-block : (fs : List Finding) → any is_block (take 1 fs) ≡ true → any is_block fs ≡ true
first-block [] h = h
first-block (x ∷ xs) h = ground arith

-- A block that is the only finding of its list is the first of any list that goes on from it.
take-single :
    (xs ys : List Finding)
    → xs ≡ take 1 xs
    → any is_block xs ≡ true
    → any is_block (take 1 (xs ++ ys)) ≡ true
take-single [] ys one h = absurd (cc (h))
take-single (x ∷ xs) ys one h =
    let alone : any is_block (take 1 (x ∷ xs)) ≡ true = ap (any is_block) (sym one) ∙ h in alone

stage-of_key :
    (stage : String) (k : Key) (fs : List Finding)
    → IsOfStage stage fs
    → any is_block (with_key k fs) ≡ true
    → k.1.1 ≡ stage
stage-of_key stage k [] s h = absurd (cc (h))
stage-of_key stage k (x ∷ xs) s h = elim (Bool-cases (finding_key x == k)) [
  | inl e ↦
      let same : finding_key x ≡ k = (pair_eq.beq_iff (finding_key x) k).0 e in
      ap (λ (j : Key). j.1.1) (sym same) ∙ s.0
  | inr e ↦ stage-of_key stage k xs s.1 (rw e at h)
]

none-of_key :
    (stage : String) (k : Key) (fs : List Finding)
    → IsOfStage stage fs
    → ¬ (k.1.1 ≡ stage)
    → with_key k fs ≡ []
none-of_key stage k [] s ne = refl
none-of_key stage k (x ∷ xs) s ne = elim (Bool-cases (finding_key x == k)) [
  | inl e ↦ absurd (
      ne (
        let same : finding_key x ≡ k = (pair_eq.beq_iff (finding_key x) k).0 e in
        ap (λ (j : Key). j.1.1) (sym same) ∙ s.0))
  | inr e ↦ rw e (none-of_key stage k xs s.1 ne)
]

module _ (a b : String) (ne : ¬ (b ≡ a)) (xs ys : List Finding) (deduped_xs : IsDeduped xs)
    (deduped_ys : IsDeduped ys) (stage_xs : IsOfStage a xs) (stage_ys : IsOfStage b ys) where
  left_kept : any is_block xs ≡ true → any is_block (dedupe_findings (xs ++ ys)) ≡ true
  left_kept h =
      let (k, hit) = block-key xs h in
      let kept = take-single (with_key k xs) (with_key k ys) (deduped_xs k) hit in
      key-block k (dedupe_findings (xs ++ ys)) (
        ap (any is_block) (dedupe_findings-first k (xs ++ ys))
        ∙ ap (λ t. any is_block (take 1 t)) (with_key-append k xs ys)
        ∙ kept)

  right_kept : any is_block ys ≡ true → any is_block (dedupe_findings (xs ++ ys)) ≡ true
  right_kept h =
      let (k, hit) = block-key ys h in
      let gone : with_key k xs ≡ [] =
        none-of_key a k xs stage_xs (λ is_a. ne (sym (stage-of_key b k ys stage_ys hit) ∙ is_a)) in
      key-block k (dedupe_findings (xs ++ ys)) (
        ap (any is_block) (dedupe_findings-first k (xs ++ ys))
        ∙ ap (λ t. any is_block (take 1 t)) (with_key-append k xs ys)
        ∙ ap (λ t. any is_block (take 1 (t ++ with_key k ys))) gone
        ∙ ap (any is_block) (sym (deduped_ys k))
        ∙ hit)

  only_kept : any is_block (dedupe_findings (xs ++ ys)) ≡ true → any is_block (xs ++ ys) ≡ true
  only_kept h =
      let (k, hit) = block-key (dedupe_findings (xs ++ ys)) h in
      key-block k (xs ++ ys) (
        first-block (with_key k (xs ++ ys))
          (ap (any is_block) (sym (dedupe_findings-first k (xs ++ ys))) ∙ hit))

  pub blocks_either :
      any is_block (dedupe_findings (xs ++ ys)) ≡ (any is_block xs || any is_block ys)
  blocks_either = elim (Bool-cases (any is_block xs)) [
    | inl h ↦ left_kept h ∙ ap (λ t. t || any is_block ys) (sym h)
    | inr h ↦ elim (Bool-cases (any is_block ys)) [
      | inl k ↦ let kept = right_kept k in ground (arith, kept)
      | inr k ↦ elim (Bool-cases (any is_block (dedupe_findings (xs ++ ys)))) [
        | inl d ↦ absurd (let o = only_kept d in let e = blocks-append xs ys in ground arith)
        | inr d ↦ ground (arith, d)
      ]
    ]
  ]

take-take : (xs : List Finding) → take 1 (take 1 xs) ≡ take 1 xs
take-take [] = refl
take-take (x ∷ xs) = refl

pub dedupe_findings-IsDeduped : (fs : List Finding) → IsDeduped (dedupe_findings fs)
dedupe_findings-IsDeduped fs k =
    let first = dedupe_findings-first k fs in
    first ∙ sym (ap (take 1) first ∙ take-take (with_key k fs))

pub dedupe_findings-IsOfStage :
    (stage : String) (fs : List Finding) → IsOfStage stage fs → IsOfStage stage (dedupe_findings fs)
unfolding dedupe_findings
dedupe_findings-IsOfStage stage fs h =
    first_by-All finding_key (λ (f : Finding). f.stage ≡ stage) [] fs h
