-- ===== src/Base/Unique.antt =====
-- The loop that keeps the first element with each key, on a set of the keys seen so far.
use mathlib.Core.Path.{subst, ◌≡◌, ap, ◌∙◌}
use mathlib.Core.Logic.{inl, inr}
use mathlib.Core.Bool.{true, false}
use mathlib.Core.List.{List, [], ◌∷◌}
use native.Mathlib.Omega.{arith}
use try_ops_try_on_mlops.Base.Tests.{Eq, ◌==◌, if◌then◌else◌, Bool-cases}
use try_ops_try_on_mlops.Base.Lists.{keep, take, contains, All}

module _ {ℓ κ} {A : Type ℓ} {K : Type κ} ⦃e : Eq K⦄ (key : A → K) where
  unfoldable pub first_by : List K → List A → List A
  first_by seen [] = []
  first_by seen (x ∷ xs) =
      let skipped = first_by seen xs in
      let kept = x ∷ first_by (key x ∷ seen) xs in if contains (key x) seen then skipped else kept

  pub first_by-All {μ} :
      (P : A → Type μ) (seen : List K) (xs : List A) → All P xs → All P (first_by seen xs)
  unfolding first_by
  first_by-All P seen [] h = tt
  first_by-All P seen (x ∷ xs) h = elim (Bool-cases (contains (key x) seen)) [
    | inl old ↦ rw old (first_by-All P seen xs h.1)
    | inr new ↦ rw new (h.0, first_by-All P (key x ∷ seen) xs h.1)
  ]

  pub first_by_lem :
      (k : K) (seen : List K) (xs : List A)
      → keep (λ x. key x == k) (first_by seen xs)
        ≡ (if contains k seen then [] else take 1 (keep (λ x. key x == k) xs))
  unfolding first_by
  first_by_lem k seen [] = ground arith
  first_by_lem k seen (x ∷ xs) =
      let skipped = first_by_lem k seen xs in
      let kept = first_by_lem k (key x ∷ seen) xs in
      elim (Bool-cases (key x == k)) [
        | inl same ↦
            let eq : key x ≡ k = (e.beq_iff (key x) k).0 same in
            elim (Bool-cases (contains (key x) seen)) [
              | inl old ↦
                  let old' : contains k seen ≡ true = subst (λ j. contains j seen ≡ true) eq old in
                  rw (old, old') (skipped ∙ rw old')
              | inr new ↦
                  let new' : contains k seen ≡ false =
                    subst (λ j. contains j seen ≡ false) eq new in
                  let back : (k == key x) ≡ true =
                    ground (arith, e.beq_iff k (key x), e.beq_iff (key x) k) in
                  rw (new, new', same) (ap (λ t. x ∷ t) (rw back at kept))
            ]
        | inr other ↦
            let other' : (k == key x) ≡ false =
              ground (arith, e.beq_iff k (key x), e.beq_iff (key x) k) in
            elim (Bool-cases (contains (key x) seen)) [
              | inl old ↦ rw (old, other) skipped
              | inr new ↦ rw (new, other) (rw other' at kept)
            ]
      ]
