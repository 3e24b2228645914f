-- ===== src/Base/Sort.antt =====
-- Python's stable sort: `xs.sort(key=...)`, and with `reverse=True`, which keeps the order of equal
-- elements too. Both are one insertion sort, over the test "may stand in front of".
use mathlib.Core.List.Perm
use mathlib.Core.List.{Perm}
use try_ops_try_on_mlops.Base.Tests.{leb, if◌then◌else◌, Bool-cases}
use try_ops_try_on_mlops.Base.Lists.{length, All, take, take-All}
use Prim.Native.Nat.{ℕ, zero, suc, ◌≤◌}
use mathlib.Core.Path.{◌≡◌, refl}
use mathlib.Core.Logic.{inl, inr}
use mathlib.Core.Bool.{Bool}
use mathlib.Core.List.{List, [], ◌∷◌}
use native.Mathlib.Omega.{arith}

module _ {ℓ} {A : Type ℓ} (front : A → A → Bool) where
  unfoldable pub insert_by : A → List A → List A
  insert_by x [] = x ∷ []
  insert_by x (y ∷ ys) = if front x y then x ∷ y ∷ ys else y ∷ insert_by x ys

  unfoldable pub sort_by : List A → List A
  unfolding insert_by
  sort_by [] = []
  sort_by (x ∷ xs) = insert_by x (sort_by xs)

  insert_by-perm : (x : A) (xs : List A) → Perm (insert_by x xs) (x ∷ xs)
  unfolding insert_by
  insert_by-perm x [] = Perm.refl (x ∷ [])
  insert_by-perm x (y ∷ ys) = elim (Bool-cases (front x y)) [
    | inl h ↦ rw h (Perm.refl (x ∷ y ∷ ys))
    | inr h ↦ rw h (Perm.trans (Perm.cons y (insert_by-perm x ys)) (Perm.swap x y ys))
  ]

  pub sort_by-perm : (xs : List A) → Perm (sort_by xs) xs
  unfolding sort_by
  sort_by-perm [] = Perm.refl []
  sort_by-perm (x ∷ xs) = Perm.trans (insert_by-perm x (sort_by xs)) (Perm.cons x (sort_by-perm xs))

  insert_by-All : (P : A → Type 0) (x : A) (xs : List A) → P x → All P xs → All P (insert_by x xs)
  unfolding insert_by
  insert_by-All P x [] h k = (h, k)
  insert_by-All P x (y ∷ ys) h k = elim (Bool-cases (front x y)) [
    | inl e ↦ rw e (h, k)
    | inr e ↦ rw e (k.0, insert_by-All P x ys h k.1)
  ]

  pub sort_by-All : (P : A → Type 0) (xs : List A) → All P xs → All P (sort_by xs)
  unfolding sort_by
  sort_by-All P [] k = k
  sort_by-All P (x ∷ xs) k = insert_by-All P x (sort_by xs) k.0 (sort_by-All P xs k.1)

  length-insert_by : (x : A) (xs : List A) → length (insert_by x xs) ≡ suc (length xs)
  unfolding insert_by
  length-insert_by x [] = refl
  length-insert_by x (y ∷ ys) = ground (arith, length-insert_by x ys)

  pub length-sort_by : (xs : List A) → length (sort_by xs) ≡ length xs
  unfolding sort_by
  length-sort_by [] = refl
  length-sort_by (x ∷ xs) = omega (arith, length-insert_by x (sort_by xs), length-sort_by xs)

-- No element stands behind one with a smaller key.
module _ {ℓ} {A : Type ℓ} (key : A → ℕ) where
  abbrev pub descending : A → A → Bool
  descending x y = leb (key y) (key x)

  abbrev pub IsDescending : List A → Type 0
  IsDescending [] = Unit
  IsDescending (x ∷ xs) = All (λ y. key y ≤ key x) xs × IsDescending xs

  lower-All : (a b : ℕ) (xs : List A) → a ≤ b → All (λ y. key y ≤ a) xs → All (λ y. key y ≤ b) xs
  lower-All a b [] h k = k
  lower-All a b (x ∷ xs) h k = (omega arith, lower-All a b xs h k.1)

  insert_by-IsDescending :
      (x : A) (xs : List A) → IsDescending xs → IsDescending (insert_by descending x xs)
  unfolding insert_by
  insert_by-IsDescending x [] h = (tt, tt)
  insert_by-IsDescending x (y ∷ ys) h = elim (Bool-cases (descending x y)) [
    | inl e ↦
        let le : key y ≤ key x = ground arith in rw e ((le, lower-All (key y) (key x) ys le h.0), h)
    | inr e ↦ rw e (
      insert_by-All descending (λ z. key z ≤ key y) x ys (ground arith) h.0,
      insert_by-IsDescending x ys h.1,
    )
  ]

  pub sort_by-IsDescending : (xs : List A) → IsDescending (sort_by descending xs)
  unfolding sort_by
  sort_by-IsDescending [] = tt
  sort_by-IsDescending (x ∷ xs) =
      insert_by-IsDescending x (sort_by descending xs) (sort_by-IsDescending xs)

  pub take-IsDescending : (n : ℕ) (xs : List A) → IsDescending xs → IsDescending (take n xs)
  take-IsDescending zero xs h = tt
  take-IsDescending (suc n) [] h = tt
  take-IsDescending (suc n) (x ∷ xs) h =
      (take-All (λ y. key y ≤ key x) n xs h.0, take-IsDescending n xs h.1)
