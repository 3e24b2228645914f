-- ===== src/Admission/Windows.antt =====
-- The requests in flight after a release, and the window of the breaker after a trim.
use try_ops_try_on_mlops.Base.{
  ℕ, suc, ◌+◌, ◌-◌, ◌≤◌, ◌≡◌, refl, List, [], ◌∷◌, ◌++◌, length, arith, Bool-cases, inl, inr,
  string_eq,
}
use try_ops_try_on_mlops.Base.Int.{ℤ, pos, pos_part, ◌≤ℤ◌, ltb_ℤ}
use try_ops_try_on_mlops.Base.Result.{Result, ok}
use try_ops_try_on_mlops.Admission.Controller.{release, trim}

abbrev pub sum : List ℕ → ℕ
sum [] = 0
sum (x ∷ xs) = x + sum xs

pub length-release_le : (ts : ℤ) (xs : List ℤ) → length (release ts xs) ≤ length xs
length-release_le ts [] = omega arith
length-release_le ts (t ∷ xs) = ground (arith, length-release_le ts xs)

pub sum-append : (xs : List ℕ) (x : ℕ) → sum (xs ++ (x ∷ [])) ≡ sum xs + x
sum-append [] x = omega arith
sum-append (y ∷ xs) x = omega (arith, sum-append xs x)

abbrev Trimmed : ℤ → List ℕ → Result (List ℕ × ℕ) → Type 0
Trimmed bound window r =
    (p : List ℕ × ℕ) × (r ≡ ok p)
    × (p.1 ≡ sum p.0)
    × (length p.0 ≤ pos_part bound)
    × (p.1 ≤ sum window)

-- A bound that is not negative is reached before the window is empty.
pub trim-Trimmed :
    (bound : ℤ) (window : List ℕ) (errors : ℕ)
    → pos 0 ≤ℤ bound
    → errors ≡ sum window
    → Trimmed bound window (trim bound window errors)
trim-Trimmed bound [] errors h e = elim (Bool-cases (ltb_ℤ bound (pos 0))) [
  | inl t ↦ absurd (ground (arith, t, h))
  | inr f ↦ rw f (([], errors), refl, e, omega arith, omega (arith, e))
]
trim-Trimmed bound (x ∷ xs) errors h e = elim (Bool-cases (ltb_ℤ bound (pos (suc (length xs))))) [
  | inl t ↦ rw t (
      let (p, eq, agrees, short, le) = trim-Trimmed bound xs (errors - x) h (omega (arith, e)) in
      (p, eq, agrees, short, omega (arith, le)))
  | inr f ↦ rw f ((x ∷ xs, errors), refl, e, ground (arith, f, h), omega (arith, e))
]
