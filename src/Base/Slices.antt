-- ===== src/Base/Slices.antt =====
-- Python's slices of a text, by positions in its characters that are not negative.
use Prim.Native.Nat.{ℕ, zero, suc, ◌+◌, ◌-◌, ◌≤◌}
use Prim.Native.String.{String, ◌++◌}
use mathlib.Core.Path.{◌≡◌, refl, ◌∙◌, sym, ap}
use native.Mathlib.Omega.{arith}
use text.Mathlib.TextLemmas.{nil-append, cons-append}

-- `s[:n]`
unfoldable pub take_text : ℕ → String → String
take_text zero s = String.[]
take_text (suc n) String.[] = String.[]
take_text (suc n) (String.◌∷◌ c s) = String.◌∷◌ c (take_text n s)

-- `s[n:]`
unfoldable pub drop_text : ℕ → String → String
drop_text zero s = s
drop_text (suc n) String.[] = String.[]
drop_text (suc n) (String.◌∷◌ c s) = drop_text n s

-- `s[a:b]`
unfoldable pub slice : ℕ → ℕ → String → String
unfolding take_text drop_text
slice a b s = take_text (b - a) (drop_text a s)

take-drop : (n : ℕ) (s : String) → take_text n s ++ drop_text n s ≡ s
unfolding take_text drop_text
take-drop zero s = nil-append s
take-drop (suc n) String.[] = nil-append String.[]
take-drop (suc n) (String.◌∷◌ c s) =
    cons-append c (take_text n s) (drop_text n s) ∙ ap (String.◌∷◌ c) (take-drop n s)

drop-nothing : (n : ℕ) → drop_text n String.[] ≡ String.[]
unfolding drop_text
drop-nothing zero = refl
drop-nothing (suc n) = refl

drop-drop : (m n k : ℕ) (s : String) → m + n ≡ k → drop_text n (drop_text m s) ≡ drop_text k s
unfolding drop_text
drop-drop zero n k s h = let same : n ≡ k = omega arith in ap (λ i. drop_text i s) same
drop-drop (suc m) n k String.[] h = drop-nothing n ∙ sym (drop-nothing k)
drop-drop (suc m) n zero (String.◌∷◌ c s) h = absurd (omega arith)
drop-drop (suc m) n (suc k) (String.◌∷◌ c s) h = drop-drop m n k s (omega arith)

-- The rest of a text from `a` on is the slice up to `b` with the rest from `b` on.
pub slice-drop : (a b : ℕ) (s : String) → a ≤ b → slice a b s ++ drop_text b s ≡ drop_text a s
unfolding slice
slice-drop a b s h =
    ap (λ t. take_text (b - a) (drop_text a s) ++ t) (sym (drop-drop a (b - a) b s (omega arith)))
    ∙ take-drop (b - a) (drop_text a s)
