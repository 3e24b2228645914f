-- ===== src/Base/Sets.antt =====
-- Python's sets of texts as they are read: `sorted(set(xs))`, without repetitions and in order.
use Prim.Native.Nat.{ℕ, zero, suc, ◌<◌}
use Prim.Native.String.{String, compare}
use text.Mathlib.Text.{is_lt}
use mathlib.Core.Path.{◌≡◌, refl, sym, ◌∙◌}
use mathlib.Core.Logic.{inl, inr}
use mathlib.Core.Option.{some}
use mathlib.Core.Bool.{Bool, true, false, not, ◌||◌}
use mathlib.Core.List.{List, [], ◌∷◌}
use native.Mathlib.Omega.{arith}
use text.Mathlib.TextEquality.{eq_iff}
use try_ops_try_on_mlops.Base.Tests.{string_eq, ◌==◌, if◌then◌else◌, Bool-cases, ltb}
use try_ops_try_on_mlops.Base.Lists.{contains, keep, count_if, is_empty, get_elem?}
use try_ops_try_on_mlops.Base.Sort.{sort_by}

abbrev pub add_text : String → List String → List String
add_text s [] = s ∷ []
add_text s (t ∷ ts) =
    let further = t ∷ add_text s ts in
    if s == t then t ∷ ts else if is_lt (compare s t) then s ∷ t ∷ ts else further

-- `sorted(set(xs))`
unfoldable pub sorted_set : List String → List String
sorted_set [] = []
sorted_set (s ∷ ss) = add_text s (sorted_set ss)

-- `sorted(set(xs) - set(ys))`
unfoldable pub sorted_difference : List String → List String → List String
unfolding sorted_set
sorted_difference xs ys = sorted_set (keep (λ x. not (contains x ys)) xs)

-- `sorted({x for x in xs if xs.count(x) > 1})`
unfoldable pub sorted_repeated : List String → List String
unfolding sorted_set
sorted_repeated xs = sorted_set (keep (λ x. ltb 1 (count_if (λ y. y == x) xs)) xs)

-- `sorted(xs)` of texts
unfoldable pub sorted_texts : List String → List String
unfolding sort_by
sorted_texts xs = sort_by (λ s t. not (is_lt (compare t s))) xs

contains-add_text :
    (a s : String) (ts : List String) → contains a (add_text s ts) ≡ (a == s || contains a ts)
contains-add_text a s [] = refl
contains-add_text a s (t ∷ ts) =
    ground (arith, eq_iff s t, eq_iff a s, eq_iff a t, contains-add_text a s ts)

pub contains-sorted_set :
    (a : String) (ss : List String) → contains a (sorted_set ss) ≡ contains a ss
unfolding sorted_set
contains-sorted_set a [] = refl
contains-sorted_set a (s ∷ ss) =
    ground (arith, contains-add_text a s (sorted_set ss), contains-sorted_set a ss)

add_text-filled : (s : String) (ts : List String) → is_empty (add_text s ts) ≡ false
add_text-filled s [] = refl
add_text-filled s (t ∷ ts) = ground arith

-- A set is empty exactly if nothing went into it.
pub is_empty-sorted_set : (ss : List String) → is_empty (sorted_set ss) ≡ is_empty ss
unfolding sorted_set
is_empty-sorted_set [] = refl
is_empty-sorted_set (s ∷ ss) = add_text-filled s (sorted_set ss)

count_if-present :
    (xs : List String) (i : ℕ) (a : String)
    → get_elem? xs i ≡ some a
    → 0 < count_if (λ y. y == a) xs
count_if-present [] i a h = cc (h)
count_if-present (x ∷ xs) zero a h = let same : x ≡ a = cc (h) in ground (arith, eq_iff x a)
count_if-present (x ∷ xs) (suc i) a h = omega (arith, count_if-present xs i a h)

count_if-twice :
    (xs : List String) (i j : ℕ) (a : String)
    → i < j
    → get_elem? xs i ≡ some a
    → get_elem? xs j ≡ some a
    → 1 < count_if (λ y. y == a) xs
count_if-twice [] i j a lt h k = cc (h)
count_if-twice (x ∷ xs) i zero a lt h k = absurd (omega arith)
count_if-twice (x ∷ xs) zero (suc j) a lt h k =
    let same : x ≡ a = cc (h) in
    let more = count_if-present xs j a k in ground (arith, eq_iff x a, more)
count_if-twice (x ∷ xs) (suc i) (suc j) a lt h k =
    let more = count_if-twice xs i j a (omega arith) h k in omega (arith, more)

keep-none {ℓ} :
    {A : Type ℓ} (p : A → Bool) (xs : List A) (i : ℕ) (a : A)
    → is_empty (keep p xs) ≡ true
    → get_elem? xs i ≡ some a
    → p a ≡ false
keep-none p [] i a e h = cc (h)
keep-none p (x ∷ xs) zero a e h =
    let same : x ≡ a = cc (h) in
    elim (Bool-cases (p x)) [ inl t ↦ absurd (cc (rw t at e)) | inr f ↦ rw (← same) f ]
keep-none p (x ∷ xs) (suc i) a e h = elim (Bool-cases (p x)) [
  | inl t ↦ absurd (cc (rw t at e))
  | inr f ↦ keep-none p xs i a (rw f at e) h
]

once :
    (xs : List String) (i j : ℕ) (a : String)
    → is_empty (sorted_repeated xs) ≡ true
    → get_elem? xs i ≡ some a
    → get_elem? xs j ≡ some a
    → ¬ (i < j)
unfolding sorted_repeated
once xs i j a e h k lt =
    let none_twice = is_empty-sorted_set (keep (λ x. ltb 1 (count_if (λ y. y == x) xs)) xs) in
    let few = keep-none (λ x. ltb 1 (count_if (λ y. y == x) xs)) xs i a (sym none_twice ∙ e) h in
    let more = count_if-twice xs i j a lt h k in ground (arith, few, more)

-- Where no text is repeated, one text stands in one place.
pub sorted_repeated-distinct :
    (xs : List String) (i j : ℕ) (a : String)
    → is_empty (sorted_repeated xs) ≡ true
    → get_elem? xs i ≡ some a
    → get_elem? xs j ≡ some a
    → i ≡ j
sorted_repeated-distinct xs i j a e h k = omega (arith, once xs i j a e h k, once xs j i a e k h)
