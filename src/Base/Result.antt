-- ===== src/Base/Result.antt =====
-- What a Python call comes to: a value, or an exception by its text.
use Prim.Native.String.{String}
use mathlib.Core.Path.{◌≡◌, refl}
use mathlib.Core.Bool.{Bool, true, false}
use mathlib.Core.Option.{Option, none, some}
use mathlib.Core.List.{List, [], ◌∷◌}
use Prim.Native.Nat.{ℕ, zero, suc}
use try_ops_try_on_mlops.Base.Lists.{get_elem?}

pub data Result {ℓ} (A : Type ℓ) : Type ℓ where
  raised : String → Result A
  ok : A → Result A

infixl 5 ◌>>=◌ ◌>>◌
abbrev pub ◌>>=◌ {ℓ κ} : {A : Type ℓ} {B : Type κ} → Result A → (A → Result B) → Result B
raised text >>= f = raised text
ok a >>= f = f a

abbrev pub ◌>>◌ {ℓ} : {B : Type ℓ} → Result (Unit {0}) → Result B → Result B
m >> k = m >>= λ _. k

-- `if test: raise ...`
abbrev pub raise_if : Bool → String → Result (Unit {0})
raise_if true text = raised text
raise_if false text = ok tt

abbrev pub or_raise {ℓ} : {A : Type ℓ} → Option A → String → Result A
or_raise none text = raised text
or_raise (some a) text = ok a

pub >>=-eq-ok {ℓ κ} :
    {A : Type ℓ} {B : Type κ} (m : Result A) (f : A → Result B) (b : B)
    → (m >>= f) ≡ ok b
    → (a : A) × (m ≡ ok a) × (f a ≡ ok b)
>>=-eq-ok (raised text) f b h = cc
>>=-eq-ok (ok a) f b h = (a, refl, h)

-- `[f(x) for x in xs]`, up to the first exception
abbrev pub traverse {ℓ κ} : {A : Type ℓ} {B : Type κ} → (A → Result B) → List A → Result (List B)
traverse f [] = ok []
traverse f (x ∷ xs) = f x >>= λ y. traverse f xs >>= λ ys. ok (y ∷ ys)

pub get_elem?-traverse {ℓ κ} :
    {A : Type ℓ} {B : Type κ} (f : A → Result B) (xs : List A) (ys : List B) (i : ℕ) (x : A) (y : B)
    → traverse f xs ≡ ok ys
    → get_elem? xs i ≡ some x
    → f x ≡ ok y
    → get_elem? ys i ≡ some y
get_elem?-traverse f [] ys i x y h at fx = cc (at)
get_elem?-traverse f (w ∷ xs) ys zero x y h at fx =
    let (v, read, h1) = >>=-eq-ok (f w) (λ v. traverse f xs >>= λ vs. ok (v ∷ vs)) ys h in
    let (vs, rest, h2) = >>=-eq-ok (traverse f xs) (λ vs. ok (v ∷ vs)) ys h1 in
    let made : v ∷ vs ≡ ys = cc (h2) in let same : v ≡ y = cc (read, at, fx) in rw (← made, same)
get_elem?-traverse f (w ∷ xs) ys (suc i) x y h at fx =
    let (v, read, h1) = >>=-eq-ok (f w) (λ v. traverse f xs >>= λ vs. ok (v ∷ vs)) ys h in
    let (vs, rest, h2) = >>=-eq-ok (traverse f xs) (λ vs. ok (v ∷ vs)) ys h1 in
    let made : v ∷ vs ≡ ys = cc (h2) in rw (← made) (get_elem?-traverse f xs vs i x y rest at fx)
