-- ===== src/Contracts/Passing.antt =====
-- What it takes that a check reports no error.
use try_ops_try_on_mlops.Base.{
  String, string_eq, Bool, true, false, ◌≡◌, ◌≢◌, refl, some, List, [], ◌∷◌, ◌++◌, ◌⊎◌, inl, inr,
  contains, arith, Bool-cases, ◌==◌, ◌∙◌, sym, map, All,
}
use text.Mathlib.TextEquality.{eq_iff}
use try_ops_try_on_mlops.Base.Int.{ℤ, ◌≤ℤ◌}
use try_ops_try_on_mlops.Base.Result.{Result, raised, ok, ◌>>=◌}
use try_ops_try_on_mlops.Base.Dict.{Dict, lookup}
use try_ops_try_on_mlops.Quota.Ledger.{Plan, free, team, enterprise, supported_plan}
use try_ops_try_on_mlops.Routing.Alias.{resolve_model_alias, supported_vton_aliases}
use try_ops_try_on_mlops.Contracts.Checks.{
  FieldError, Checked, error_if, append_all, or_default, int_outside, also,
}
use try_ops_try_on_mlops.Contracts.Vton.{supported_quota_plans, vton_aliases}

pub append-empty : (xs ys : List FieldError) → xs ++ ys ≡ [] → (xs ≡ []) × (ys ≡ [])
append-empty [] ys h = (refl, h)
append-empty (x ∷ xs) ys h = cc

pub error_if-empty : (b : Bool) (field message : String) → error_if b field message ≡ [] → b ≡ false
error_if-empty true field message h = cc
error_if-empty false field message h = refl

-- A number on which no error is reported has passed the test.
pub also-passes :
    {A : Type 0} (bad : A → Bool) (field message : String) (x : Result (Checked A)) (c : Checked A)
    → also bad field message x ≡ ok c
    → c.1 ≡ []
    → bad c.0 ≡ false
also-passes bad field message (raised text) c h e = cc
also-passes bad field message (ok (n, errors)) c h e =
    let e0 : n ≡ c.0 = cc (h) in
    let e1 : errors ++ error_if (bad n) field message ≡ c.1 = cc (h) in
    let none_left = append-empty errors (error_if (bad n) field message) (e1 ∙ e) in
    rw (← e0) (error_if-empty (bad n) field message none_left.1)

pub append_all-All : (xss : List (List FieldError)) → append_all xss ≡ [] → All (λ xs. xs ≡ []) xss
append_all-All [] h = tt
append_all-All (xs ∷ xss) h =
    let (a, b) = append-empty xs (append_all xss) h in (a, append_all-All xss b)

-- A first step that does not raise, and what follows it.
pub bind_ok :
    {A B C : Type 0} (m : Result A) (f : A → Result B) (b : B)
    → (m >>= f) ≡ ok b
    → ((a : A) → m ≡ ok a → f a ≡ ok b → C)
    → C
bind_ok (raised text) f b h k = cc
bind_ok (ok a) f b h k = k a refl h

keyed_lookup :
    (k : String) (d : Dict String String)
    → contains k (map (λ entry. entry.0) d) ≡ true
    → (v : String) × (lookup k d ≡ some v)
keyed_lookup k [] h = cc
keyed_lookup k ((j, v) ∷ d) h = elim (Bool-cases (j == k)) [
  | inl e ↦ rw e (v, refl)
  | inr f ↦
      let other : (k == j) ≡ false = elim (Bool-cases (k == j)) [
        | inl t ↦
            let same : k ≡ j = (eq_iff k j).0 t in
            absurd (let back = (eq_iff j k).1 (sym same) in ground (arith, back, f))
        | inr e ↦ e
      ] in
      let (w, found) = keyed_lookup k d (ground (arith, h, other)) in rw f (w, found)
]

one_of :
    (x y : String) (ys : List String)
    → contains x (y ∷ ys) ≡ true
    → (x ≡ y) ⊎ (contains x ys ≡ true)
one_of x y ys h = elim (Bool-cases (x == y)) [
  | inl e ↦ inl ((eq_iff x y).0 e)
  | inr f ↦ inr (ground (arith, h, f))
]

pub alias-routed :
    (alias : String)
    → contains alias vton_aliases ≡ true
    → (adapter : String) × (resolve_model_alias "vton" alias ≡ ok adapter)
unfolding resolve_model_alias
alias-routed alias h =
    let (adapter, found) = keyed_lookup alias supported_vton_aliases h in
    (adapter, rw (found, resolve_model_alias) refl)

pub plan-supported :
    (plan : String)
    → contains plan supported_quota_plans ≡ true
    → (p : Plan) × (supported_plan plan ≡ some p)
plan-supported plan h = elim (one_of plan "enterprise" ("free" ∷ "team" ∷ []) h) [
  | inl e ↦ (enterprise, rw e refl)
  | inr h1 ↦ elim (one_of plan "free" ("team" ∷ []) h1) [
    | inl e ↦ (free, rw e refl)
    | inr h2 ↦ elim (one_of plan "team" [] h2) [ inl e ↦ (team, rw e refl) | inr h3 ↦ cc (h3) ]
  ]
]

abbrev pub IsBetween : ℤ → ℤ → ℤ → Type 0
IsBetween low high n = (low ≤ℤ n) × (n ≤ℤ high)

int_outside-IsBetween : (low high n : ℤ) → int_outside low high n ≡ false → IsBetween low high n
int_outside-IsBetween low high n h = ground (arith, h)

pub also-IsBetween :
    (low high : ℤ) (field message : String) (x : Result (Checked ℤ)) (c : Checked ℤ)
    → also (int_outside low high) field message x ≡ ok c
    → c.1 ≡ []
    → IsBetween low high c.0
also-IsBetween low high field message x c h e =
    int_outside-IsBetween low high c.0 (also-passes (int_outside low high) field message x c h e)

pub or_default-full : (t default : String) → default ≢ "" → or_default t default ≢ ""
or_default-full t default ne = elim (Bool-cases (t == "")) [
  | inl e ↦ rw e ne
  | inr f ↦ rw f (λ same. ground (arith, f, (eq_iff t "").1 same))
]
