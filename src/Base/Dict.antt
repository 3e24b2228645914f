-- ===== src/Base/Dict.antt =====
-- Python's dict: keys with `==`, entries in the order of first insertion.
use Prim.Native.Nat.{◌+◌, ◌≤◌, ◌<◌}
use mathlib.Core.Path.{◌≡◌, refl}
use mathlib.Core.Logic.{inl, inr}
use mathlib.Core.Bool.{Bool, true, false}
use mathlib.Core.Option.{Option, none, some}
use mathlib.Core.List.{List, [], ◌∷◌}
use native.Mathlib.Omega.{arith}
use try_ops_try_on_mlops.Base.Tests.{Eq, ◌==◌, if◌then◌else◌, Bool-cases, beq_refl}
use try_ops_try_on_mlops.Base.Lists.{count_if}

abbrev pub Dict {ℓ κ} : Type ℓ → Type κ → Type (ℓ ⊔ κ)
Dict K V = List (K × V)

module _ {ℓ κ} {K : Type ℓ} {V : Type κ} ⦃e : Eq K⦄ where
  -- `d.get(k)`
  abbrev pub lookup : K → Dict K V → Option V
  lookup k [] = none
  lookup k ((j, v) ∷ d) = if j == k then some v else lookup k d

  -- `d.get(k, default)`
  abbrev pub get_or : K → V → Dict K V → V
  get_or k v d = elim (lookup k d) [ none ↦ v | some w ↦ w ]

  -- `k in d`
  abbrev pub has_key : K → Dict K V → Bool
  has_key k d = elim (lookup k d) [ none ↦ false | some w ↦ true ]

  -- `d[k] = v`: a new key goes to the end
  abbrev pub insert : K → V → Dict K V → Dict K V
  insert k v [] = (k, v) ∷ []
  insert k v ((j, w) ∷ d) = if j == k then (j, v) ∷ d else (j, w) ∷ insert k v d

  pub lookup-insert :
      (k j : K) (v : V) (d : Dict K V)
      → lookup j (insert k v d) ≡ (if k == j then some v else lookup j d)
  lookup-insert k j v [] = refl
  lookup-insert k j v ((i, w) ∷ d) =
      ground (arith, e.beq_iff k j, e.beq_iff i k, e.beq_iff i j, lookup-insert k j v d)

-- `d.values()`
abbrev pub values {ℓ κ} : {K : Type ℓ} {V : Type κ} → Dict K V → List V
values [] = []
values ((k, v) ∷ d) = v ∷ values d

module _ {ℓ κ} {K : Type ℓ} {V : Type κ} ⦃e : Eq K⦄ where
  -- A write to a key that is there moves the count by what it replaces.
  pub count_if-insert_present :
      (p : V → Bool) (k : K) (v : V) {old : V} (d : Dict K V)
      → lookup k d ≡ some old
      → count_if p (values (insert k v d)) + (if p old then 1 else 0)
        ≡ count_if p (values d) + (if p v then 1 else 0)
  count_if-insert_present p k v [] h = cc
  count_if-insert_present p k v {old = old} ((j, w) ∷ d) h = elim (Bool-cases (j == k)) [
    | inl same ↦ let q : w ≡ old = cc (h, same) in rw (same, q) (omega arith)
    | inr other ↦
        let ih = count_if-insert_present p k v {old = old} d (rw other at h) in
        rw other (omega (arith, ih))
  ]

  pub count_if-insert_new :
      (p : V → Bool) (k : K) (v : V) (d : Dict K V)
      → lookup k d ≡ none
      → count_if p (values (insert k v d)) ≡ count_if p (values d) + (if p v then 1 else 0)
  count_if-insert_new p k v [] h = omega arith
  count_if-insert_new p k v ((j, w) ∷ d) h = elim (Bool-cases (j == k)) [
    | inl same ↦ cc (rw same at h)
    | inr other ↦
        let ih = count_if-insert_new p k v d (rw other at h) in rw other (omega (arith, ih))
  ]

  -- `del d[k]`, `d.pop(k, None)`
  abbrev pub discard : K → Dict K V → Dict K V
  discard k [] = []
  discard k ((j, w) ∷ d) = let rest = discard k d in if j == k then rest else (j, w) ∷ rest

  pub lookup-discard :
      (k j : K) (d : Dict K V) → lookup j (discard k d) ≡ (if k == j then none else lookup j d)
  lookup-discard k j [] = ground arith
  lookup-discard k j ((i, w) ∷ d) =
      ground (arith, e.beq_iff k j, e.beq_iff i k, e.beq_iff i j, lookup-discard k j d)

  -- No key is listed twice.
  abbrev pub IsUnique : Dict K V → Type (ℓ ⊔ κ)
  IsUnique [] = Unit
  IsUnique ((k, v) ∷ d) = (lookup k d ≡ none) × IsUnique d

  pub insert-IsUnique : (k : K) (v : V) (d : Dict K V) → IsUnique d → IsUnique (insert k v d)
  insert-IsUnique k v [] h = (refl, tt)
  insert-IsUnique k v ((j, w) ∷ d) h = elim (Bool-cases (j == k)) [
    | inl same ↦ rw same h
    | inr other ↦ rw other (
      ground (arith, lookup-insert k j v d, e.beq_iff k j, e.beq_iff j k, h.0),
      insert-IsUnique k v d h.1,
    )
  ]

  pub count_if-discard_le :
      (p : V → Bool) (k : K) (d : Dict K V)
      → count_if p (values (discard k d)) ≤ count_if p (values d)
  count_if-discard_le p k [] = omega arith
  count_if-discard_le p k ((j, w) ∷ d) = ground (arith, count_if-discard_le p k d)

  pub count_if-discard_lt :
      (p : V → Bool) (k : K) (v : V) (d : Dict K V)
      → lookup k d ≡ some v
      → p v ≡ true
      → count_if p (values (discard k d)) < count_if p (values d)
  count_if-discard_lt p k v [] h t = cc
  count_if-discard_lt p k v ((j, w) ∷ d) h t =
      ground (arith, count_if-discard_lt p k v d, count_if-discard_le p k d)

  pub discard-IsUnique : (k : K) (d : Dict K V) → IsUnique d → IsUnique (discard k d)
  discard-IsUnique k [] h = tt
  discard-IsUnique k ((j, w) ∷ d) h = elim (Bool-cases (j == k)) [
    | inl same ↦ rw same (discard-IsUnique k d h.1)
    | inr other ↦ rw other (ground (arith, lookup-discard k j d, h.0), discard-IsUnique k d h.1)
  ]

  -- A value that is counted stands under some key.
  pub lookup-count_if :
      (p : V → Bool) (d : Dict K V)
      → IsUnique d
      → 0 < count_if p (values d)
      → (k : K) × (v : V) × (lookup k d ≡ some v) × (p v ≡ true)
  lookup-count_if p [] h some_there = absurd (omega (arith, some_there))
  lookup-count_if p ((j, w) ∷ d) h some_there = elim (Bool-cases (p w)) [
    | inl t ↦ (j, w, rw (beq_refl j) refl, t)
    | inr f ↦
        let (k, v, found, good) = lookup-count_if p d h.1 (ground (arith, some_there, f)) in
        elim (Bool-cases (j == k)) [
          | inl same ↦ absurd (let eq : j ≡ k = (e.beq_iff j k).0 same in cc (found, h.0, eq))
          | inr other ↦ (k, v, rw other found, good)
        ]
  ]

-- Where each key whose value passes `p` in `d` has a value that passes `q` in `c`, no more values
-- pass `p` than `q`.
module _ {ℓ κ μ} {K : Type ℓ} {V : Type κ} {W : Type μ} ⦃e : Eq K⦄ (p : V → Bool)
    (q : W → Bool) where
  abbrev pub Covers : Dict K W → Dict K V → Type (ℓ ⊔ κ ⊔ μ)
  Covers c d =
      (k : K) (v : V)
      → lookup k d ≡ some v
      → p v ≡ true
      → (w : W) × (lookup k c ≡ some w) × (q w ≡ true)

  Covers-tail :
      (c : Dict K W) (k : K) (v : V) (d : Dict K V)
      → lookup k d ≡ none
      → Covers c ((k, v) ∷ d)
      → Covers (discard k c) d
  Covers-tail c k v d fresh h j u found t = elim (Bool-cases (k == j)) [
    | inl same ↦ absurd (let eq : k ≡ j = (e.beq_iff k j).0 same in cc (found, fresh, eq))
    | inr other ↦
        let (w, there, good) = h j u (rw other found) t in
        (w, rw (lookup-discard, other) there, good)
  ]

  pub count_if-Covers :
      (c : Dict K W) (d : Dict K V)
      → IsUnique d
      → Covers c d
      → count_if p (values d) ≤ count_if q (values c)
  count_if-Covers c [] u h = omega arith
  count_if-Covers c ((k, v) ∷ d) u h =
      let ih = count_if-Covers (discard k c) d u.1 (Covers-tail c k v d u.0 h) in
      elim (Bool-cases (p v)) [
        | inl t ↦
            let (w, there, good) = h k v (rw (beq_refl k)) t in
            rw t (omega (arith, ih, count_if-discard_lt q k w c there good))
        | inr f ↦ rw f (omega (arith, ih, count_if-discard_le q k c))
      ]
