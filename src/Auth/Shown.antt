-- ===== src/Auth/Shown.antt =====
-- Which items stand in the list from which `build_rbac_session` makes its navigation.
use try_ops_try_on_mlops.Base.{
  String, string_eq, Bool, true, false, ◌&&◌, ◌||◌, ◌≡◌, ◌∙◌, refl, List, [], ◌∷◌, contains, ◌==◌,
  arith, ◌++◌, All, contains-append, Bool-cases, inl, inr, if◌then◌else◌,
}
use try_ops_try_on_mlops.Base.Sort.{insert_by, sort_by}
use try_ops_try_on_mlops.Auth.Session.{
  nav_items, extend_nav, scope_nav_items, public_nav_items, remove,
}

contains-insert_by :
    (front : String → String → Bool) (a x : String) (xs : List String)
    → contains a (insert_by front x xs) ≡ (a == x || contains a xs)
unfolding insert_by
contains-insert_by front a x [] = refl
contains-insert_by front a x (y ∷ ys) = ground (arith, contains-insert_by front a x ys)

pub contains-sort_by :
    (front : String → String → Bool) (a : String) (xs : List String)
    → contains a (sort_by front xs) ≡ contains a xs
unfolding sort_by
contains-sort_by front a [] = refl
contains-sort_by front a (x ∷ xs) =
    ground (arith, contains-insert_by front a x (sort_by front xs), contains-sort_by front a xs)

-- the items that a navigation can have
abbrev pub known_items : List String
known_items =
    "vton" ∷ "account" ∷ "llm" ∷ "dashboard" ∷ "history" ∷ "runs" ∷ "registry" ∷ "evaluations"
    ∷ "experiments" ∷ "governance" ∷ "incidents" ∷ []

contains-remove :
    (a x : String) (xs : List String) → contains a xs ≡ false → contains a (remove x xs) ≡ false
contains-remove a x [] h = refl
contains-remove a x (y ∷ ys) h =
    let rest : contains a ys ≡ false = ground arith in
    let less = contains-remove a x ys rest in ground arith

unless_removed :
    (a x : String) (xs : List String) (keep : Bool)
    → contains a xs ≡ false
    → contains a (if keep then xs else remove x xs) ≡ false
unless_removed a x xs true h = h
unless_removed a x xs false h = contains-remove a x xs h

-- The loop over the scopes adds the items of its table only.
extend_nav-misses :
    (a : String) (scopes : List String) (table : List (String × List String)) (nav : List String)
    → contains a nav ≡ false
    → All (λ entry. contains a entry.1 ≡ false) table
    → contains a (extend_nav scopes table nav) ≡ false
extend_nav-misses a scopes [] nav h k = h
extend_nav-misses a scopes ((scope, items) ∷ rest) nav h k =
    elim (Bool-cases (contains scope scopes)) [
      | inl granted ↦
          let both : contains a (nav ++ items) ≡ false =
            contains-append a nav items ∙ rw (h, k.0) refl in
          rw granted (extend_nav-misses a scopes rest (nav ++ items) both k.1)
      | inr denied ↦ rw denied (extend_nav-misses a scopes rest nav h k.1)
    ]

module _ (scopes : List String) (reads runs : Bool) where
  unfoldable pub shown : String → Bool
  shown item = contains item (nav_items scopes reads runs)

  pub shown-vton : shown "vton" ≡ true
  unfolding shown
  shown-vton = ground arith

  pub shown-account : shown "account" ≡ (contains "account:read" scopes && reads)
  unfolding shown
  shown-account = ground arith

  pub shown-llm : shown "llm" ≡ (contains "account:read" scopes && runs)
  unfolding shown
  shown-llm = ground arith

  pub shown-dashboard : shown "dashboard" ≡ contains "admin:read" scopes
  unfolding shown
  shown-dashboard = ground arith

  pub shown-history : shown "history" ≡ contains "admin:read" scopes
  unfolding shown
  shown-history = ground arith

  pub shown-runs : shown "runs" ≡ contains "admin:read" scopes
  unfolding shown
  shown-runs = ground arith

  pub shown-registry : shown "registry" ≡ contains "admin:read" scopes
  unfolding shown
  shown-registry = ground arith

  pub shown-evaluations : shown "evaluations" ≡ contains "admin:read" scopes
  unfolding shown
  shown-evaluations = ground arith

  pub shown-experiments : shown "experiments" ≡ contains "admin:read" scopes
  unfolding shown
  shown-experiments = ground arith

  pub shown-governance : shown "governance" ≡ contains "lineage:read" scopes
  unfolding shown
  shown-governance = ground arith

  pub shown-incidents : shown "incidents" ≡ contains "promotion:evaluate" scopes
  unfolding shown
  shown-incidents = ground arith

  pub shown-known : (item : String) → contains item known_items ≡ false → shown item ≡ false
  unfolding shown
  shown-known item h =
      let all = extend_nav scopes scope_nav_items public_nav_items in
      let none_in : contains item all ≡ false =
        extend_nav-misses item scopes scope_nav_items public_nav_items (ground arith)
          (ground arith, (ground arith, (ground arith, (ground arith, tt)))) in
      let less : contains item (if reads then all else remove "account" all) ≡ false =
        unless_removed item "account" all reads none_in in
      unless_removed item "llm" (if reads then all else remove "account" all) runs less
