-- ===== src/Auth/Search.antt =====
-- Which entry `_find_active_key_by_hash` finds.
use mathlib.Core.Path.{subst}
use text.Mathlib.TextEquality.{eq_iff}
use try_ops_try_on_mlops.Base.{
  ℕ, zero, suc, ◌<◌, String, string_eq, true, false, ◌&&◌, ◌≡◌, refl, Option, some, List, [], ◌∷◌,
  get_elem?, arith, Bool-cases, inl, inr, ◌==◌,
}
use try_ops_try_on_mlops.Base.Json.{Json}
use try_ops_try_on_mlops.Base.Python.{Python}
use try_ops_try_on_mlops.Base.Result.{Result, ok, >>=-eq-ok}
use try_ops_try_on_mlops.Auth.Keys.{KeyEntry, normalize_entry, find_active_key_by_hash}

module _ (py : Python) where
  abbrev pub Active : String → Json → KeyEntry → Type 0
  Active key_hash entry e =
      (normalize_entry py entry ≡ ok e) × (e.active ≡ true) × (e.key_hash_sha256 ≡ key_hash)

  -- An entry of the list is active and has the hash, and no entry in front of it does.
  pub record First (key_hash : String) (entries : List Json) (e : KeyEntry) : Type 0 where
    pub index : ℕ
    pub entry : Json
    pub found : get_elem? entries index ≡ some entry
    pub active : Active key_hash entry e
    pub before :
        (j : ℕ) (other : Json)
        → j < index
        → get_elem? entries j ≡ some other
        → (e' : KeyEntry) → ¬ Active key_hash other e'

  before-cons :
      (key_hash : String) (entry : Json) (entries : List Json) (n : ℕ)
      → ((e' : KeyEntry) → ¬ Active key_hash entry e')
      → ((j : ℕ) (other : Json)
          → j < n
          → get_elem? entries j ≡ some other
          → (e' : KeyEntry) → ¬ Active key_hash other e')
      → (j : ℕ) (other : Json) → j < suc n
      → get_elem? (entry ∷ entries) j ≡ some other
      → (e' : KeyEntry) → ¬ Active key_hash other e'
  before-cons key_hash entry entries n miss rest zero other lt at e' =
      let same : entry ≡ other = cc (at) in rw (← same) (miss e')
  before-cons key_hash entry entries n miss rest (suc j) other lt at e' =
      rest j other (omega arith) at e'

  -- One round of the loop, on what the entry was read as.
  round :
      (key_hash : String) (entry : Json) (entries : List Json) (e x : KeyEntry)
      → normalize_entry py entry ≡ ok x
      → (elim (x.active && x.key_hash_sha256 == key_hash) as (λ _. Result (Option KeyEntry)) [
        | true ↦ ok (some x)
        | false ↦ find_active_key_by_hash py key_hash entries
      ])
        ≡ ok (some e)
      → (find_active_key_by_hash py key_hash entries ≡ ok (some e) → First key_hash entries e)
      → First key_hash (entry ∷ entries) e
  round key_hash entry entries e x read h more =
      elim (Bool-cases (x.active && x.key_hash_sha256 == key_hash)) [
        | inl hit ↦
            let same : x ≡ e = let hh = (rw hit at h) in cc (hh) in
            let on : x.active ≡ true = ground arith in
            let eq : x.key_hash_sha256 ≡ key_hash =
              ground (arith, eq_iff x.key_hash_sha256 key_hash) in
            record {
              index = 0;
              entry = entry;
              found = refl;
              active = subst (λ y. Active key_hash entry y) same (read, on, eq);
              before = λ j other lt. absurd (omega arith);
            }
        | inr miss ↦
            let rest = more (rw miss at h) in
            record {
              index = suc rest.index;
              entry = rest.entry;
              found = rest.found;
              active = rest.active;
              before =
                  before-cons key_hash entry entries rest.index
                    (λ e' a.
                      let same : x ≡ e' = let r = a.0 in cc (read, r) in
                      let hit : (x.active && x.key_hash_sha256 == key_hash) ≡ true =
                        ground (arith, same, a.1, a.2, eq_iff e'.key_hash_sha256 key_hash) in
                      cc (hit, miss))
                    rest.before;
            }
      ]

  pub find-First :
      (key_hash : String) (entries : List Json) (e : KeyEntry)
      → find_active_key_by_hash py key_hash entries ≡ ok (some e)
      → First key_hash entries e
  unfolding find_active_key_by_hash
  find-First key_hash [] e h = absurd (cc (h))
  find-First key_hash (entry ∷ entries) e h =
      let (x, read, h') =
        >>=-eq-ok (normalize_entry py entry)
          (λ x. elim (x.active && x.key_hash_sha256 == key_hash) [
            | true ↦ ok (some x)
            | false ↦ find_active_key_by_hash py key_hash entries
          ])
          (some e) h in
      round key_hash entry entries e x read h' (find-First key_hash entries e)
