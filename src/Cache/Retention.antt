-- ===== src/Cache/Retention.antt =====
-- What the semantic cache keeps: never more entries than it may, and always the newest.
use text.Mathlib.TextPositions.{eq_refl}
use try_ops_try_on_mlops.Base.{
  ℕ, zero, suc, ◌-◌, ◌≤◌, string_eq, true, not, ◌≡◌, some, List, [], ◌∷◌, ◌++◌, All, keep-All, drop,
  length, length-append, length-drop_add, arith, Bool-cases, inl, inr, ◌==◌, ltb,
}
use try_ops_try_on_mlops.Base.Int.{pos, ltb_ℤ}
use try_ops_try_on_mlops.Cache.Entries.{
  SemanticCacheEntry, SemanticCache, others, trimmed, put, find, get_generation,
}

module _ (Float : Type 0) where
  length-trimmed :
      (m : ℕ) (es : List (SemanticCacheEntry Float))
      → length (trimmed Float (pos (suc m)) es) ≤ suc m
  length-trimmed m es = elim (Bool-cases (ltb (suc m) (length es))) [
    | inl over ↦
        let rest = length-drop_add (length es - suc m) es (omega arith) in
        ground (arith, over, rest)
    | inr fits ↦ ground (arith, fits)
  ]

  -- The newest entry is found behind older ones with other ids, however many of these are dropped.
  find_newest :
      (e : SemanticCacheEntry Float) (k : ℕ) (es : List (SemanticCacheEntry Float))
      → All (λ x. not (x.id == e.id) ≡ true) es
      → k ≤ length es
      → find Float e.id (drop k (es ++ (e ∷ []))) ≡ some e.generation
  find_newest e zero [] h le = ground (arith, eq_refl e.id)
  find_newest e zero (x ∷ xs) h le =
      let rest = find_newest e zero xs h.1 (omega arith) in ground (arith, h.0, rest)
  find_newest e (suc k) [] h le = absurd (omega arith)
  find_newest e (suc k) (x ∷ xs) h le = find_newest e k xs h.1 (omega arith)

  -- A cache that may hold an entry finds what has just been put into it, also under an id that it had before,
  -- and holds no more entries than it may, however many it held.
  pub get_generation-put :
      (c : SemanticCache Float) (e : SemanticCacheEntry Float) (m : ℕ)
      → c.max_entries ≡ pos (suc m)
      → (get_generation Float (put Float e c) e.id ≡ some e.generation)
        × (length (put Float e c).entries ≤ suc m)
  unfolding put get_generation
  get_generation-put c e m max =
      let old = others Float e.id c.entries in
      let apart = keep-All (λ x. not (x.id == e.id)) c.entries in
      let long = length-append old (e ∷ []) in
      (
        rw max (elim (Bool-cases (ltb_ℤ (pos (suc m)) (pos (length (old ++ (e ∷ [])))))) [
          | inl over ↦
              rw over (find_newest e (length (old ++ (e ∷ [])) - suc m) old apart (omega arith))
          | inr fits ↦ rw fits (find_newest e 0 old apart (omega arith))
        ]),
        rw max (length-trimmed m (old ++ (e ∷ []))),
      )
