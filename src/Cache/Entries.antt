-- ===== src/Cache/Entries.antt =====
-- src/tryops/semantic_cache.py: `SemanticCache`, its `put`, `get_generation` and `reset`. The entry that
-- `build_semantic_cache_entry` makes is an argument of `put`; the search by likeness is a native program.
use try_ops_try_on_mlops.Base.{
  zero, suc, ◌-◌, String, string_eq, not, Option, none, some, List, [], ◌∷◌, ◌++◌, keep, drop,
  length, if◌then◌else◌, ◌==◌,
}
use try_ops_try_on_mlops.Base.Int.{ℤ, pos, negsuc, ltb_ℤ}
use try_ops_try_on_mlops.Base.Json.{Fields}

-- `Float` is the type of Python's floats.
pub record SemanticCacheEntry (Float : Type 0) : Type 0 where
  pub id : String
  pub prompt : String
  pub generation : Fields
  pub input_tokens : ℤ
  pub output_tokens : ℤ
  pub cost_usd : Float
  pub energy_wh : Float

pub record SemanticCache (Float : Type 0) : Type 0 where
  pub threshold : Float
  pub max_entries : ℤ
  pub entries : List (SemanticCacheEntry Float)

-- `xs[-n:]` for an `n` below `len(xs)`: a start of -0 is the start of the list.
abbrev pub last_entries {ℓ} : {A : Type ℓ} → ℤ → List A → List A
last_entries (pos zero) xs = xs
last_entries (pos (suc n)) xs = drop (length xs - suc n) xs
last_entries (negsuc n) xs = drop (suc n) xs

module _ (Float : Type 0) where
  -- the entries without that of an id
  abbrev pub others : String → List (SemanticCacheEntry Float) → List (SemanticCacheEntry Float)
  others id es = keep (λ x. not (x.id == id)) es

  abbrev pub trimmed : ℤ → List (SemanticCacheEntry Float) → List (SemanticCacheEntry Float)
  trimmed max_entries es =
      if ltb_ℤ max_entries (pos (length es)) then last_entries max_entries es else es

  unfoldable pub put : SemanticCacheEntry Float → SemanticCache Float → SemanticCache Float
  put entry c = record c {
    entries = trimmed c.max_entries (others entry.id c.entries ++ (entry ∷ []));
  }

  abbrev pub find : String → List (SemanticCacheEntry Float) → Option Fields
  find id [] = none
  find id (x ∷ xs) = if x.id == id then some x.generation else find id xs

  unfoldable pub get_generation : SemanticCache Float → String → Option Fields
  get_generation c id = find id c.entries

  unfoldable pub reset : SemanticCache Float → SemanticCache Float
  reset c = record c { entries = [] }
