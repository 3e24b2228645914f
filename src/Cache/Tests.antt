-- ===== src/Cache/Tests.antt =====
-- The cache at concrete entries. A float is a number.
use try_ops_try_on_mlops.Base.{ℕ, ◌≤◌, String, string_eq, ◌≡◌, refl, some, [], ◌∷◌, length, map}
use try_ops_try_on_mlops.Base.Int.{ℤ, pos}
use try_ops_try_on_mlops.Base.Json.{str, field, end}
use try_ops_try_on_mlops.Cache.Entries.{SemanticCacheEntry, SemanticCache, put, get_generation}
use try_ops_try_on_mlops.Cache.Retention.{get_generation-put}

abbrev entry : String → String → SemanticCacheEntry ℕ
entry id text = record {
  id = id;
  prompt = text;
  generation = field "output" (str text) end;
  input_tokens = pos 1;
  output_tokens = pos 1;
  cost_usd = 0;
  energy_wh = 0;
}

abbrev cache : ℤ → SemanticCache ℕ
cache max_entries = record {
  threshold = 0;
  max_entries = max_entries;
  entries = entry "a" "one" ∷ entry "b" "two" ∷ [];
}

get_generation-put_example :
    (get_generation ℕ (put ℕ (entry "c" "three") (cache (pos 2))) "c"
      ≡ some (field "output" (str "three") end))
    × (length (put ℕ (entry "c" "three") (cache (pos 2))).entries ≤ 2)
get_generation-put_example = get_generation-put ℕ (cache (pos 2)) (entry "c" "three") 1 refl

oldest_is_dropped :
    map (λ x. x.id) (put ℕ (entry "c" "three") (cache (pos 2))).entries ≡ "b" ∷ "c" ∷ []
unfolding put
oldest_is_dropped = refl

-- With no room nothing is dropped.
no_room_drops_nothing : length (put ℕ (entry "c" "three") (cache (pos 0))).entries ≡ 3
unfolding put
no_room_drops_nothing = refl
