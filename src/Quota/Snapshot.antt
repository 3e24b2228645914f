-- ===== src/Quota/Snapshot.antt =====
-- src/tryops/quota.py: `UsageQuotaLedger.snapshot` and `reset`.
use Prim.Native.String.{compare}
use text.Mathlib.Text.{is_lt}
use try_ops_try_on_mlops.Base.{ℕ, String, string_eq, Bool, not, List, [], map, if◌then◌else◌, ◌==◌}
use try_ops_try_on_mlops.Base.Sort.{insert_by, sort_by}
use try_ops_try_on_mlops.Quota.Ledger.{
  Dimension, llm_requests_per_day, llm_tokens_per_day, vton_requests_per_day, Key, Ledger,
}

pub record Usage : Type 0 where
  pub period : String
  pub user_hash : String
  pub dimension : Dimension
  pub used : ℕ

abbrev dimension_text : Dimension → String
dimension_text llm_requests_per_day = "llm_requests_per_day"
dimension_text llm_tokens_per_day = "llm_tokens_per_day"
dimension_text vton_requests_per_day = "vton_requests_per_day"

-- `<` on the keys as triples
abbrev key_lt : Key → Key → Bool
key_lt (p, (u, d)) (p', (u', d')) =
    if p == p'
    then (if u == u'
        then is_lt (compare (dimension_text d) (dimension_text d'))
        else is_lt (compare u u'))
    else is_lt (compare p p')

-- `sorted(self._usage.items())`: the keys are distinct, so that the counts are not compared
unfoldable pub snapshot_usage : Ledger → List Usage
unfolding sort_by insert_by
snapshot_usage l =
    map
      (λ entry. record {
        period = entry.0.0;
        user_hash = entry.0.1.0;
        dimension = entry.0.1.1;
        used = entry.1;
      })
      (sort_by (λ a b. not (key_lt b.0 a.0)) l)

unfoldable pub reset_usage : Ledger → Ledger
reset_usage l = []
