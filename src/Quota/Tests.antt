-- ===== src/Quota/Tests.antt =====
-- Quota checks at concrete inputs. The hash is the identity.
use try_ops_try_on_mlops.Base.Sort.{sort_by, insert_by}
use try_ops_try_on_mlops.Base.{
  map, ℕ, ◌≤◌, String, string_eq, pair_eq, true, ◌≡◌, ◌⊎◌, refl, some, List, [], ◌∷◌, arith,
}
use try_ops_try_on_mlops.Base.Int.{pos}
use try_ops_try_on_mlops.Base.Json.{Fields, bool, str, obj, end, field}
use try_ops_try_on_mlops.Base.Text.{strip, rstrip_by}
use try_ops_try_on_mlops.Quota.Ledger.{
  Plan, free, team, enterprise, Dimension, llm_requests_per_day, llm_tokens_per_day,
  vton_requests_per_day, dimension_eq, Key, QuotaRequest, QuotaError, Decision, decided,
  value_error, Ledger, used, plan_limits, user_hash, check_and_record,
}
use try_ops_try_on_mlops.Quota.Decisions.{
  Decides, IsSupported, check_and_record-Decides, check_and_record_total,
}
use try_ops_try_on_mlops.Quota.Accounting.{Call, run, Limited, used-le-limit}
use try_ops_try_on_mlops.Quota.Snapshot.{snapshot_usage, reset_usage}
use try_ops_try_on_mlops.Quota.Gateway.{parsed, check_gateway_quota}

abbrev digest : String → String
digest s = s

abbrev vton : String → String → ℕ → QuotaRequest
vton user plan units = record {
  user_id = user;
  plan = plan;
  workload = "vton";
  request_units = pos units;
  estimated_tokens = pos 0;
}

abbrev call : QuotaRequest → Call
call r = record { request = r; period = "2026-01-01"; recording = true }

abbrev key : Dimension → Key
key d = ("2026-01-01", ("alice", d))

-- Alice asks for three units twice, and Bob for many.
abbrev calls : List Call
calls =
    call (vton "alice" "free" 3)
    ∷ call (vton " alice " "free" 3)
    ∷ call (vton "bob" "enterprise" 900)
    ∷ []

free_limit :
    (plan : Plan) (d : Dimension)
    → some free ≡ some plan
    → key d ≡ key vton_requests_per_day
    → plan_limits plan d ≤ 5
free_limit free vton_requests_per_day e k = omega arith
free_limit free llm_requests_per_day e k = absurd (cc (k))
free_limit free llm_tokens_per_day e k = absurd (cc (k))
free_limit team d e k = absurd (cc (e))
free_limit enterprise d e k = absurd (cc (e))

not_alice :
    (plan : Plan) (d : Dimension)
    → ("2026-01-01", ("bob", d)) ≡ key vton_requests_per_day
    → plan_limits plan d ≤ 5
not_alice plan d k = absurd (cc (k))

calls-Limited : Limited digest (key vton_requests_per_day) 5 calls
unfolding user_hash strip
calls-Limited = (free_limit, (free_limit, (λ plan d e k. not_alice plan d k, tt)))

used-le-limit_example : used (run digest [] calls) (key vton_requests_per_day) ≤ 5
used-le-limit_example = used-le-limit digest (key vton_requests_per_day) 5 calls calls-Limited

abbrev supported : IsSupported (vton "alice" "free" 3) free 3 0
supported = record { plan_eq = refl; workload_eq = refl; units_eq = refl; tokens_eq = refl }

check_and_record-Decides_example :
    (d : Decision) × (l' : Ledger) × (check_and_record digest
        ((key vton_requests_per_day, 3) ∷ [])
        (vton "alice" "free" 3)
        "2026-01-01"
        true
      ≡ (decided d, l'))
    × Decides free "2026-01-01"
        (user_hash digest "alice")
        "vton"
        3
        0
        true
        ((key vton_requests_per_day, 3) ∷ [])
        l'
        d
check_and_record-Decides_example =
    check_and_record-Decides digest ((key vton_requests_per_day, 3) ∷ []) (vton "alice" "free" 3)
      "2026-01-01" true free 3 0 supported

check_and_record_total_example :
    ((plan : Plan) × (units : ℕ) × (tokens : ℕ) × IsSupported
        (vton "alice" "gold" 3)
        plan
        units
        tokens)
    ⊎ ((e : QuotaError) × (check_and_record digest [] (vton "alice" "gold" 3) "2026-01-01" true
          ≡ (value_error e, [])))
check_and_record_total_example =
    check_and_record_total digest [] (vton "alice" "gold" 3) "2026-01-01" true

abbrev decision : Fields
decision = field "schema_version" (str "tryops.quota_decision.v1") (field "allowed" (bool true) end)

decision_accepted : check_gateway_quota "http://quota/" (parsed (obj decision)) ≡ some decision
unfolding check_gateway_quota strip rstrip_by
decision_accepted = refl

days_in_order :
    map {B = ℕ}
      (λ u. u.used)
      (snapshot_usage (
        (("2026-01-02", ("a", vton_requests_per_day)), 3)
        ∷ (("2026-01-01", ("b", llm_tokens_per_day)), 2)
        ∷ (("2026-01-01", ("a", vton_requests_per_day)), 1)
        ∷ []))
    ≡ 1 ∷ 2 ∷ 3 ∷ []
unfolding snapshot_usage sort_by insert_by
days_in_order = refl

cleared : snapshot_usage (reset_usage ((("2026-01-01", ("a", vton_requests_per_day)), 1) ∷ [])) ≡ []
unfolding snapshot_usage reset_usage sort_by
cleared = refl
