-- ===== src/Quota/Ledger.antt =====
-- src/tryops/quota.py: `UsageQuotaLedger`. SHA-256 is a parameter, and so is the day (`_period_key`).
-- The increments are Python ints, read as naturals once they are known not to be negative.
use try_ops_try_on_mlops.Base.{
  ℕ, ◌+◌, ◌-◌, leb, String, string_eq, pair_eq, Eq, Bool, true, false, ◌&&◌, ◌||◌, ◌≡◌, ◌↔◌, Option,
  none, some, List, [], ◌∷◌, map, all, arith, if◌then◌else◌, ◌==◌,
}
use try_ops_try_on_mlops.Base.Int.{ℤ, pos}
use try_ops_try_on_mlops.Base.Dict.{Dict, lookup, get_or, insert}
use try_ops_try_on_mlops.Base.Text.{strip}

pub data Plan : Type 0 where
  free team enterprise : Plan

pub data Dimension : Type 0 where
  llm_requests_per_day llm_tokens_per_day vton_requests_per_day : Dimension

abbrev dimension_beq : Dimension → Dimension → Bool
dimension_beq llm_requests_per_day llm_requests_per_day = true
dimension_beq llm_tokens_per_day llm_tokens_per_day = true
dimension_beq vton_requests_per_day vton_requests_per_day = true
dimension_beq _ _ = false

pub dimension_beq_iff : (a b : Dimension) → (dimension_beq a b ≡ true) ↔ (a ≡ b)
dimension_beq_iff a b = (λ h. ground arith, λ h. ground arith)

instance abbrev pub dimension_eq : Eq Dimension
dimension_eq = record { beq = dimension_beq; beq_iff = dimension_beq_iff }

-- `PLAN_LIMITS`
abbrev pub plan_limits : Plan → Dimension → ℕ
plan_limits free llm_requests_per_day = 20
plan_limits free llm_tokens_per_day = 5_000
plan_limits free vton_requests_per_day = 5
plan_limits team llm_requests_per_day = 500
plan_limits team llm_tokens_per_day = 250_000
plan_limits team vton_requests_per_day = 100
plan_limits enterprise llm_requests_per_day = 50_000
plan_limits enterprise llm_tokens_per_day = 25_000_000
plan_limits enterprise vton_requests_per_day = 10_000

pub record QuotaRequest : Type 0 where
  pub user_id : String
  pub plan : String
  pub workload : String
  pub request_units : ℤ
  pub estimated_tokens : ℤ

-- (period, user hash, dimension)
abbrev pub Key : Type 0
Key = String × (String × Dimension)

abbrev pub Ledger : Type 0
Ledger = Dict Key ℕ

-- what `self._usage[key]` reads of a `defaultdict(int)`
abbrev pub used : Ledger → Key → ℕ
used l k = get_or k 0 l

-- ... and writes: a missing key is entered with 0
abbrev pub touch : Key → Ledger → Ledger
touch k l = elim (lookup k l) [ none ↦ insert k 0 l | some n ↦ l ]

-- the texts of the three `ValueError`s
pub data QuotaError : Type 0 where
  unsupported_plan : String → QuotaError
  unsupported_workload : String → QuotaError
  negative_usage : QuotaError

-- one entry of `checks`, with the two fields that the returned decision adds
pub record Check : Type 0 where
  pub dimension : Dimension
  pub limit : ℕ
  pub used_before : ℕ
  pub increment : ℕ
  pub remaining_before : ℕ
  pub allowed : Bool

pub record ReportedCheck : Type 0 where
  pub check : Check
  pub used_after : ℕ
  pub remaining_after : ℕ

pub data Reason : Type 0 where
  within_quota quota_exceeded : Reason

pub record Decision : Type 0 where
  pub allowed : Bool
  pub period : String
  pub user_hash : String
  pub plan : Plan
  pub workload : String
  pub checks : List ReportedCheck
  pub recorded : Bool
  pub reason : Reason

pub data Answer : Type 0 where
  decided : Decision → Answer
  value_error : QuotaError → Answer

-- `plan not in SUPPORTED_QUOTA_PLANS` is `none`
abbrev pub supported_plan : String → Option Plan
supported_plan s =
    if s == "free"
    then some free
    else if s == "team"
    then some team
    else if s == "enterprise"
    then some enterprise
    else none

-- `_usage_dimensions`, of the two amounts
abbrev pub usage_dimensions : String → ℕ → ℕ → List (Dimension × ℕ)
usage_dimensions workload units tokens =
    if workload == "llm"
    then (llm_requests_per_day, units) ∷ (llm_tokens_per_day, tokens) ∷ []
    else (vton_requests_per_day, units) ∷ []

abbrev pub make_check : Plan → Ledger → Key → Dimension × ℕ → Check
make_check plan l k (dimension, increment) = record {
  dimension = dimension;
  limit = plan_limits plan dimension;
  used_before = used l k;
  increment = increment;
  remaining_before = plan_limits plan dimension - used l k;
  allowed = leb (used l k + increment) (plan_limits plan dimension);
}

-- the `for` loop that fills `checks`
unfoldable pub run_checks :
    Plan → String → String → Ledger → List (Dimension × ℕ) → List Check × Ledger
run_checks plan period user l [] = ([], l)
run_checks plan period user l (d ∷ ds) =
    let k : Key = (period, (user, d.0)) in
    let (checks, l') = run_checks plan period user (touch k l) ds in
    (make_check plan l k d ∷ checks, l')

-- the `for` loop that records
unfoldable pub record_usage : String → String → Ledger → List Check → Ledger
record_usage period user l [] = l
record_usage period user l (c ∷ cs) =
    let k : Key = (period, (user, c.dimension)) in
    record_usage period user (insert k (used l k + c.increment) l) cs

abbrev pub report_check : Bool → Check → ReportedCheck
report_check recorded c = record {
  check = c;
  used_after = if recorded then c.used_before + c.increment else c.used_before;
  remaining_after =
      if recorded then c.limit - c.used_before - c.increment else c.limit - c.used_before;
}

-- The part of `check_and_record` behind its three tests.
unfoldable pub decide : String → String → Plan → String → ℕ → ℕ → Bool → Ledger → Answer × Ledger
unfolding run_checks record_usage
decide period user plan workload units tokens recording l =
    let (checks, touched) =
      run_checks plan period user l (usage_dimensions workload units tokens) in
    let allowed : Bool = all (λ c. c.allowed) checks in
    (
      decided (record {
        allowed = allowed;
        period = period;
        user_hash = user;
        plan = plan;
        workload = workload;
        checks = map (report_check (allowed && recording)) checks;
        recorded = allowed && recording;
        reason = if allowed then within_quota else quota_exceeded;
      }),
      if allowed && recording then record_usage period user touched checks else touched,
    )

abbrev pub validate_amounts : ℤ → ℤ → Option (ℕ × ℕ)
validate_amounts (pos units) (pos tokens) = some (units, tokens)
validate_amounts _ _ = none

pub data Validated : Type 0 where
  valid : Plan → ℕ → ℕ → Validated
  invalid : QuotaError → Validated

-- the three tests in their order, on what they test
abbrev pub choose : QuotaRequest → Option Plan → Bool → Option (ℕ × ℕ) → Validated
choose r none known amounts = invalid (unsupported_plan r.plan)
choose r (some plan) false amounts = invalid (unsupported_workload r.workload)
choose r (some plan) true none = invalid negative_usage
choose r (some plan) true (some (units, tokens)) = valid plan units tokens

unfoldable pub validate : QuotaRequest → Validated
validate r =
    choose r (supported_plan r.plan) (r.workload == "llm" || r.workload == "vton")
      (validate_amounts r.request_units r.estimated_tokens)

module _ (sha256 : String → String) where
  -- `_user_hash`: `sha256` is the first 16 hexadecimal digits of the digest of the UTF-8 bytes
  unfoldable pub user_hash : String → String
  unfolding strip
  user_hash user_id =
      let normalized = strip user_id in
      sha256 (if normalized == "" then "anonymous" else normalized)

  unfoldable pub check_and_record : Ledger → QuotaRequest → String → Bool → Answer × Ledger
  unfolding validate decide user_hash
  check_and_record l r period recording = elim (validate r) [
    | invalid e ↦ (value_error e, l)
    | valid plan units tokens ↦
        decide period (user_hash r.user_id) plan r.workload units tokens recording l
  ]
