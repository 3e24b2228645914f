-- ===== src/Quota/Decisions.antt =====
-- One call of `check_and_record`: what it decides, and what it changes.
use try_ops_try_on_mlops.Base.{
  ℕ, ◌+◌, String, string_eq, pair_eq, Bool, true, false, ◌&&◌, ◌||◌, ◌⊎◌, ◌≡◌, refl, Option, none,
  some, List, [], ◌∷◌, all, arith, if◌then◌else◌, ◌==◌, inl, inr, All, ap, ◌↔◌,
}
use try_ops_try_on_mlops.Base.Int.{ℤ, pos, negsuc}
use try_ops_try_on_mlops.Quota.Ledger.{
  Plan, Dimension, dimension_eq, Key, Ledger, Decision, Answer, decided, decide, used,
  negative_usage, unsupported_plan, unsupported_workload, validate_amounts, valid, invalid, choose,
  validate, supported_plan, user_hash, check_and_record, QuotaRequest, QuotaError, value_error,
  usage_dimensions, run_checks, record_usage,
}
use try_ops_try_on_mlops.Quota.Charges.{
  charges, used-run_checks, used-record_usage, Affordable, all-run_checks, AllReport, Moved,
  reports-run_checks, charges-usage_dimensions,
}

pub record Decides (plan : Plan) (period user workload : String) (units tokens : ℕ)
    (recording : Bool) (l l' : Ledger) (d : Decision) : Type 0 where
  pub allowed_iff :
      (d.allowed ≡ true) ↔ Affordable plan period user l (usage_dimensions workload units tokens)
  pub recorded_eq : d.recorded ≡ (d.allowed && recording)
  pub ledger :
      (j : Key)
      → used l' j
        ≡ used l j
          + (if d.recorded
              then charges period user j (usage_dimensions workload units tokens)
              else 0)
  pub reports : AllReport plan period user l l' d.checks (usage_dimensions workload units tokens)

written : Plan → String → String → Ledger → List (Dimension × ℕ) → Bool → Ledger
written plan period user l ds recorded =
    let (checks, touched) = run_checks plan period user l ds in
    if recorded then record_usage period user touched checks else touched

used-written :
    (plan : Plan) (period user : String) (l : Ledger) (ds : List (Dimension × ℕ)) (recorded : Bool)
    (j : Key)
    → used (written plan period user l ds recorded) j
      ≡ used l j + (if recorded then charges period user j ds else 0)
unfolding written
used-written plan period user l ds true j =
    let touched = (run_checks plan period user l ds).1 in
    omega (
      arith,
      used-record_usage plan period user l touched ds j,
      used-run_checks plan period user l ds j,
    )
used-written plan period user l ds false j = omega (arith, used-run_checks plan period user l ds j)

written-Moved :
    (plan : Plan) (period user : String) (l : Ledger) (ds es : List (Dimension × ℕ))
    (recorded : Bool)
    → All (λ d. charges period user (period, (user, d.0)) ds ≡ d.1) es
    → All (Moved period user l (written plan period user l ds recorded) recorded) es
written-Moved plan period user l ds [] recorded h = tt
written-Moved plan period user l ds (e ∷ es) recorded h = (
  ground (arith, used-written plan period user l ds recorded (period, (user, e.0)), h.0),
  written-Moved plan period user l ds es recorded h.1,
)

-- What `decide` answers and what it leaves in the ledger.
decide_lem :
    (plan : Plan) (period user workload : String) (units tokens : ℕ) (recording : Bool) (l : Ledger)
    → let (answer, l') = decide period user plan workload units tokens recording l in
      (d : Decision) × (answer ≡ decided d)
      × Decides plan period user workload units tokens recording l l' d
unfolding decide written
decide_lem plan period user workload units tokens recording l =
    let ds = usage_dimensions workload units tokens in
    let recorded : Bool = all (λ c. c.allowed) (run_checks plan period user l ds).0 && recording in
    (
      _,
      refl,
      record {
        allowed_iff = all-run_checks plan period user l l ds (λ j. refl);
        recorded_eq = refl;
        ledger = used-written plan period user l ds recorded;
        reports =
            reports-run_checks plan period user l l (written plan period user l ds recorded)
              recorded ds (λ j. refl)
              (written-Moved plan period user l ds ds recorded
                (charges-usage_dimensions period user workload units tokens));
      },
    )

-- What a request must be for a decision: the conditions of the three `ValueError`s do not hold.
pub record IsSupported (r : QuotaRequest) (plan : Plan) (units tokens : ℕ) : Type 0 where
  pub plan_eq : supported_plan r.plan ≡ some plan
  pub workload_eq : (r.workload == "llm" || r.workload == "vton") ≡ true
  pub units_eq : r.request_units ≡ pos units
  pub tokens_eq : r.estimated_tokens ≡ pos tokens

amounts_eq :
    (a b : ℤ) (units tokens : ℕ)
    → validate_amounts a b ≡ some (units, tokens)
    → (a ≡ pos units) × (b ≡ pos tokens)
amounts_eq (pos a) (pos b) units tokens h = (cc (h), cc (h))
amounts_eq (pos a) (negsuc b) units tokens h = cc
amounts_eq (negsuc a) b units tokens h = cc

choose_cases :
    (r : QuotaRequest) (o : Option Plan) (known : Bool) (amounts : Option (ℕ × ℕ))
    → supported_plan r.plan ≡ o
    → (r.workload == "llm" || r.workload == "vton") ≡ known
    → validate_amounts r.request_units r.estimated_tokens ≡ amounts
    → ((plan : Plan) × (units : ℕ) × (tokens : ℕ) × (IsSupported r plan units tokens)
        × (choose r o known amounts ≡ valid plan units tokens))
      ⊎ ((e : QuotaError) × (choose r o known amounts ≡ invalid e))
choose_cases r none known amounts p q a = inr (unsupported_plan r.plan, refl)
choose_cases r (some plan) false amounts p q a = inr (unsupported_workload r.workload, refl)
choose_cases r (some plan) true none p q a = inr (negative_usage, refl)
choose_cases r (some plan) true (some (units, tokens)) p q a =
    let (u, t) = amounts_eq r.request_units r.estimated_tokens units tokens a in
    inl (
      plan,
      units,
      tokens,
      record { plan_eq = p; workload_eq = q; units_eq = u; tokens_eq = t },
      refl,
    )

validate_cases :
    (r : QuotaRequest)
    → ((plan : Plan) × (units : ℕ) × (tokens : ℕ) × (IsSupported r plan units tokens)
        × (validate r ≡ valid plan units tokens))
      ⊎ ((e : QuotaError) × (validate r ≡ invalid e))
unfolding validate
validate_cases r =
    choose_cases r (supported_plan r.plan) (r.workload == "llm" || r.workload == "vton")
      (validate_amounts r.request_units r.estimated_tokens) refl refl refl

validate-IsSupported :
    (r : QuotaRequest) (plan : Plan) (units tokens : ℕ)
    → IsSupported r plan units tokens
    → validate r ≡ valid plan units tokens
unfolding validate
validate-IsSupported r plan units tokens s = rw (s.plan_eq, s.workload_eq, s.units_eq, s.tokens_eq)

module _ (sha256 : String → String) where
  -- A supported request is decided: it is allowed exactly if each of its dimensions stays within the
  -- plan's limit; if it is allowed and to be recorded, each dimension is charged its amount and
  -- nothing else changes, and otherwise no usage changes; and the report states the usage before and
  -- after, and what remains.
  pub check_and_record-Decides :
      (l : Ledger) (r : QuotaRequest) (period : String) (recording : Bool) (plan : Plan)
      (units tokens : ℕ)
      → IsSupported r plan units tokens
      → (d : Decision) × (l' : Ledger) × (check_and_record sha256 l r period recording
          ≡ (decided d, l'))
        × Decides plan period (user_hash sha256 r.user_id) r.workload units tokens recording l l' d
  unfolding check_and_record
  check_and_record-Decides l r period recording plan units tokens s =
      let (d, e, spec) =
        decide_lem plan period (user_hash sha256 r.user_id) r.workload units tokens recording l in
      (
        d,
        _,
        rw (validate-IsSupported r plan units tokens s, check_and_record)
            (ap
              (λ (a : Answer). (
                a,
                (decide period (user_hash sha256 r.user_id) plan r.workload units tokens recording
                    l).1,
              ))
              e),
        spec,
      )

  -- Every request is supported, or raises and leaves the ledger as it is.
  pub check_and_record_total :
      (l : Ledger) (r : QuotaRequest) (period : String) (recording : Bool)
      → ((plan : Plan) × (units : ℕ) × (tokens : ℕ) × IsSupported r plan units tokens)
        ⊎ ((e : QuotaError) × (check_and_record sha256 l r period recording ≡ (value_error e, l)))
  unfolding check_and_record
  check_and_record_total l r period recording = elim (validate_cases r) [
    | inl (plan, units, tokens, supported, _) ↦ inl (plan, units, tokens, supported)
    | inr (e, refused) ↦ inr (e, rw (refused, check_and_record))
  ]
