-- ===== src/Quota/Accounting.antt =====
-- Any sequence of calls on the ledger: the daily limits hold.
use mathlib.Core.Path.{subst}
use try_ops_try_on_mlops.Base.{
  ℕ, ◌+◌, ◌≤◌, String, string_eq, pair_eq, Bool, true, ◌≡◌, refl, some, List, [], ◌∷◌, arith, ◌==◌,
  Bool-cases, inl, inr, ap,
}
use try_ops_try_on_mlops.Quota.Ledger.{
  Plan, Dimension, llm_requests_per_day, llm_tokens_per_day, vton_requests_per_day, dimension_eq,
  Key, Ledger, QuotaRequest, Decision, plan_limits, used, usage_dimensions, supported_plan,
  user_hash, check_and_record,
}
use try_ops_try_on_mlops.Quota.Charges.{key_iff, charges, Affordable}
use try_ops_try_on_mlops.Quota.Decisions.{
  Decides, IsSupported, check_and_record-Decides, check_and_record_total,
}

module _ (plan : Plan) (period user : String) (bound : ℕ) (l : Ledger) (j : Key)
    (limits : (d : Dimension) → (period, (user, d)) ≡ j → plan_limits plan d ≤ bound)
    (within : used l j ≤ bound) where
  -- One charge in front of others, which charge another key.
  charges_step :
      (d : Dimension × ℕ) (ds : List (Dimension × ℕ))
      → ((period, (user, d.0)) ≡ j → charges period user j ds ≡ 0)
      → used l (period, (user, d.0)) + d.1 ≤ plan_limits plan d.0
      → used l j + charges period user j ds ≤ bound
      → used l j + charges period user j (d ∷ ds) ≤ bound
  charges_step d ds alone here rest =
      let k : Key = (period, (user, d.0)) in
      elim (Bool-cases (k == j)) [
        | inl same ↦
            let eq : k ≡ j = (key_iff k j).0 same in
            let at_key : used l k ≡ used l j = ap (used l) eq in
            rw same (omega (arith, here, at_key, alone eq, limits d.0 eq))
        | inr other ↦ rw other (omega (arith, rest))
      ]

  charges_bound :
      (workload : String) (units tokens : ℕ)
      → Affordable plan period user l (usage_dimensions workload units tokens)
      → used l j + charges period user j (usage_dimensions workload units tokens) ≤ bound
  charges_bound workload units tokens afford = elim (Bool-cases (workload == "llm")) [
    | inl llm ↦
        let both : Affordable plan period user l
            ((llm_requests_per_day, units) ∷ (llm_tokens_per_day, tokens) ∷ []) =
          rw llm at afford in
        rw llm (
          charges_step (llm_requests_per_day, units) ((llm_tokens_per_day, tokens) ∷ [])
            (λ e.
              subst (λ k. charges period user k ((llm_tokens_per_day, tokens) ∷ []) ≡ 0) e
                (ground arith))
            both.0
            (charges_step (llm_tokens_per_day, tokens) [] (λ e. refl) both.1.0 (omega arith)))
    | inr vton ↦
        let one : Affordable plan period user l ((vton_requests_per_day, units) ∷ []) =
          rw vton at afford in
        rw vton (charges_step (vton_requests_per_day, units) [] (λ e. refl) one.0 (omega arith))
  ]

pub record Call : Type 0 where
  pub request : QuotaRequest
  pub period : String
  pub recording : Bool

module _ (sha256 : String → String) where
  unfoldable pub run : Ledger → List Call → Ledger
  run l [] = l
  run l (c ∷ cs) = run (check_and_record sha256 l c.request c.period c.recording).1 cs

  -- The calls for the key's user and day are on plans whose limit in the dimension is within `bound`.
  abbrev pub Limited : Key → ℕ → List Call → Type 0
  Limited j bound [] = Unit
  Limited j bound (c ∷ cs) =
      ((plan : Plan) (d : Dimension)
        → supported_plan c.request.plan ≡ some plan
        → (c.period, (user_hash sha256 c.request.user_id, d)) ≡ j
        → plan_limits plan d ≤ bound)
      × Limited j bound cs

  decided_bound :
      (c : Call) (l l' : Ledger) (j : Key) (bound : ℕ) (plan : Plan) (units tokens : ℕ)
      (d : Decision)
      → IsSupported c.request plan units tokens
      → Decides plan c.period
          (user_hash sha256 c.request.user_id)
          c.request.workload
          units
          tokens
          c.recording
          l
          l'
          d
      → used l j ≤ bound
      → ((plan : Plan) (d : Dimension)
          → supported_plan c.request.plan ≡ some plan
          → (c.period, (user_hash sha256 c.request.user_id, d)) ≡ j
          → plan_limits plan d ≤ bound)
      → used l' j ≤ bound
  decided_bound c l l' j bound plan units tokens d supported spec h limits =
      elim (Bool-cases d.recorded) [
        | inr no_record ↦ let moved = spec.ledger j in ground (arith, moved, no_record)
        | inl recorded ↦
            let moved = spec.ledger j in
            let allowed : d.allowed ≡ true = ground (arith, spec.recorded_eq, recorded) in
            let room =
              charges_bound plan c.period (user_hash sha256 c.request.user_id) bound l j
                (λ dim e. limits plan dim supported.plan_eq e) h c.request.workload units tokens
                (spec.allowed_iff.0 allowed) in
            ground (arith, moved, recorded, room)
      ]

  call_bound :
      (l : Ledger) (j : Key) (bound : ℕ) (c : Call)
      → used l j ≤ bound
      → ((plan : Plan) (d : Dimension)
          → supported_plan c.request.plan ≡ some plan
          → (c.period, (user_hash sha256 c.request.user_id, d)) ≡ j
          → plan_limits plan d ≤ bound)
      → used (check_and_record sha256 l c.request c.period c.recording).1 j ≤ bound
  call_bound l j bound c h limits =
      elim (check_and_record_total sha256 l c.request c.period c.recording) [
        | inr (e, refused) ↦ rw refused h
        | inl (plan, units, tokens, supported) ↦
            let (d, l', answer, spec) =
              check_and_record-Decides sha256 l c.request c.period c.recording plan units tokens
                supported in
            rw answer (decided_bound c l l' j bound plan units tokens d supported spec h limits)
      ]

  run_bound :
      (l : Ledger) (j : Key) (bound : ℕ) (cs : List Call)
      → used l j ≤ bound
      → Limited j bound cs
      → used (run l cs) j ≤ bound
  unfolding run
  run_bound l j bound [] h limits = h
  run_bound l j bound (c ∷ cs) h limits =
      run_bound (check_and_record sha256 l c.request c.period c.recording).1 j bound cs
        (call_bound l j bound c h limits.0) limits.1

  -- However calls on all users, plans and days are mixed, the usage recorded for a user, day and
  -- dimension is at most `bound`, if that user's calls of that day are on plans that allow no more.
  pub used-le-limit :
      (j : Key) (bound : ℕ) (cs : List Call) → Limited j bound cs → used (run [] cs) j ≤ bound
  used-le-limit j bound cs limits = run_bound [] j bound cs (omega arith) limits
