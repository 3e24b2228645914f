-- ===== src/Quota/Charges.antt =====
-- The loops of `check_and_record`: what they read, and what they charge.
use text.Mathlib.TextPositions.{eq_refl}
use try_ops_try_on_mlops.Base.{
  ℕ, ◌+◌, ◌≤◌, String, string_eq, pair_eq, Bool, true, ◌≡◌, refl, List, [], ◌∷◌, all, arith,
  if◌then◌else◌, ◌==◌, Bool-cases, inl, inr, All, ◌∙◌, ap, ◌↔◌, map, ◌-◌, Option-cases,
}
use try_ops_try_on_mlops.Base.Dict.{lookup, insert, lookup-insert}
use try_ops_try_on_mlops.Quota.Ledger.{
  Plan, Dimension, dimension_eq, Key, Ledger, plan_limits, ReportedCheck, report_check, used, touch,
  usage_dimensions, run_checks, record_usage,
}

used-insert :
    (l : Ledger) (k j : Key) (n : ℕ) → used (insert k n l) j ≡ (if k == j then n else used l j)
used-insert l k j n = ground (arith, lookup-insert k j n l)

pub key_iff : (k j : Key) → ((k == j) ≡ true) ↔ (k ≡ j)
key_iff = pair_eq.beq_iff

-- Reading a key enters it with 0, which no reader can tell.
pub used-touch : (l : Ledger) (k j : Key) → used (touch k l) j ≡ used l j
used-touch l k j = elim (Option-cases (lookup k l)) [
  | inl missing ↦ ground (arith, missing, used-insert l k j 0, key_iff k j)
  | inr (n, there) ↦ ground (arith, there)
]

-- The amount that a list of dimensions charges to a key.
abbrev pub charges : String → String → Key → List (Dimension × ℕ) → ℕ
charges period user j [] = 0
charges period user j (d ∷ ds) =
    (if (period, (user, d.0)) == j then d.1 else 0) + charges period user j ds

pub used-run_checks :
    (plan : Plan) (period user : String) (l : Ledger) (ds : List (Dimension × ℕ)) (j : Key)
    → used (run_checks plan period user l ds).1 j ≡ used l j
unfolding run_checks
used-run_checks plan period user l [] j = refl
used-run_checks plan period user l (d ∷ ds) j =
    used-run_checks plan period user (touch (period, (user, d.0)) l) ds j
    ∙ used-touch l (period, (user, d.0)) j

-- Recording the checks adds their charges, once each.
pub used-record_usage :
    (plan : Plan) (period user : String) (l m : Ledger) (ds : List (Dimension × ℕ)) (j : Key)
    → used (record_usage period user m (run_checks plan period user l ds).0) j
      ≡ used m j + charges period user j ds
unfolding record_usage run_checks
used-record_usage plan period user l m [] j = omega arith
used-record_usage plan period user l m (d ∷ ds) j =
    let k : Key = (period, (user, d.0)) in
    let n : ℕ = used m k + d.1 in
    let rest = used-record_usage plan period user (touch k l) (insert k n m) ds j in
    elim (Bool-cases (k == j)) [
      | inl same ↦
          let eq : used m k ≡ used m j = ap (used m) ((key_iff k j).0 same) in
          let now : used (insert k n m) j ≡ n = used-insert m k j n ∙ rw same in
          rw same (omega (arith, rest, now, eq))
      | inr other ↦
          let now : used (insert k n m) j ≡ used m j = used-insert m k j n ∙ rw other in
          rw other (omega (arith, rest, now))
    ]

-- Every charge is within its limit.
abbrev pub Affordable : Plan → String → String → Ledger → List (Dimension × ℕ) → Type 0
Affordable plan period user l ds =
    All (λ d. used l (period, (user, d.0)) + d.1 ≤ plan_limits plan d.0) ds

pub all-run_checks :
    (plan : Plan) (period user : String) (b l : Ledger) (ds : List (Dimension × ℕ))
    → ((j : Key) → used l j ≡ used b j)
    → (all (λ c. c.allowed) (run_checks plan period user l ds).0 ≡ true)
      ↔ Affordable plan period user b ds
unfolding run_checks
all-run_checks plan period user b l [] same = (λ h. tt, λ h. refl)
all-run_checks plan period user b l (d ∷ ds) same =
    let k : Key = (period, (user, d.0)) in
    let ih = all-run_checks plan period user b (touch k l) ds (λ j. used-touch l k j ∙ same j) in
    let here = same k in
    (
      λ h. (ground (arith, here), ih.0 (ground arith)),
      λ h. let rest = ih.1 h.1 in ground (arith, here, h.0, rest),
    )

-- The report of one check, against the ledgers before and after.
abbrev pub Reports :
    Plan → String → String → Ledger → Ledger → ReportedCheck → Dimension × ℕ → Type 0
Reports plan period user l l' c d =
    let k : Key = (period, (user, d.0)) in
    (c.check.dimension ≡ d.0)
    × (c.check.limit ≡ plan_limits plan d.0)
    × (c.check.used_before ≡ used l k)
    × (c.used_after ≡ used l' k)
    × (c.remaining_after ≡ plan_limits plan d.0 - used l' k)

abbrev pub AllReport :
    Plan → String → String → Ledger → Ledger → List ReportedCheck → List (Dimension × ℕ) → Type 0
AllReport plan period user l l' [] [] = Unit
AllReport plan period user l l' (c ∷ cs) (d ∷ ds) =
    Reports plan period user l l' c d × AllReport plan period user l l' cs ds
AllReport _ _ _ _ _ _ _ = ⊥

-- The ledger has moved by `d`'s amount at `d`'s key, or not at all.
abbrev pub Moved : String → String → Ledger → Ledger → Bool → Dimension × ℕ → Type 0
Moved period user l l' recorded d =
    used l' (period, (user, d.0)) ≡ used l (period, (user, d.0)) + (if recorded then d.1 else 0)

pub reports-run_checks :
    (plan : Plan) (period user : String) (b l l' : Ledger) (recorded : Bool)
    (ds : List (Dimension × ℕ))
    → ((j : Key) → used l j ≡ used b j)
    → All (Moved period user b l' recorded) ds
    → AllReport plan period user b l'
        (map (report_check recorded) (run_checks plan period user l ds).0)
        ds
unfolding run_checks
reports-run_checks plan period user b l l' recorded [] same h = tt
reports-run_checks plan period user b l l' recorded (d ∷ ds) same h =
    let k : Key = (period, (user, d.0)) in
    let here = same k in
    let moved = h.0 in
    (
      (refl, refl, here, ground (arith, here, moved), ground (arith, here, moved)),
      reports-run_checks plan period user b (touch k l) l' recorded ds
          (λ j. used-touch l k j ∙ same j) h.1,
    )

-- The dimensions of a request are distinct, so each is charged its own amount.
pub charges-usage_dimensions :
    (period user workload : String) (units tokens : ℕ)
    → All
        (λ d.
          charges period user (period, (user, d.0)) (usage_dimensions workload units tokens) ≡ d.1)
        (usage_dimensions workload units tokens)
charges-usage_dimensions period user workload units tokens = elim (Bool-cases (workload == "llm")) [
  | inl llm ↦ rw llm (
    ground (arith, eq_refl period, eq_refl user),
    (ground (arith, eq_refl period, eq_refl user), tt),
  )
  | inr vton ↦ rw vton (ground (arith, eq_refl period, eq_refl user), tt)
]
