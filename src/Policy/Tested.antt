-- ===== src/Policy/Tested.antt =====
-- Gates made of tests pass exactly if no test fails; so the gates on approvals, vulnerabilities and provenance.
use try_ops_try_on_mlops.Base.{
  String, string_eq, Bool, true, false, not, ◌&&◌, ◌≡◌, ◌↔◌, refl, some, List, [], ◌∷◌, ◌++◌, keep,
  is_empty, contains, All, arith, Bool-cases, Option-cases, inl, inr,
}
use try_ops_try_on_mlops.Base.Int.{pos, ◌≤ℤ◌}
use try_ops_try_on_mlops.Base.Dict.{lookup, get_or}
use try_ops_try_on_mlops.Base.Python.{Python}
use try_ops_try_on_mlops.Policy.Model.{Policy}
use try_ops_try_on_mlops.Policy.Gates.{
  failing, gate_of, none_missing, Candidate, check_approvals, check_security,
  check_model_provenance, security_tests, provenance_tests,
}
use try_ops_try_on_mlops.Policy.Conditions.{IfRequired, Provenance}

abbrev Untrue : Bool × String → Type 0
Untrue t = t.0 ≡ false

-- A gate of tests passes exactly if no test fails.
pub failing-passes :
    (ts : List (Bool × String)) (ok : String)
    → ((gate_of (failing ts) ok).passed ≡ true) ↔ All Untrue ts
failing-passes [] ok = (λ h. tt, λ h. refl)
failing-passes ((true, s) ∷ ts) ok = (λ h. absurd (cc (h)), λ h. let f = h.0 in absurd (cc (f)))
failing-passes ((false, s) ∷ ts) ok =
    (λ h. (refl, (failing-passes ts ok).0 h), λ h. (failing-passes ts ok).1 h.1)

keep_none :
    (p : String → Bool) (ss : List String)
    → (is_empty (keep (λ s. not (p s)) ss) ≡ true) ↔ All (λ s. p s ≡ true) ss
keep_none p [] = (λ h. tt, λ h. refl)
keep_none p (s ∷ ss) = elim (Bool-cases (p s)) [
  | inl t ↦ rw t (λ h. (refl, (keep_none p ss).0 h), λ h. (keep_none p ss).1 h.1)
  | inr f ↦ rw f (λ h. absurd (cc (h)), λ h. absurd (let g = h.0 in cc (g)))
]

pub none_missing-passes :
    (p : String → Bool) (ss : List String) (text ok : String)
    → ((none_missing (keep (λ s. not (p s)) ss) text ok).passed ≡ true) ↔ All (λ s. p s ≡ true) ss
none_missing-passes p ss text ok = elim (Bool-cases (is_empty (keep (λ s. not (p s)) ss))) [
  | inl t ↦ (λ h. (keep_none p ss).0 t, λ h. ground (arith, t))
  | inr f ↦
      (λ h. absurd (ground (arith, f, h)), λ h. let e = (keep_none p ss).1 h in absurd (cc (e, f)))
]

pub is_empty-append : (xs ys : List String) → is_empty (xs ++ ys) ≡ (is_empty xs && is_empty ys)
is_empty-append [] ys = refl
is_empty-append (x ∷ xs) ys = refl

pub gate_of-passes :
    (fs : List String) (ok : String) → ((gate_of fs ok).passed ≡ true) ↔ (is_empty fs ≡ true)
gate_of-passes [] ok = (λ h. refl, λ h. refl)
gate_of-passes (f ∷ fs) ok = (λ h. h, λ h. h)

module _ (py : Python) where
  pub approvals-passes :
      (c : Candidate py) (stage : String) (p : Policy py.Float)
      → ((check_approvals py c stage p).passed ≡ true) ↔ (
          (required : List String) × (lookup stage p.required_approvals ≡ some required)
          × All (λ a. contains a c.approvals ≡ true) required)
  unfolding check_approvals
  approvals-passes c stage p = elim (Option-cases (lookup stage p.required_approvals)) [
    | inl gone ↦
        rw (gone, check_approvals) (λ h. absurd (cc (h)), λ (required, e, _). absurd (cc (e)))
    | inr (required, there) ↦
        let (to, from) =
          none_missing-passes (λ a. contains a c.approvals) required "missing approvals: "
            "approvals present" in
        rw (there, check_approvals)
          (
            λ h. (required, refl, to h),
            λ (other, e, every). from (let eq : required ≡ other = cc (e) in rw eq every),
          )
  ]

  pub security-passes :
      (c : Candidate py) (p : Policy py.Float)
      → ((check_security py c p).passed ≡ true) ↔ (
          (get_or "critical" (pos 0) c.vulnerabilities ≤ℤ p.security.max_critical_vulnerabilities)
          × (get_or "high" (pos 0) c.vulnerabilities ≤ℤ p.security.max_high_vulnerabilities))
  unfolding check_security
  security-passes c p =
      let (to, from) = failing-passes (security_tests py c p) "security scan within threshold" in
      (
        λ h. let (a, (b, _)) = to h in (ground (arith, a), ground (arith, b)),
        λ (a, b). from (ground (arith, a), (ground (arith, b), tt)),
      )

  pub statement-passes :
      (c : Candidate py) (p : Policy py.Float)
      → ((check_model_provenance py c p).passed ≡ true)
        ↔ IfRequired py c p.model_provenance.required_for_workloads (Provenance py c p)
  unfolding check_model_provenance
  statement-passes c p =
      elim (Bool-cases (contains c.workload p.model_provenance.required_for_workloads)) [
        | inr free ↦ rw free (λ h e. absurd (cc (e)), λ h. refl)
        | inl required ↦
            let (to, from) =
              failing-passes (provenance_tests py c p) "model provenance gate passed" in
            rw required (
              λ h e.
                  let (a, (b, (s, (t, (m, (i, (v, _))))))) = to h in
                  record {
                    statement = ground (arith, a);
                    status = ground (arith, b);
                    statement_type = ground (arith, s);
                    predicate_type = ground (arith, t);
                    mode = ground (arith, m);
                    signer = i;
                    verified = ground (arith, v);
                  },
              λ h.
                  let r = h refl in
                  from (
                    ground (arith, r.statement),
                    (
                      ground (arith, r.status),
                      (
                        ground (arith, r.statement_type),
                        (
                          ground (arith, r.predicate_type),
                          (ground (arith, r.mode), (r.signer, (ground (arith, r.verified), tt))),
                        ),
                      ),
                    ),
                  ),
            )
      ]
