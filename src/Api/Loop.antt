-- ===== src/Api/Loop.antt =====
-- The loop of `_merge_job_records`: an entry stands under the id of its job, and has the highest rank seen.
use try_ops_try_on_mlops.Base.{
  nat_eq, String, string_eq, true, false, ◌≡◌, refl, inl, inr, Option, none, some, List, [], ◌∷◌,
  All, ◌==◌, arith, Bool-cases, beq_refl, sym, ◌∙◌, ap,
}
use try_ops_try_on_mlops.Base.Dict.{
  Dict, lookup, insert, values, lookup-insert, IsUnique, insert-IsUnique,
}
use try_ops_try_on_mlops.Base.Json.{Fields}
use try_ops_try_on_mlops.Api.Merge.{Rank, rank_leb, choose_job, add_job, add_jobs}

rank_leb_refl : (a : Rank) → rank_leb a a ≡ true
unfolding rank_leb
rank_leb_refl a = ground arith

rank_leb_trans : (a b c : Rank) → rank_leb a b ≡ true → rank_leb b c ≡ true → rank_leb a c ≡ true
unfolding rank_leb
rank_leb_trans a b c h k = ground arith

insert-All :
    (P : Fields → Type 0) (k : String) (v : Fields) (d : Dict String Fields)
    → P v
    → All P (values d)
    → All P (values (insert k v d))
insert-All P k v [] p h = (p, tt)
insert-All P k v ((j, w) ∷ d) p h = elim (Bool-cases (j == k)) [
  | inl same ↦ rw same (p, h.1)
  | inr other ↦ rw other (h.0, insert-All P k v d p h.1)
]

rank_leb_total : (a b : Rank) → rank_leb a b ≡ false → rank_leb b a ≡ true
unfolding rank_leb
rank_leb_total a b h = ground arith

pub All-imply :
    (P Q : Fields → Type 0) → ((x : Fields) → P x → Q x) → (xs : List Fields) → All P xs → All Q xs
All-imply P Q f [] h = tt
All-imply P Q f (x ∷ xs) h = (f x h.0, All-imply P Q f xs h.1)

pub All-both :
    (P Q : Fields → Type 0) (xs : List Fields) → All P xs → All Q xs → All (λ x. P x × Q x) xs
All-both P Q [] h k = tt
All-both P Q (x ∷ xs) h k = ((h.0, k.0), All-both P Q xs h.1 k.1)

module _ (id_of : Fields → String) (rank_of : Fields → Rank) where
  -- Each entry stands under the id of its job.
  abbrev pub Keyed : Dict String Fields → Type 0
  Keyed [] = Unit
  Keyed ((k, v) ∷ d) = (id_of v ≡ k) × Keyed d

  insert-Keyed : (v : Fields) (d : Dict String Fields) → Keyed d → Keyed (insert (id_of v) v d)
  insert-Keyed v [] h = (refl, tt)
  insert-Keyed v ((j, w) ∷ d) h = elim (Bool-cases (j == id_of v)) [
    | inl same ↦ rw same (sym ((string_eq.beq_iff j (id_of v)).0 same), h.1)
    | inr other ↦ rw other (h.0, insert-Keyed v d h.1)
  ]

  pub record Merged (P : Fields → Type 0) (d : Dict String Fields) : Type 0 where
    pub keyed : Keyed d
    pub unique : IsUnique d
    pub from : All P (values d)

  choose_job-Merged :
      (P : Fields → Type 0) (job : Fields) (d : Dict String Fields) (o : Option Fields)
      → P job
      → Merged P d
      → Merged P (choose_job id_of rank_of job d o)
  choose_job-Merged P job d o p m =
      let replaced : Merged P (insert (id_of job) job d) = record {
        keyed = insert-Keyed job d m.keyed;
        unique = insert-IsUnique (id_of job) job d m.unique;
        from = insert-All P (id_of job) job d p m.from;
      } in
      elim o as (λ o. Merged P (choose_job id_of rank_of job d o)) [
        | none ↦ replaced
        | some existing ↦ elim (Bool-cases (rank_leb (rank_of existing) (rank_of job))) [
          | inl h ↦ rw h replaced
          | inr h ↦ rw h m
        ]
      ]

  pub add_jobs-Merged :
      (P : Fields → Type 0) (jobs : List Fields) (d : Dict String Fields)
      → All P jobs
      → Merged P d
      → Merged P (add_jobs id_of rank_of jobs d)
  add_jobs-Merged P [] d p m = m
  add_jobs-Merged P (job ∷ jobs) d p m =
      let next : Merged P (add_job id_of rank_of job d) = elim (Bool-cases (id_of job == "")) [
        | inl blank ↦ rw blank m
        | inr named ↦ rw named (choose_job-Merged P job d (lookup (id_of job) d) p.0 m)
      ] in
      add_jobs-Merged P jobs (add_job id_of rank_of job d) p.1 next

  -- The entry of the id has at least the rank of `job`.
  abbrev pub Beaten : Dict String Fields → Fields → Type 0
  Beaten d job =
      (best : Fields) × (lookup (id_of job) d ≡ some best)
      × (rank_leb (rank_of job) (rank_of best) ≡ true)

  lookup_own :
      (job : Fields) (d : Dict String Fields)
      → lookup (id_of job) (insert (id_of job) job d) ≡ some job
  lookup_own job d = rw (lookup-insert, beq_refl (id_of job)) refl

  lookup_other :
      (job other : Fields) (d : Dict String Fields) (o : Option Fields)
      → (id_of job == id_of other) ≡ false
      → lookup (id_of other) (choose_job id_of rank_of job d o) ≡ lookup (id_of other) d
  lookup_other job other d none h = rw (lookup-insert, h) refl
  lookup_other job other d (some existing) h =
      elim (Bool-cases (rank_leb (rank_of existing) (rank_of job))) [
        | inl k ↦ rw k (rw (lookup-insert, h) refl)
        | inr k ↦ rw k refl
      ]

  choose_job_beats :
      (job : Fields) (d : Dict String Fields) (o : Option Fields)
      → lookup (id_of job) d ≡ o
      → Beaten (choose_job id_of rank_of job d o) job
  choose_job_beats job d none h = (job, lookup_own job d, rank_leb_refl (rank_of job))
  choose_job_beats job d (some existing) h =
      elim (Bool-cases (rank_leb (rank_of existing) (rank_of job))) [
        | inl stronger ↦ rw stronger (job, lookup_own job d, rank_leb_refl (rank_of job))
        | inr weaker ↦
            rw weaker (existing, h, rank_leb_total (rank_of existing) (rank_of job) weaker)
      ]

  choose_job_over :
      (job existing : Fields) (d : Dict String Fields)
      → lookup (id_of job) d ≡ some existing
      → (top : Fields) × (lookup (id_of job) (choose_job id_of rank_of job d (some existing))
          ≡ some top)
        × (rank_leb (rank_of existing) (rank_of top) ≡ true)
  choose_job_over job existing d h = elim (Bool-cases (rank_leb (rank_of existing) (rank_of job))) [
    | inl stronger ↦ rw stronger (job, lookup_own job d, stronger)
    | inr weaker ↦ rw weaker (existing, h, rank_leb_refl (rank_of existing))
  ]

  choose_job_keeps :
      (job other : Fields) (d : Dict String Fields) (o : Option Fields)
      → lookup (id_of job) d ≡ o
      → Beaten d other
      → Beaten (choose_job id_of rank_of job d o) other
  choose_job_keeps job other d o h b = elim (Bool-cases (id_of job == id_of other)) [
    | inl same ↦
        let eq : id_of job ≡ id_of other = (string_eq.beq_iff (id_of job) (id_of other)).0 same in
        let (best, found, le) = b in
        let is : o ≡ some best = sym h ∙ ap (λ k. lookup k d) eq ∙ found in
        let (top, top_found, top_le) = choose_job_over job best d (h ∙ is) in
        let at : lookup (id_of other) (choose_job id_of rank_of job d o) ≡ some top =
          ap (λ q. lookup (id_of other) (choose_job id_of rank_of job d q)) is
          ∙ ap (λ k. lookup k (choose_job id_of rank_of job d (some best))) (sym eq)
          ∙ top_found in
        (top, at, rank_leb_trans (rank_of other) (rank_of best) (rank_of top) le top_le)
    | inr different ↦
        let (best, found, le) = b in (best, lookup_other job other d o different ∙ found, le)
  ]

  add_job_keeps :
      (job other : Fields) (d : Dict String Fields)
      → Beaten d other
      → Beaten (add_job id_of rank_of job d) other
  add_job_keeps job other d b = elim (Bool-cases (id_of job == "")) [
    | inl blank ↦ rw blank b
    | inr named ↦ rw named (choose_job_keeps job other d (lookup (id_of job) d) refl b)
  ]

  add_jobs_keep :
      (jobs : List Fields) (other : Fields) (d : Dict String Fields)
      → Beaten d other
      → Beaten (add_jobs id_of rank_of jobs d) other
  add_jobs_keep [] other d b = b
  add_jobs_keep (job ∷ jobs) other d b =
      add_jobs_keep jobs other (add_job id_of rank_of job d) (add_job_keeps job other d b)

  pub add_jobs_beat :
      (jobs : List Fields) (d : Dict String Fields)
      → All (λ job. (id_of job == "") ≡ false → Beaten (add_jobs id_of rank_of jobs d) job) jobs
  add_jobs_beat [] d = tt
  add_jobs_beat (job ∷ jobs) d = (
    λ named.
        add_jobs_keep jobs job (add_job id_of rank_of job d)
          (rw named (choose_job_beats job d (lookup (id_of job) d) refl)),
    add_jobs_beat jobs (add_job id_of rank_of job d),
  )

  -- A value of the dict is the one under its own id.
  pub values-lookup :
      (d : Dict String Fields)
      → Keyed d
      → IsUnique d
      → All (λ v. lookup (id_of v) d ≡ some v) (values d)
  values-lookup [] h u = tt
  values-lookup ((k, v) ∷ d) h u = (
    rw (h.0, beq_refl k) refl,
    All-imply (λ w. lookup (id_of w) d ≡ some w) (λ w. lookup (id_of w) ((k, v) ∷ d) ≡ some w)
        (λ w found. elim (Bool-cases (k == id_of w)) [
          | inl same ↦ absurd (
              let eq : k ≡ id_of w = (string_eq.beq_iff k (id_of w)).0 same in
              let gone = u.0 in cc (eq, found, gone))
          | inr other ↦ rw other found
        ])
        (values d) (values-lookup d h.1 u.1),
  )
